-- ===== src/Relay/PeerInfo.antt =====
-- relay/peer.rs: `PeerInfo` and its 33 bytes on the wire.
pub mod Reading
use pcopy.Prelude.{
  ℕ, ◌+◌, ◌*◌, ◌%◌, ◌^◌, ◌<◌, List, [], ◌∷◌, ◌++◌, length, replicate, slice, ltb, ◌==◌,
  if◌then◌else◌,
}
use pcopy.Prelude.BigEndian.{to_be, from_be}
use pcopy.Prelude.Outcome.{Outcome, ok, err, panic, ◌>>=◌, or_panic, map_err, to_array}
use pcopy.Rust.IoError.{invalid_data}
use pcopy.Rust.Cursor.{Cursor, forward, read_exact}
use pcopy.Rust.IpAddr.{IpAddr, v4, v6, octets, IsIpAddr}
use pcopy.Rust.Duration.{Duration, as_millis, from_millis}
use pcopy.Crates.Bytes.{Bytes}
use pcopy.Crates.ByteOrder.{ByteOrder}
use pcopy.Relay.FrameError.{FrameError, incomplete, other, from_io}
use pcopy.Relay.PeerId.{PeerId, peer_id_length_bytes}

abbrev pub peer_info_serialize_bytes_len : ℕ
peer_info_serialize_bytes_len = 33

pub record PeerInfo : Type 0 where
  pub peer_id : PeerId
  pub ip : IpAddr
  pub ping_rtt : Duration

-- `PeerId([0; PEER_ID_LENGTH_BYTES])`
abbrev pub zero_id : PeerId
zero_id = record { bytes = replicate peer_id_length_bytes 0 }

unfoldable pub default : PeerInfo
default = record { peer_id = zero_id; ip = v4 0 0 0 0; ping_rtt = from_millis 0 }

-- A V4 address is padded with zeros to 16 bytes.
unfoldable pub padded : IpAddr → List ℕ
padded (v4 a b c d) = a ∷ b ∷ c ∷ d ∷ replicate 12 0
padded (v6 bs) = bs

unfoldable pub ip_tag : IpAddr → ℕ
ip_tag (v4 a b c d) = 0
ip_tag (v6 bs) = 1

-- The identifier of the peer is not written.
unfoldable pub to_be_bytes : PeerInfo → List ℕ
unfolding ip_tag padded
to_be_bytes p = ip_tag p.ip ∷ padded p.ip ++ to_be 16 (as_millis p.ping_rtt)

-- `Ipv4Addr::new(ip_bytes[0], ip_bytes[1], ip_bytes[2], ip_bytes[3])`
unfoldable pub v4_of {ℓ} : {E : Type ℓ} → List ℕ → Outcome E IpAddr
v4_of (a ∷ b ∷ c ∷ d ∷ bs) = ok (v4 a b c d)
v4_of _ = panic

unfoldable pub read_ip : ℕ → List ℕ → Outcome FrameError IpAddr
unfolding v4_of
read_ip ip_type ip_bytes =
    if ip_type == 0
    then v4_of ip_bytes
    else if ip_type == 1
    then ok (v6 ip_bytes)
    else err (other invalid_data)

module _ ⦃b : Bytes⦄ ⦃order : ByteOrder⦄ where
  open b use {remaining}
  open order use {read_u8}

  -- `TryFrom<&mut Cursor<&[u8]>>`, with the cursor that it leaves. The milliseconds are a u128 on the
  -- wire and are cut to a u64.
  unfoldable pub try_from : Cursor → Outcome FrameError (PeerInfo × Cursor)
  try_from value =
      if ltb (remaining value) peer_info_serialize_bytes_len then err incomplete else do
        (ip_type, value1) ← map_err from_io (read_u8 value)
        (ip_bytes, value2) ← map_err from_io (read_exact value1 16)
        ip ← read_ip ip_type ip_bytes
        bytes ← or_panic (slice value2.inner value2.position (value2.position + 16))
        array ← to_array 16 bytes
        let ping_rtt_millis = from_be array
        ok (
          record { peer_id = zero_id; ip = ip; ping_rtt = from_millis (ping_rtt_millis % 2 ^ 64) },
          forward value2 16,
        )

-- What the program's types guarantee of a `PeerInfo`.
pub record IsPeerInfo (p : PeerInfo) : Type 0 where
  pub address : IsIpAddr p.ip
  pub rtt : p.ping_rtt.nanos < 2 ^ 64 * 1_000_000_000

-- What of a `PeerInfo` reaches the other side: not the identifier, and whole milliseconds, in a u64.
unfoldable pub received : PeerInfo → PeerInfo
received p = record {
  peer_id = zero_id;
  ip = p.ip;
  ping_rtt = from_millis (as_millis p.ping_rtt % 2 ^ 64);
}
