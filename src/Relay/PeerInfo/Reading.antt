-- ===== src/Relay/PeerInfo/Reading.antt =====
-- What `PeerInfo::try_from` reads, on each branch.
use pcopy.Prelude.{
  ℕ, refl, ◌%◌, ◌≤◌, ◌<◌, ◌≡◌, ◌^◌, ◌∷◌, ◌++◌, List, arith, length, take, drop, length-take,
  length-drop, length-append, ltb_of_le, ltb_of_lt, ==_of_eq, take-append, drop-append,
  append_assoc, [],
}
use pcopy.Prelude.BigEndian.{from_be, to_be, length-to_be, from_be-to_be}
use pcopy.Prelude.Outcome.{ok, err, ◌>>=◌, Returns, bind-Returns}
use pcopy.Rust.Cursor.{
  Cursor, unread, forward, read_exact, slice-unread, unread-forward, forward-forward,
}
use pcopy.Rust.IpAddr.{v4, v6, IsIpAddr, IpAddr}
use pcopy.Rust.Duration.{from_millis, as_millis}
use pcopy.Crates.Bytes.{Bytes}
use pcopy.Crates.ByteOrder.{ByteOrder}
use pcopy.Relay.FrameError.{incomplete}
use pcopy.Relay.PeerInfo.{
  PeerInfo, IsPeerInfo, zero_id, read_ip, try_from, to_be_bytes, padded, ip_tag, received, v4_of,
}
use native.Mathlib.Decide.{dec_le}

module _ ⦃b : Bytes⦄ ⦃order : ByteOrder⦄ (c : Cursor) where
  pub try_from-short : length (unread c) < 33 → try_from c ≡ err incomplete
  unfolding try_from
  try_from-short h = rw (b.remaining_lem c, ltb_of_lt (length (unread c)) 33 h)

  pub try_from-full :
      (t : ℕ) (bs : List ℕ)
      → unread c ≡ t ∷ bs
      → 32 ≤ length bs
      → try_from c ≡ (
          read_ip t (take 16 bs) >>= λ ip. ok (
            record {
              peer_id = zero_id;
              ip = ip;
              ping_rtt = from_millis (from_be (take 16 (drop 16 bs)) % 2 ^ 64);
            },
            forward c 33,
          ))
  unfolding try_from read_exact
  try_from-full t bs e h =
      let rest : unread (forward c 1) ≡ bs = rw (unread-forward, e) in
      let rest' : unread (forward c 17) ≡ drop 16 bs = rw (unread-forward, e) in
      let left : 16 ≤ length (drop 16 bs) = omega (arith, length-drop 16 bs) in
      let size : length (take 16 (drop 16 bs)) ≡ 16 = omega (arith, length-take 16 (drop 16 bs)) in
      rw (
        b.remaining_lem c,
        e,
        ltb_of_le (length (t ∷ bs)) 33 (omega arith),
        order.read_u8_lem c t bs e,
        rest,
        ltb_of_le (length bs) 16 (omega arith),
        forward-forward c 1 16,
        slice-unread (forward c 17) 16 (omega arith) (rw rest' left),
        rest',
        ==_of_eq (length (take 16 (drop 16 bs))) 16 size,
        forward-forward c 17 16,
      )

length-padded : (a : IpAddr) → IsIpAddr a → length (padded a) ≡ 16
unfolding padded
length-padded (v4 w x y z) h = refl
length-padded (v6 bs) h = h

read_ip-padded : (a : IpAddr) → read_ip (ip_tag a) (padded a) ≡ ok a
unfolding read_ip ip_tag padded
read_ip-padded (v4 w x y z) = refl
read_ip-padded (v6 bs) = refl

millis_fit : (p : PeerInfo) → IsPeerInfo p → as_millis p.ping_rtt < 256 ^ 16
unfolding as_millis
millis_fit p v = omega (arith, v.rtt)

pub length-to_be_bytes : (p : PeerInfo) → IsPeerInfo p → length (to_be_bytes p) ≡ 33
unfolding to_be_bytes
length-to_be_bytes p v = omega (
  arith,
  length-append (padded p.ip) (to_be 16 (as_millis p.ping_rtt)),
  length-padded p.ip v.address,
  length-to_be 16 (as_millis p.ping_rtt),
)

-- A written `PeerInfo` is read back as what of it is sent, and the cursor steps over its 33 bytes.
pub try_from-to_be_bytes :
    ⦃b : Bytes⦄ ⦃order : ByteOrder⦄ (c : Cursor) (p : PeerInfo) (rest : List ℕ)
    → IsPeerInfo p
    → unread c ≡ to_be_bytes p ++ rest
    → try_from c ≡ ok (received p, forward c 33)
unfolding to_be_bytes received
try_from-to_be_bytes c p rest v e =
    let millis : List ℕ = to_be 16 (as_millis p.ping_rtt) in
    let front : length (padded p.ip) ≡ 16 = length-padded p.ip v.address in
    let back : length millis ≡ 16 = length-to_be 16 (as_millis p.ping_rtt) in
    let tail : padded p.ip ++ millis ++ rest ≡ padded p.ip ++ (millis ++ rest) =
      append_assoc (padded p.ip) millis rest in
    let room : 32 ≤ length (padded p.ip ++ millis ++ rest) =
      omega
        (arith, length-append (padded p.ip ++ millis) rest, length-append (padded p.ip) millis) in
    rw (
      try_from-full c (ip_tag p.ip) (padded p.ip ++ millis ++ rest) e room,
      tail,
      take-append 16 (padded p.ip) (millis ++ rest) front,
      drop-append 16 (padded p.ip) (millis ++ rest) front,
      take-append 16 millis rest back,
      read_ip-padded p.ip,
      from_be-to_be 16 (as_millis p.ping_rtt) (millis_fit p v),
    )

read_ip-Returns : (t : ℕ) (bs : List ℕ) → length bs ≡ 16 → Returns (read_ip t bs)
unfolding read_ip v4_of
read_ip-Returns t (w ∷ x ∷ y ∷ z ∷ bs) h = ground arith
read_ip-Returns t _ h = absurd (omega arith)

try_from-Returns_at :
    ⦃b : Bytes⦄ ⦃order : ByteOrder⦄ (c : Cursor) (bs : List ℕ)
    → unread c ≡ bs
    → 33 ≤ length bs
    → Returns (try_from c)
try_from-Returns_at c [] e h = absurd (omega arith)
try_from-Returns_at c (t ∷ bs) e h = rw (try_from-full c t bs e (omega arith)) (
    bind-Returns (read_ip t (take 16 bs)) _
      (read_ip-Returns t (take 16 bs) (omega (arith, length-take 16 bs))) (λ ip. tt))

pub try_from-Returns : ⦃b : Bytes⦄ ⦃order : ByteOrder⦄ (c : Cursor) → Returns (try_from c)
try_from-Returns c = elim (dec_le 33 (length (unread c))) [
  | yes h ↦ try_from-Returns_at c (unread c) refl h
  | no h ↦ rw (try_from-short c (omega arith)) tt
]
