-- ===== src/Relay/PeerFrames/Reading.antt =====
-- `PeerFrames::parse` and `to_be_bytes`, with the crates' calls replaced by what they do.
use pcopy.Prelude.{
  ℕ, ◌+◌, ◌*◌, ◌<◌, ◌≡◌, refl, arith, List, [], ◌∷◌, length, ltb_of_lt, ltb_of_le, none, some,
}
use pcopy.Prelude.Outcome.{ok, err, ◌>>=◌, bind_assoc}
use pcopy.Rust.Cursor.{Cursor, unread, forward}
use pcopy.Rust.IpAddr.{v4, octets}
use pcopy.Crates.Bytes.{Bytes}
use pcopy.Crates.ByteOrder.{ByteOrder}
use pcopy.Relay.FrameError.{incomplete}
use pcopy.Relay.PeerInfo
use pcopy.Relay.StatusCodes
use pcopy.Relay.HealthStatus
use pcopy.Relay.PeerCommands
use pcopy.Relay.PeerCommands.{sync, doconnect}
use pcopy.Relay.PeerOperations
use pcopy.Relay.PeerFrames.{
  PeerFrames, register_result, probe_result, do_connect_result, ping_result, command, v4_of_u32,
  read_operation, next_byte, parse_command, parse_body, parse, to_be_bytes,
}

-- The bytes of a frame.
abbrev pub wire : PeerFrames → List ℕ
wire (register_result s) = 21 ∷ StatusCodes.into_u8 s ∷ []
wire (probe_result none) = 22 ∷ 111 ∷ []
wire (probe_result (some p)) = 22 ∷ 200 ∷ PeerInfo.to_be_bytes p
wire (do_connect_result s) = 23 ∷ StatusCodes.into_u8 s ∷ []
wire (ping_result h) = 24 ∷ HealthStatus.to_u8 h ∷ []
wire (command sync) = 25 ∷ 100 ∷ []
wire (command (doconnect ip)) = 25 ∷ 101 ∷ octets ip

module _ ⦃b : Bytes⦄ where
  pub to_be_bytes-wire : (f : PeerFrames) → to_be_bytes f ≡ wire f
  unfolding to_be_bytes PeerOperations.to_u8 StatusCodes.into_u8 PeerCommands.to_be_bytes
  to_be_bytes-wire (register_result s) = simp b.put_u8_lem
  to_be_bytes-wire (probe_result none) = simp b.put_u8_lem
  to_be_bytes-wire (probe_result (some p)) = simp (b.extend_from_slice_lem, b.put_u8_lem)
  to_be_bytes-wire (do_connect_result s) = simp b.put_u8_lem
  to_be_bytes-wire (ping_result h) = simp b.put_u8_lem
  to_be_bytes-wire (command sync) = simp (b.extend_from_slice_lem, b.put_u8_lem)
  to_be_bytes-wire (command (doconnect ip)) = simp (b.extend_from_slice_lem, b.put_u8_lem)

  module _ (c : Cursor) where
    pub next_byte-nil : unread c ≡ [] → next_byte c ≡ err incomplete
    unfolding next_byte
    next_byte-nil e = rw (b.has_remaining_lem c, e)

    pub next_byte-cons :
        (v : ℕ) (bs : List ℕ) → unread c ≡ v ∷ bs → next_byte c ≡ ok (v, forward c 1)
    unfolding next_byte
    next_byte-cons v bs e = rw (
      b.has_remaining_lem c,
      e,
      ltb_of_lt 0 (length (v ∷ bs)) (omega arith),
      b.get_u8_lem c v bs e,
    )

pub v4_of_u32_lem :
    (w x y z : ℕ)
    → w < 256
    → x < 256
    → y < 256
    → z < 256
    → v4_of_u32 (((w * 256 + x) * 256 + y) * 256 + z) ≡ v4 w x y z
unfolding v4_of_u32
v4_of_u32_lem w x y z hw hx hy hz = ground arith

module _ ⦃b : Bytes⦄ (c : Cursor) where
  pub parse_command-sync : parse_command 100 c ≡ ok (command sync, c)
  unfolding parse_command
  parse_command-sync = refl

  pub parse_command-short : length (unread c) < 4 → parse_command 101 c ≡ err incomplete
  unfolding parse_command
  parse_command-short h = rw (b.remaining_lem c, ltb_of_lt (length (unread c)) 4 h)

  pub parse_command-v4 :
      (w x y z : ℕ) (bs : List ℕ)
      → unread c ≡ w ∷ x ∷ y ∷ z ∷ bs
      → w < 256
      → x < 256
      → y < 256
      → z < 256
      → parse_command 101 c ≡ ok (command (doconnect (v4 w x y z)), forward c 4)
  unfolding parse_command
  parse_command-v4 w x y z bs e hw hx hy hz = rw (
    b.remaining_lem c,
    e,
    ltb_of_le (length (w ∷ x ∷ y ∷ z ∷ bs)) 4 (omega arith),
    b.get_u32_lem c w x y z bs e,
    v4_of_u32_lem w x y z hw hx hy hz,
  )

module _ ⦃b : Bytes⦄ ⦃order : ByteOrder⦄ (c : Cursor) where
  pub parse-nil : unread c ≡ [] → parse c ≡ err incomplete
  unfolding parse read_operation
  parse-nil e = rw (b.has_remaining_lem c, e)

  pub parse-cons :
      (v : ℕ) (bs : List ℕ)
      → unread c ≡ v ∷ bs
      → parse c ≡ (PeerOperations.try_from v >>= λ op. parse_body op (forward c 1))
  unfolding parse read_operation
  parse-cons v bs e =
      rw
        (
          b.has_remaining_lem c,
          e,
          ltb_of_lt 0 (length (v ∷ bs)) (omega arith),
          b.get_u8_lem c v bs e,
        )
        (bind_assoc (PeerOperations.try_from v) _ _)

pub failure_code : StatusCodes.try_from 111 ≡ ok StatusCodes.failure
unfolding StatusCodes.into_u8
failure_code = StatusCodes.try_from-into_u8 StatusCodes.failure

pub success_code : StatusCodes.try_from 200 ≡ ok StatusCodes.success
unfolding StatusCodes.into_u8
success_code = StatusCodes.try_from-into_u8 StatusCodes.success
