-- ===== src/Relay/RelayFrames/Reading.antt =====
-- `RelayFrames::parse` and `to_be_bytes`, with the crate's calls replaced by what they do.
use pcopy.Prelude.{ℕ, ◌≡◌, arith, List, [], ◌∷◌, length, ltb_of_lt}
use pcopy.Prelude.Outcome.{err, ◌>>=◌, bind_assoc}
use pcopy.Rust.Cursor.{Cursor, unread, forward}
use pcopy.Crates.Bytes.{Bytes}
use pcopy.Relay.FrameError.{incomplete}
use pcopy.Relay.PeerId
use pcopy.Relay.PeerId.{PeerId}
use pcopy.Relay.RelayOperations
use pcopy.Relay.RelayOperations.{RelayOperations}
use pcopy.Relay.RelayFrames.{
  RelayFrames, register, probe, do_connect, ping, probe_ack, read_operation, parse_body, parse,
  to_be_bytes,
}

-- The bytes of a frame.
abbrev pub wire : RelayFrames → List ℕ
wire (register p) = 1 ∷ p.bytes
wire (probe p) = 2 ∷ p.bytes
wire (do_connect p) = 3 ∷ p.bytes
wire ping = 4 ∷ []
wire probe_ack = 5 ∷ []

module _ ⦃b : Bytes⦄ where
  pub to_be_bytes-wire : (f : RelayFrames) → to_be_bytes f ≡ wire f
  unfolding to_be_bytes PeerId.as_bytes RelayOperations.to_u8
  to_be_bytes-wire (register p) = rw (b.extend_from_slice_lem, b.put_u8_lem)
  to_be_bytes-wire (probe p) = rw (b.extend_from_slice_lem, b.put_u8_lem)
  to_be_bytes-wire (do_connect p) = rw (b.extend_from_slice_lem, b.put_u8_lem)
  to_be_bytes-wire ping = rw b.put_u8_lem
  to_be_bytes-wire probe_ack = rw b.put_u8_lem

  module _ (c : Cursor) where
    pub parse-nil : unread c ≡ [] → parse c ≡ err incomplete
    unfolding parse read_operation
    parse-nil e = rw (b.has_remaining_lem c, e)

    pub parse-cons :
        (v : ℕ) (bs : List ℕ)
        → unread c ≡ v ∷ bs
        → parse c ≡ (RelayOperations.try_from v >>= λ op. parse_body op (forward c 1))
    unfolding parse read_operation
    parse-cons v bs e =
        rw
          (
            b.has_remaining_lem c,
            e,
            ltb_of_lt 0 (length (v ∷ bs)) (omega arith),
            b.get_u8_lem c v bs e,
          )
          (bind_assoc (RelayOperations.try_from v) _ _)
