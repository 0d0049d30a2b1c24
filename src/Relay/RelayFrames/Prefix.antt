-- ===== src/Relay/RelayFrames/Prefix.antt =====
-- `RelayFrames::parse` asks for more on the beginning of a frame.
use pcopy.Prelude.{ℕ, ◌≡◌, ap, arith, List, [], ◌∷◌, ◌++◌, length, length-append, refl}
use pcopy.Prelude.Outcome.{err}
use pcopy.Rust.Cursor.{Cursor, unread, forward, unread-step}
use pcopy.Crates.Bytes.{Bytes}
use pcopy.Relay.FrameError.{incomplete}
use pcopy.Relay.PeerId
use pcopy.Relay.PeerId.{PeerId, IsPeerId}
use pcopy.Relay.PeerId.Reading.{try_from-short}
use pcopy.Relay.RelayOperations
use pcopy.Relay.RelayFrames.{
  RelayFrames, IsRelayFrame, register, probe, do_connect, ping, probe_ack, parse_body, parse,
  to_be_bytes,
}
use pcopy.Relay.RelayFrames.Reading.{wire, to_be_bytes-wire, parse-cons, parse-nil}

module _ ⦃b : Bytes⦄ (c : Cursor) where
  -- An identifier that is cut off.
  cut_id :
      (v : ℕ) (bs : List ℕ) (p : PeerId) (x : ℕ) (more : List ℕ)
      → unread c ≡ v ∷ bs
      → IsPeerId p
      → p.bytes ≡ bs ++ x ∷ more
      → PeerId.try_from (forward c 1) ≡ err incomplete
  cut_id v bs p x more u valid e =
      try_from-short (forward c 1)
        (rw (unread-step c v bs u) (omega (arith, valid, ap length e, length-append bs (x ∷ more))))

  no_room : (bs : List ℕ) (x : ℕ) (more : List ℕ) → [] ≡ bs ++ x ∷ more → ⊥
  no_room bs x more e = omega (arith, ap length e, length-append bs (x ∷ more))

  parse-prefix :
      (f : RelayFrames) (bs : List ℕ) (x : ℕ) (more : List ℕ)
      → unread c ≡ bs
      → IsRelayFrame f
      → wire f ≡ bs ++ x ∷ more
      → parse c ≡ err incomplete
  unfolding RelayOperations.try_from parse_body
  parse-prefix (register p) [] x more u valid e = parse-nil c u
  parse-prefix (register p) (v ∷ bs) x more u valid e =
      let code : v ≡ 1 = cc in rw (parse-cons c v bs u, code, cut_id v bs p x more u valid (cc))
  parse-prefix (probe p) [] x more u valid e = parse-nil c u
  parse-prefix (probe p) (v ∷ bs) x more u valid e =
      let code : v ≡ 2 = cc in rw (parse-cons c v bs u, code, cut_id v bs p x more u valid (cc))
  parse-prefix (do_connect p) [] x more u valid e = parse-nil c u
  parse-prefix (do_connect p) (v ∷ bs) x more u valid e =
      let code : v ≡ 3 = cc in rw (parse-cons c v bs u, code, cut_id v bs p x more u valid (cc))
  parse-prefix ping [] x more u valid e = parse-nil c u
  parse-prefix ping (v ∷ bs) x more u valid e = absurd (no_room bs x more (cc))
  parse-prefix probe_ack [] x more u valid e = parse-nil c u
  parse-prefix probe_ack (v ∷ bs) x more u valid e = absurd (no_room bs x more (cc))

  -- On every proper prefix of a frame's bytes `parse` answers `Incomplete`, never another error and
  -- never a frame; the identifier in the frame has 64 bytes.
  pub parse_incomplete :
      (f : RelayFrames) (x : ℕ) (more : List ℕ)
      → IsRelayFrame f
      → to_be_bytes f ≡ unread c ++ x ∷ more
      → parse c ≡ err incomplete
  parse_incomplete f x more valid e =
      parse-prefix f (unread c) x more refl valid (rw (to_be_bytes-wire f) at e)
