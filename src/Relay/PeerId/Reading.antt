-- ===== src/Relay/PeerId/Reading.antt =====
-- What `PeerId::try_from` reads, on each branch.
use native.Mathlib.Decide.{dec_le}
use pcopy.Prelude.{
  ◌⊎◌, inl, inr, ◌≤◌, ◌<◌, ◌≡◌, arith, length, take, length-take, ℕ, List, ◌++◌, length-append,
  take-append, ltb_of_le, ==_of_eq,
}
use pcopy.Prelude.Outcome.{ok, err}
use pcopy.Rust.Cursor.{Cursor, unread, forward, slice-unread}
use pcopy.Crates.Bytes.{Bytes}
use pcopy.Relay.FrameError.{incomplete}
use pcopy.Relay.PeerId.{PeerId, IsPeerId, try_from}

module _ ⦃b : Bytes⦄ (c : Cursor) where
  pub try_from-short : length (unread c) < 64 → try_from c ≡ err incomplete
  unfolding try_from
  try_from-short h = ground (arith, b.remaining_lem c)

  pub try_from-full :
      64 ≤ length (unread c) → try_from c ≡ ok (record { bytes = take 64 (unread c) }, forward c 64)
  unfolding try_from
  try_from-full h =
      let size : length (take 64 (unread c)) ≡ 64 = omega (arith, length-take 64 (unread c)) in
      rw (
        b.remaining_lem c,
        ltb_of_le (length (unread c)) 64 h,
        slice-unread c 64 (omega arith) h,
        ==_of_eq (length (take 64 (unread c))) 64 size,
        size,
        b.advance_lem c 64 h,
      )

  -- An identifier that was written is read back, and the cursor steps over it.
  pub try_from-bytes :
      (p : PeerId) (rest : List ℕ)
      → IsPeerId p
      → unread c ≡ p.bytes ++ rest
      → try_from c ≡ ok (p, forward c 64)
  try_from-bytes p rest v e =
      let room : 64 ≤ length (unread c) = rw e (omega (arith, length-append p.bytes rest)) in
      rw (try_from-full room, e, take-append 64 p.bytes rest v)

  pub try_from_cases :
      (try_from c ≡ err incomplete)
      ⊎ ((64 ≤ length (unread c))
          × (try_from c ≡ ok (record { bytes = take 64 (unread c) }, forward c 64)))
  try_from_cases = elim (dec_le 64 (length (unread c))) [
    | yes h ↦ inr (h, try_from-full h)
    | no h ↦ inl (try_from-short (omega arith))
  ]
