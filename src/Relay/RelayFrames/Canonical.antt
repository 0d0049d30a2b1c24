-- ===== src/Relay/RelayFrames/Canonical.antt =====
-- `RelayFrames::parse` accepts nothing but what `to_be_bytes` writes, and never panics.
use pcopy.Prelude.{
  ℕ, suc, ◌∷◌, ◌≡◌, List, [], ◌++◌, length, take, length-take, take-append-drop, arith, inl, inr,
  ◌≤◌, ◌∙◌, refl,
}
use pcopy.Prelude.Outcome.{Outcome, ok, Returns}
use pcopy.Rust.Cursor.{Cursor, unread, forward, unread-forward, unread-step, forward-forward}
use pcopy.Crates.Bytes.{Bytes}
use pcopy.Relay.FrameError.{FrameError}
use pcopy.Relay.PeerId.{PeerId}
use pcopy.Relay.PeerId.Reading.{try_from_cases}
use pcopy.Relay.RelayOperations
use pcopy.Relay.RelayOperations.{RelayOperations}
use pcopy.Relay.RelayFrames.{RelayFrames, IsRelayFrame, parse_body, parse, to_be_bytes}
use pcopy.Relay.RelayFrames.Reading.{wire, to_be_bytes-wire, parse-cons, parse-nil}

-- `c'` is where the cursor stands after the bytes of `f`.
abbrev Reads : Cursor → RelayFrames → Cursor → Type 0
Reads c f c' =
    IsRelayFrame f × (unread c ≡ wire f ++ unread c') × (c' ≡ forward c (length (wire f)))

abbrev took : Cursor → PeerId
took c = record { bytes = take 64 (unread c) }

module _ (c : Cursor) where
  Reads-eq :
      {f g : RelayFrames} {c1 c2 : Cursor}
      → ◌≡◌ {A = Outcome FrameError (RelayFrames × Cursor)} (ok (f, c1)) (ok (g, c2))
      → Reads c f c1
      → Reads c g c2
  Reads-eq {f} {g} {c1} {c2} h r = let eg : g ≡ f = cc in let ec : c2 ≡ c1 = cc in rw (eg, ec) r

module _ (c : Cursor) (v : ℕ) (e : unread c ≡ v ∷ unread (forward c 1)) where
  took-split :
      64 ≤ length (unread (forward c 1))
      → (length (took (forward c 1)).bytes ≡ 64)
        × (unread c ≡ v ∷ (took (forward c 1)).bytes ++ unread (forward (forward c 1) 64))
        × (forward (forward c 1) 64 ≡ forward c (suc (length (took (forward c 1)).bytes)))
  took-split h =
      let size : length (take 64 (unread (forward c 1))) ≡ 64 =
        omega (arith, length-take 64 (unread (forward c 1))) in
      (
        size,
        e ∙ rw (unread-forward (forward c 1) 64, take-append-drop 64 (unread (forward c 1))),
        rw size (forward-forward c 1 64),
      )

module _ ⦃b : Bytes⦄ (c : Cursor) where
  parse_body-Reads :
      (op : RelayOperations) (f : RelayFrames) (c' : Cursor)
      → unread c ≡ RelayOperations.to_u8 op ∷ unread (forward c 1)
      → parse_body op (forward c 1) ≡ ok (f, c')
      → Reads c f c'
  unfolding parse_body RelayOperations.to_u8
  parse_body-Reads RelayOperations.register f c' e h = elim (try_from_cases (forward c 1)) [
    | inl short ↦ ground (arith, short)
    | inr (room, full) ↦ Reads-eq c (rw full at h) (took-split c 1 e room)
  ]
  parse_body-Reads RelayOperations.probe f c' e h = elim (try_from_cases (forward c 1)) [
    | inl short ↦ ground (arith, short)
    | inr (room, full) ↦ Reads-eq c (rw full at h) (took-split c 2 e room)
  ]
  parse_body-Reads RelayOperations.do_connect f c' e h = elim (try_from_cases (forward c 1)) [
    | inl short ↦ ground (arith, short)
    | inr (room, full) ↦ Reads-eq c (rw full at h) (took-split c 3 e room)
  ]
  parse_body-Reads RelayOperations.ping f c' e h = Reads-eq c h (tt, e, refl)
  parse_body-Reads RelayOperations.probe_ack f c' e h = Reads-eq c h (tt, e, refl)

  parse-Reads :
      (bs : List ℕ) (f : RelayFrames) (c' : Cursor)
      → unread c ≡ bs
      → parse c ≡ ok (f, c')
      → Reads c f c'
  parse-Reads [] f c' e h = cc (h, parse-nil c e)
  parse-Reads (v ∷ bs) f c' e h = elim (RelayOperations.try_from_cases v) [
    | inl (op, known) ↦
        parse_body-Reads op f c'
          (rw (unread-step c v bs e, ← RelayOperations.try_from-eq-ok v op known) e)
          (rw (parse-cons c v bs e, known) at h)
    | inr unknown ↦ cc (rw (parse-cons c v bs e, unknown) at h)
  ]

  -- What `parse` accepts is what `to_be_bytes` writes for the frame that it returns: the unread bytes
  -- are those of the frame and then what the cursor still has, the identifier in the frame has 64
  -- bytes, and the cursor has stepped over the frame's bytes.
  pub parse_canonical :
      (f : RelayFrames) (c' : Cursor)
      → parse c ≡ ok (f, c')
      → IsRelayFrame f
        × (unread c ≡ to_be_bytes f ++ unread c')
        × (c' ≡ forward c (length (to_be_bytes f)))
  parse_canonical f c' h = rw (to_be_bytes-wire f) (parse-Reads (unread c) f c' refl h)

  parse_body-Returns : (op : RelayOperations) (d : Cursor) → Returns (parse_body op d)
  unfolding parse_body
  parse_body-Returns RelayOperations.register d = elim (try_from_cases d) [
    | inl short ↦ rw short tt
    | inr (room, full) ↦ rw full tt
  ]
  parse_body-Returns RelayOperations.probe d = elim (try_from_cases d) [
    | inl short ↦ rw short tt
    | inr (room, full) ↦ rw full tt
  ]
  parse_body-Returns RelayOperations.do_connect d = elim (try_from_cases d) [
    | inl short ↦ rw short tt
    | inr (room, full) ↦ rw full tt
  ]
  parse_body-Returns RelayOperations.ping d = tt
  parse_body-Returns RelayOperations.probe_ack d = tt

  parse-Returns_at : (bs : List ℕ) → unread c ≡ bs → Returns (parse c)
  parse-Returns_at [] e = rw (parse-nil c e) tt
  parse-Returns_at (v ∷ bs) e = elim (RelayOperations.try_from_cases v) [
    | inl (op, known) ↦ rw (parse-cons c v bs e, known) (parse_body-Returns op (forward c 1))
    | inr unknown ↦ rw (parse-cons c v bs e, unknown) tt
  ]

  -- `parse` comes back with a frame or an error, whatever the bytes and wherever the cursor stands.
  pub parse-Returns : Returns (parse c)
  parse-Returns = parse-Returns_at (unread c) refl
