-- ===== src/Relay/PeerFrames/Total.antt =====
-- `PeerFrames::parse` never panics.
use native.Mathlib.Decide.{dec_le}
use pcopy.Prelude.{
  ℕ, ◌≤◌, ◌≡◌, refl, arith, List, [], ◌∷◌, length, ltb_of_le, inl, inr, Bool-cases, ◌==◌, ==_iff,
}
use pcopy.Prelude.Outcome.{Returns, bind-Returns, map_err-Returns}
use pcopy.Rust.Cursor.{Cursor, unread, forward}
use pcopy.Crates.Bytes.{Bytes}
use pcopy.Crates.ByteOrder.{ByteOrder}
use pcopy.Relay.FrameError.{from_io}
use pcopy.Relay.PeerInfo.Reading.{try_from-Returns}
use pcopy.Relay.StatusCodes
use pcopy.Relay.StatusCodes.{StatusCodes, success, failure}
use pcopy.Relay.HealthStatus
use pcopy.Relay.PeerOperations
use pcopy.Relay.PeerOperations.{PeerOperations}
use pcopy.Relay.PeerFrames.{next_byte, parse_command, parse_probe, parse_body, parse}
use pcopy.Relay.PeerFrames.Reading.{
  parse-cons, parse-nil, next_byte-nil, next_byte-cons, parse_command-short,
}

module _ ⦃b : Bytes⦄ where
  next_byte-Returns : (c : Cursor) (bs : List ℕ) → unread c ≡ bs → Returns (next_byte c)
  next_byte-Returns c [] e = rw (next_byte-nil c e) tt
  next_byte-Returns c (v ∷ bs) e = rw (next_byte-cons c v bs e) tt

  address-Returns :
      (c : Cursor) (bs : List ℕ) → unread c ≡ bs → 4 ≤ length bs → Returns (parse_command 101 c)
  unfolding parse_command
  address-Returns c (w ∷ x ∷ y ∷ z ∷ bs) e h =
      rw
        (
          b.remaining_lem c,
          e,
          ltb_of_le (length (w ∷ x ∷ y ∷ z ∷ bs)) 4 (omega arith),
          b.get_u32_lem c w x y z bs e,
        )
        tt
  address-Returns c _ e h = absurd (omega arith)

  doconnect-Returns : (c : Cursor) → Returns (parse_command 101 c)
  doconnect-Returns c = elim (dec_le 4 (length (unread c))) [
    | yes h ↦ address-Returns c (unread c) refl h
    | no h ↦ rw (parse_command-short c (omega arith)) tt
  ]

  parse_command-Returns : (code : ℕ) (c : Cursor) → Returns (parse_command code c)
  parse_command-Returns code c = elim (Bool-cases (code == 101)) [
    | inl is ↦ rw ((==_iff code 101).0 is) (doconnect-Returns c)
    | inr other ↦ elim (Bool-cases (code == 100)) [
      | inl is ↦ unfold parse_command in rw is tt
      | inr unknown ↦ unfold parse_command in rw (unknown, other) tt
    ]
  ]

module _ ⦃b : Bytes⦄ ⦃order : ByteOrder⦄ where
  parse_probe-Returns : (status : StatusCodes) (c : Cursor) → Returns (parse_probe status c)
  unfolding parse_probe
  parse_probe-Returns failure c = tt
  parse_probe-Returns success c = bind-Returns _ _ (try_from-Returns c) (λ p. tt)

  parse_body-Returns : (op : PeerOperations) (c : Cursor) → Returns (parse_body op c)
  unfolding parse_body
  parse_body-Returns PeerOperations.register_result c =
      bind-Returns _ _ (next_byte-Returns c (unread c) refl)
        λ v. bind-Returns _ _ (StatusCodes.try_from-Returns v.0) (λ s. tt)
  parse_body-Returns PeerOperations.probe_result c =
      bind-Returns _ _ (next_byte-Returns c (unread c) refl)
        λ v. bind-Returns _ _ (StatusCodes.try_from-Returns v.0) (λ s. parse_probe-Returns s v.1)
  parse_body-Returns PeerOperations.do_connect_result c =
      bind-Returns _ _ (next_byte-Returns c (unread c) refl)
        λ v. bind-Returns _ _ (StatusCodes.try_from-Returns v.0) (λ s. tt)
  parse_body-Returns PeerOperations.ping_result c =
      bind-Returns _ _ (next_byte-Returns c (unread c) refl) λ v.
        bind-Returns _ _
          (map_err-Returns from_io (HealthStatus.try_from v.0) (HealthStatus.try_from-Returns v.0))
          (λ s. tt)
  parse_body-Returns PeerOperations.commands c =
      bind-Returns _ _ (next_byte-Returns c (unread c) refl) λ v. parse_command-Returns v.0 v.1

  peer_parse-Returns_at : (c : Cursor) (bs : List ℕ) → unread c ≡ bs → Returns (parse c)
  peer_parse-Returns_at c [] e = rw (parse-nil c e) tt
  peer_parse-Returns_at c (v ∷ bs) e = rw (parse-cons c v bs e) (
      bind-Returns _ _ (PeerOperations.try_from-Returns v)
        λ op. parse_body-Returns op (forward c 1))

  -- `parse` comes back with a frame or an error, whatever the bytes and wherever the cursor stands.
  pub peer_parse-Returns : (c : Cursor) → Returns (parse c)
  peer_parse-Returns c = peer_parse-Returns_at c (unread c) refl
