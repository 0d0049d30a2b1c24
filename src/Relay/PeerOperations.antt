-- ===== src/Relay/PeerOperations.antt =====
-- relay/frame.rs: `PeerOperations`, the first byte of a frame that the relay sends to a peer.
use pcopy.Prelude.{ℕ, ◌≡◌, ◌==◌, ◌⊎◌, inl, inr, Bool-cases, if◌then◌else◌, refl, arith}
use pcopy.Prelude.Outcome.{Outcome, ok, err, Returns}
use pcopy.Rust.IoError.{invalid_input}
use pcopy.Relay.FrameError.{FrameError, other}

pub data PeerOperations : Type 0 where
  register_result probe_result do_connect_result ping_result commands : PeerOperations

unfoldable pub to_u8 : PeerOperations → ℕ
to_u8 register_result = 21
to_u8 probe_result = 22
to_u8 do_connect_result = 23
to_u8 ping_result = 24
to_u8 commands = 25

-- `TryFrom<u8>`
unfoldable pub try_from : ℕ → Outcome FrameError PeerOperations
try_from value =
    if value == 21
    then ok register_result
    else if value == 22
    then ok probe_result
    else if value == 23
    then ok do_connect_result
    else if value == 24
    then ok ping_result
    else if value == 25
    then ok commands
    else err (other invalid_input)

pub try_from-to_u8 : (op : PeerOperations) → try_from (to_u8 op) ≡ ok op
unfolding try_from to_u8
try_from-to_u8 register_result = refl
try_from-to_u8 probe_result = refl
try_from-to_u8 do_connect_result = refl
try_from-to_u8 ping_result = refl
try_from-to_u8 commands = refl

-- A byte that is read as a value is the code of that value.
pub try_from-eq-ok : (value : ℕ) (op : PeerOperations) → try_from value ≡ ok op → value ≡ to_u8 op
unfolding try_from to_u8
try_from-eq-ok value register_result h = ground arith
try_from-eq-ok value probe_result h = ground arith
try_from-eq-ok value do_connect_result h = ground arith
try_from-eq-ok value ping_result h = ground arith
try_from-eq-ok value commands h = ground arith

-- Every other byte is an error.
pub try_from_cases :
    (value : ℕ)
    → ((op : PeerOperations) × (try_from value ≡ ok op))
      ⊎ (try_from value ≡ err (other invalid_input))
unfolding try_from
try_from_cases value = elim (Bool-cases (value == 21)) [
  | inl e ↦ inl (register_result, rw (e))
  | inr e0 ↦ elim (Bool-cases (value == 22)) [
    | inl e ↦ inl (probe_result, rw (e0, e))
    | inr e1 ↦ elim (Bool-cases (value == 23)) [
      | inl e ↦ inl (do_connect_result, rw (e0, e1, e))
      | inr e2 ↦ elim (Bool-cases (value == 24)) [
        | inl e ↦ inl (ping_result, rw (e0, e1, e2, e))
        | inr e3 ↦ elim (Bool-cases (value == 25)) [
          | inl e ↦ inl (commands, rw (e0, e1, e2, e3, e))
          | inr e4 ↦ inr (rw (e0, e1, e2, e3, e4))
        ]
      ]
    ]
  ]
]

pub try_from-Returns : (value : ℕ) → Returns (try_from value)
try_from-Returns value = elim (try_from_cases value) [
  | inl (op, known) ↦ rw known tt
  | inr unknown ↦ rw unknown tt
]
