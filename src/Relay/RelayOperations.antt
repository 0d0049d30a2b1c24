-- ===== src/Relay/RelayOperations.antt =====
-- relay/frame.rs: `RelayOperations`, the first byte of a frame that a peer sends to the relay.
use pcopy.Prelude.{ℕ, ◌≡◌, ◌==◌, ◌⊎◌, inl, inr, Bool-cases, if◌then◌else◌, refl, arith}
use pcopy.Prelude.Outcome.{Outcome, ok, err, Returns}
use pcopy.Rust.IoError.{invalid_input}
use pcopy.Relay.FrameError.{FrameError, other}

pub data RelayOperations : Type 0 where
  register probe do_connect ping probe_ack : RelayOperations

unfoldable pub to_u8 : RelayOperations → ℕ
to_u8 register = 1
to_u8 probe = 2
to_u8 do_connect = 3
to_u8 ping = 4
to_u8 probe_ack = 5

-- `TryFrom<u8>`
unfoldable pub try_from : ℕ → Outcome FrameError RelayOperations
try_from value =
    if value == 1
    then ok register
    else if value == 2
    then ok probe
    else if value == 3
    then ok do_connect
    else if value == 4
    then ok ping
    else if value == 5
    then ok probe_ack
    else err (other invalid_input)

pub try_from-to_u8 : (op : RelayOperations) → try_from (to_u8 op) ≡ ok op
unfolding try_from to_u8
try_from-to_u8 register = refl
try_from-to_u8 probe = refl
try_from-to_u8 do_connect = refl
try_from-to_u8 ping = refl
try_from-to_u8 probe_ack = refl

-- A byte that is read as a value is the code of that value.
pub try_from-eq-ok : (value : ℕ) (op : RelayOperations) → try_from value ≡ ok op → value ≡ to_u8 op
unfolding try_from to_u8
try_from-eq-ok value register h = ground arith
try_from-eq-ok value probe h = ground arith
try_from-eq-ok value do_connect h = ground arith
try_from-eq-ok value ping h = ground arith
try_from-eq-ok value probe_ack h = ground arith

-- Every other byte is an error.
pub try_from_cases :
    (value : ℕ)
    → ((op : RelayOperations) × (try_from value ≡ ok op))
      ⊎ (try_from value ≡ err (other invalid_input))
unfolding try_from
try_from_cases value = elim (Bool-cases (value == 1)) [
  | inl e ↦ inl (register, rw (e))
  | inr e0 ↦ elim (Bool-cases (value == 2)) [
    | inl e ↦ inl (probe, rw (e0, e))
    | inr e1 ↦ elim (Bool-cases (value == 3)) [
      | inl e ↦ inl (do_connect, rw (e0, e1, e))
      | inr e2 ↦ elim (Bool-cases (value == 4)) [
        | inl e ↦ inl (ping, rw (e0, e1, e2, e))
        | inr e3 ↦ elim (Bool-cases (value == 5)) [
          | inl e ↦ inl (probe_ack, rw (e0, e1, e2, e3, e))
          | inr e4 ↦ inr (rw (e0, e1, e2, e3, e4))
        ]
      ]
    ]
  ]
]

pub try_from-Returns : (value : ℕ) → Returns (try_from value)
try_from-Returns value = elim (try_from_cases value) [
  | inl (op, known) ↦ rw known tt
  | inr unknown ↦ rw unknown tt
]
