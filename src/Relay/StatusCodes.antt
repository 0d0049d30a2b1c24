-- ===== src/Relay/StatusCodes.antt =====
-- relay/frame.rs: `StatusCodes`.
use pcopy.Prelude.{ℕ, ◌≡◌, ◌==◌, ◌⊎◌, inl, inr, Bool-cases, if◌then◌else◌, refl, arith}
use pcopy.Prelude.Outcome.{Outcome, ok, err, Returns}
use pcopy.Rust.IoError.{invalid_input}
use pcopy.Relay.FrameError.{FrameError, other}

pub data StatusCodes : Type 0 where
  success failure : StatusCodes

-- `into_u8`, by the discriminants
unfoldable pub into_u8 : StatusCodes → ℕ
into_u8 success = 200
into_u8 failure = 111

-- `TryFrom<u8>`
unfoldable pub try_from : ℕ → Outcome FrameError StatusCodes
try_from value =
    if value == 200
    then ok success
    else if value == 111
    then ok failure
    else err (other invalid_input)

pub try_from-into_u8 : (op : StatusCodes) → try_from (into_u8 op) ≡ ok op
unfolding try_from into_u8
try_from-into_u8 success = refl
try_from-into_u8 failure = refl

-- A byte that is read as a value is the code of that value.
pub try_from-eq-ok : (value : ℕ) (op : StatusCodes) → try_from value ≡ ok op → value ≡ into_u8 op
unfolding try_from into_u8
try_from-eq-ok value success h = ground arith
try_from-eq-ok value failure h = ground arith

-- Every other byte is an error.
pub try_from_cases :
    (value : ℕ)
    → ((op : StatusCodes) × (try_from value ≡ ok op)) ⊎ (try_from value ≡ err (other invalid_input))
unfolding try_from
try_from_cases value = elim (Bool-cases (value == 200)) [
  | inl e ↦ inl (success, rw (e))
  | inr e0 ↦ elim (Bool-cases (value == 111)) [
    | inl e ↦ inl (failure, rw (e0, e))
    | inr e1 ↦ inr (rw (e0, e1))
  ]
]

pub try_from-Returns : (value : ℕ) → Returns (try_from value)
try_from-Returns value = elim (try_from_cases value) [
  | inl (op, known) ↦ rw known tt
  | inr unknown ↦ rw unknown tt
]
