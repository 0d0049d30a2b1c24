-- ===== src/Relay/HealthStatus.antt =====
-- relay/relay.rs: `HealthStatus`.
use pcopy.Prelude.{ℕ, ◌≡◌, ◌==◌, ◌⊎◌, inl, inr, Bool-cases, if◌then◌else◌, refl, arith}
use pcopy.Prelude.Outcome.{Outcome, ok, err, Returns}
use pcopy.Rust.IoError.{IoError, invalid_input}

pub data HealthStatus : Type 0 where
  healthy unhealthy : HealthStatus

-- `health_status as u8`
unfoldable pub to_u8 : HealthStatus → ℕ
to_u8 healthy = 1
to_u8 unhealthy = 2

-- `TryFrom<u8>`
unfoldable pub try_from : ℕ → Outcome IoError HealthStatus
try_from value =
    if value == 1 then ok healthy else if value == 2 then ok unhealthy else err invalid_input

pub try_from-to_u8 : (op : HealthStatus) → try_from (to_u8 op) ≡ ok op
unfolding try_from to_u8
try_from-to_u8 healthy = refl
try_from-to_u8 unhealthy = refl

-- A byte that is read as a value is the code of that value.
pub try_from-eq-ok : (value : ℕ) (op : HealthStatus) → try_from value ≡ ok op → value ≡ to_u8 op
unfolding try_from to_u8
try_from-eq-ok value healthy h = ground arith
try_from-eq-ok value unhealthy h = ground arith

-- Every other byte is an error.
pub try_from_cases :
    (value : ℕ)
    → ((op : HealthStatus) × (try_from value ≡ ok op)) ⊎ (try_from value ≡ err invalid_input)
unfolding try_from
try_from_cases value = elim (Bool-cases (value == 1)) [
  | inl e ↦ inl (healthy, rw (e))
  | inr e0 ↦ elim (Bool-cases (value == 2)) [
    | inl e ↦ inl (unhealthy, rw (e0, e))
    | inr e1 ↦ inr (rw (e0, e1))
  ]
]

pub try_from-Returns : (value : ℕ) → Returns (try_from value)
try_from-Returns value = elim (try_from_cases value) [
  | inl (op, known) ↦ rw known tt
  | inr unknown ↦ rw unknown tt
]
