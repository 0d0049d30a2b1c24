-- ===== src/Prelude/Outcome.antt =====
-- What a call of the program can do: return, return an error, or panic. A loop on fuel can also be
-- `stuck`, which is no behaviour of the program: its fuel ran out.
use Prim.Native.Nat.{ℕ}
use mathlib.Core.Path.{◌≡◌, refl}
use mathlib.Core.Option.{Option, none, some}
use mathlib.Core.List.{List}
use pcopy.Prelude.Tests.{◌==◌, if◌then◌else◌}
use pcopy.Prelude.Lists.{length}

pub data Outcome {ℓ κ} (E : Type ℓ) (A : Type κ) : Type (ℓ ⊔ κ) where
  ok : A → Outcome E A
  err : E → Outcome E A
  panic : Outcome E A
  stuck : Outcome E A

infixl 5 ◌>>=◌
abbrev pub ◌>>=◌ {ℓ κ ι} :
    {E : Type ℓ} {A : Type κ} {B : Type ι} → Outcome E A → (A → Outcome E B) → Outcome E B
ok a >>= f = f a
err e >>= f = err e
panic >>= f = panic
stuck >>= f = stuck

-- `unwrap`, an index and a slice in range: a missing value is a panic.
abbrev pub or_panic {ℓ κ} : {E : Type ℓ} {A : Type κ} → Option A → Outcome E A
or_panic none = panic
or_panic (some a) = ok a

-- `map_err`, and the conversion that `?` makes.
abbrev pub map_err {ℓ κ ι} :
    {E : Type ℓ} {F : Type κ} {A : Type ι} → (E → F) → Outcome E A → Outcome F A
map_err f (ok a) = ok a
map_err f (err e) = err (f e)
map_err f panic = panic
map_err f stuck = stuck

-- `.unwrap()` and `.expect(..)` on a `Result`: an error is a panic.
abbrev pub unwrap {ℓ κ ι} : {E : Type ℓ} {F : Type κ} {A : Type ι} → Outcome E A → Outcome F A
unwrap (ok a) = ok a
unwrap (err e) = panic
unwrap panic = panic
unwrap stuck = stuck

-- `.unwrap_err()`: a value is a panic.
abbrev pub unwrap_err {ℓ κ ι} : {E : Type ℓ} {F : Type κ} {A : Type ι} → Outcome E A → Outcome F E
unwrap_err (ok a) = panic
unwrap_err (err e) = ok e
unwrap_err panic = panic
unwrap_err stuck = stuck

-- A call that comes back to its caller, with a value or with an error.
abbrev pub Returns {ℓ κ} : {E : Type ℓ} {A : Type κ} → Outcome E A → Type 0
Returns (ok a) = Unit
Returns (err e) = Unit
Returns panic = ⊥
Returns stuck = ⊥

-- A call whose fuel was enough.
abbrev pub Ends {ℓ κ} : {E : Type ℓ} {A : Type κ} → Outcome E A → Type 0
Ends stuck = ⊥
Ends _ = Unit

pub unwrap-Ends {ℓ κ ι} :
    {E : Type ℓ} (F : Type κ) {A : Type ι} (m : Outcome E A) → Ends m → Ends (unwrap {F = F} m)
unwrap-Ends F (ok a) h = tt
unwrap-Ends F (err e) h = tt
unwrap-Ends F panic h = tt
unwrap-Ends F stuck h = h

-- `try_into().unwrap()` of a slice into an array of `n` elements.
abbrev pub to_array {ℓ κ} : {E : Type ℓ} {A : Type κ} → ℕ → List A → Outcome E (List A)
to_array n xs = if length xs == n then ok xs else panic

pub bind_assoc {ℓ κ ι υ} :
    {E : Type ℓ} {A : Type κ} {B : Type ι} {C : Type υ} (m : Outcome E A) (f : A → Outcome E B)
    (g : B → Outcome E C)
    → (m >>= f >>= g) ≡ (m >>= λ a. f a >>= g)
bind_assoc (ok a) f g = refl
bind_assoc (err e) f g = refl
bind_assoc panic f g = refl
bind_assoc stuck f g = refl

pub bind-Returns {ℓ κ ι} :
    {E : Type ℓ} {A : Type κ} {B : Type ι} (m : Outcome E A) (f : A → Outcome E B)
    → Returns m
    → ((a : A) → Returns (f a))
    → Returns (m >>= f)
bind-Returns (ok a) f h k = k a
bind-Returns (err e) f h k = tt
bind-Returns panic f h k = h
bind-Returns stuck f h k = h

pub map_err-Returns {ℓ κ ι} :
    {E : Type ℓ} {F : Type κ} {A : Type ι} (g : E → F) (m : Outcome E A)
    → Returns m
    → Returns (map_err g m)
map_err-Returns g (ok a) h = tt
map_err-Returns g (err e) h = tt
map_err-Returns g panic h = h
map_err-Returns g stuck h = h
