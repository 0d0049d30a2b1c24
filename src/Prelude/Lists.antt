-- ===== src/Prelude/Lists.antt =====
-- Lists measured and cut by native numbers, under the library's names.
use Prim.Native.Nat.add
use Prim.Native.Nat.{ℕ, zero, suc, ◌+◌, ◌-◌, ◌≤◌, ◌<◌, min}
use mathlib.Core.Path.{◌≡◌, refl, ap, sym, ap₂}
use mathlib.Core.Bool.{◌&&◌}
use mathlib.Core.Option.{Option, none, some}
use mathlib.Core.List.{List, [], ◌∷◌, ◌++◌}
use native.Mathlib.Omega.{arith}
use pcopy.Prelude.Tests.{leb, if◌then◌else◌, leb_of_le}
use mathlib.Core.Logic.{◌⊎◌, inl, inr}

module _ {ℓ} {A : Type ℓ} where
  abbrev pub length : List A → ℕ
  length [] = 0
  length (x ∷ xs) = suc (length xs)

  abbrev pub take : ℕ → List A → List A
  take zero xs = []
  take (suc n) [] = []
  take (suc n) (x ∷ xs) = x ∷ take n xs

  abbrev pub drop : ℕ → List A → List A
  drop zero xs = xs
  drop (suc n) [] = []
  drop (suc n) (x ∷ xs) = drop n xs

  abbrev pub replicate : ℕ → A → List A
  replicate zero a = []
  replicate (suc n) a = a ∷ replicate n a

  abbrev pub All {κ} : (A → Type κ) → List A → Type κ
  All P [] = Unit {κ}
  All P (x ∷ xs) = P x × All P xs

module _ {ℓ} {A : Type ℓ} where
  pub length-append : (xs ys : List A) → length (xs ++ ys) ≡ length xs + length ys
  length-append [] ys = omega arith
  length-append (x ∷ xs) ys = omega (arith, length-append xs ys)

  pub length-take : (n : ℕ) (xs : List A) → length (take n xs) ≡ min n (length xs)
  length-take zero xs = omega arith
  length-take (suc n) [] = omega arith
  length-take (suc n) (x ∷ xs) = omega (arith, length-take n xs)

  pub length-drop : (n : ℕ) (xs : List A) → length (drop n xs) ≡ length xs - n
  length-drop zero xs = omega arith
  length-drop (suc n) [] = omega arith
  length-drop (suc n) (x ∷ xs) = omega (arith, length-drop n xs)

  pub length-replicate : (n : ℕ) (a : A) → length (replicate n a) ≡ n
  length-replicate zero a = refl
  length-replicate (suc n) a = ap suc (length-replicate n a)

  pub take-append-drop : (n : ℕ) (xs : List A) → take n xs ++ drop n xs ≡ xs
  take-append-drop zero xs = refl
  take-append-drop (suc n) [] = refl
  take-append-drop (suc n) (x ∷ xs) = ap (λ t. x ∷ t) (take-append-drop n xs)

  -- A list that begins with `n` known elements is cut behind them.
  pub take-append : (n : ℕ) (xs ys : List A) → length xs ≡ n → take n (xs ++ ys) ≡ xs
  take-append zero [] ys h = refl
  take-append zero (x ∷ xs) ys h = absurd (omega arith)
  take-append (suc n) [] ys h = absurd (omega arith)
  take-append (suc n) (x ∷ xs) ys h = ap (λ t. x ∷ t) (take-append n xs ys (omega arith))

  pub take_all : (xs : List A) → take (length xs) xs ≡ xs
  take_all [] = refl
  take_all (x ∷ xs) = ap (λ t. x ∷ t) (take_all xs)

  pub drop-append : (n : ℕ) (xs ys : List A) → length xs ≡ n → drop n (xs ++ ys) ≡ ys
  drop-append zero [] ys h = refl
  drop-append zero (x ∷ xs) ys h = absurd (omega arith)
  drop-append (suc n) [] ys h = absurd (omega arith)
  drop-append (suc n) (x ∷ xs) ys h = drop-append n xs ys (omega arith)

  pub drop-drop : (m n : ℕ) (xs : List A) → drop (n + m) xs ≡ drop m (drop n xs)
  drop-drop m zero xs = rw add.zero
  drop-drop zero (suc n) [] = rw add.suc
  drop-drop (suc m) (suc n) [] = rw add.suc
  drop-drop m (suc n) (x ∷ xs) = rw add.suc (drop-drop m n xs)

pub All-append {ℓ κ} :
    {A : Type ℓ} (P : A → Type κ) (xs ys : List A) → All P xs → All P ys → All P (xs ++ ys)
All-append P [] ys h k = k
All-append P (x ∷ xs) ys (px, h) k = (px, All-append P xs ys h k)

-- `xs[lo..hi]`; `none` where the program panics.
unfoldable pub slice {ℓ} : {A : Type ℓ} → List A → ℕ → ℕ → Option (List A)
slice xs lo hi =
    if leb lo hi && leb hi (length xs) then some (take (hi - lo) (drop lo xs)) else none

-- A slice of `n` elements in range is what stands at the position.
pub slice_lem {ℓ} :
    {A : Type ℓ} (xs : List A) (lo n : ℕ)
    → 0 < n
    → n ≤ length (drop lo xs)
    → slice xs lo (lo + n) ≡ some (take n (drop lo xs))
unfolding slice
slice_lem xs lo n pos h =
    let same : lo + n - lo ≡ n = omega arith in rw same (ground (arith, length-drop lo xs))

-- Where two splits of one list meet: one begins with the other.
pub append_overlap {ℓ} :
    {A : Type ℓ} (xs ys zs ws : List A)
    → xs ++ ys ≡ zs ++ ws
    → ((r : List A) × (xs ≡ zs ++ r) × (r ++ ys ≡ ws))
      ⊎ ((a : A) × (r : List A) × (zs ≡ xs ++ a ∷ r) × (ys ≡ a ∷ r ++ ws))
append_overlap xs ys [] ws e = inl (xs, refl, e)
append_overlap [] ys (z ∷ zs) ws e = inr (z, zs, refl, e)
append_overlap (x ∷ xs) ys (z ∷ zs) ws e =
    let head : x ≡ z = cc in
    let tail : xs ++ ys ≡ zs ++ ws = cc in
    elim (append_overlap xs ys zs ws tail) [
      | inl (r, p, q) ↦ inl (r, cc, q)
      | inr (a, r, p, q) ↦ inr (a, r, cc, q)
    ]

-- A slice that covers what is known to stand at the position.
pub slice_at {ℓ} :
    {A : Type ℓ} (buf : List A) (lo n : ℕ) (xs rest : List A)
    → drop lo buf ≡ xs ++ rest
    → length xs ≡ n
    → lo ≤ length buf
    → slice buf lo (lo + n) ≡ some xs
unfolding slice
slice_at buf lo n xs rest e size room =
    let same : lo + n - lo ≡ n = omega arith in
    let fits : lo + n ≤ length buf =
      omega (arith, length-drop lo buf, ap length e, length-append xs rest) in
    rw (
      leb_of_le lo (lo + n) (omega arith),
      leb_of_le (lo + n) (length buf) fits,
      same,
      e,
      take-append n xs rest size,
    )

-- What stands behind it.
pub drop_behind {ℓ} :
    {A : Type ℓ} (buf : List A) (lo n : ℕ) (xs rest : List A)
    → drop lo buf ≡ xs ++ rest
    → length xs ≡ n
    → drop (lo + n) buf ≡ rest
drop_behind buf lo n xs rest e size = rw (drop-drop, e, drop-append n xs rest size)

-- What is taken up to the end of what is known to stand at a position.
pub take_behind {ℓ} :
    {A : Type ℓ} (buf : List A) (lo hi : ℕ) (xs rest : List A)
    → drop lo buf ≡ xs ++ rest
    → lo + length xs ≡ hi
    → lo ≤ length buf
    → take hi buf ≡ take lo buf ++ xs
take_behind buf zero hi xs rest e size room =
    let n : hi ≡ length xs = omega arith in rw (n, e) (take-append (length xs) xs rest refl)
take_behind [] (suc lo) hi xs rest e size room = absurd (omega arith)
take_behind (x ∷ buf) (suc lo) zero xs rest e size room = absurd (omega arith)
take_behind (x ∷ buf) (suc lo) (suc hi) xs rest e size room =
    ap (λ t. x ∷ t) (take_behind buf lo hi xs rest e (omega arith) (omega arith))

-- Below its length a list has an element.
pub drop-cons {ℓ} :
    {A : Type ℓ} (n : ℕ) (xs : List A)
    → n < length xs
    → (y : A) × (ys : List A) × (drop n xs ≡ y ∷ ys)
drop-cons n [] h = absurd (omega arith)
drop-cons zero (x ∷ xs) h = (x, xs, refl)
drop-cons (suc n) (x ∷ xs) h = drop-cons n xs (omega arith)

-- A list is what is taken of it and what is left.
pub take_split {ℓ} :
    {A : Type ℓ} (n : ℕ) (xs rest more : List A)
    → drop n xs ≡ rest
    → take n xs ++ (rest ++ more) ≡ xs ++ more
take_split zero xs rest more e = ap (λ t. t ++ more) (sym e)
take_split (suc n) [] rest more e = ap (λ t. t ++ more) (sym e)
take_split (suc n) (x ∷ xs) rest more e = ap (λ t. x ∷ t) (take_split n xs rest more e)

-- Two splits of one list whose second parts have one length are the same.
pub append_cut {ℓ} :
    {A : Type ℓ} (xs ys zs ws : List A)
    → xs ++ ys ≡ zs ++ ws
    → length ys ≡ length ws
    → (xs ≡ zs) × (ys ≡ ws)
append_cut [] ys [] ws e size = (refl, e)
append_cut [] ys (z ∷ zs) ws e size = absurd (omega (arith, ap length e, size, length-append zs ws))
append_cut (x ∷ xs) ys [] ws e size = absurd (omega (arith, ap length e, size, length-append xs ys))
append_cut (x ∷ xs) ys (z ∷ zs) ws e size =
    let head : x ≡ z = cc in
    let tail : xs ++ ys ≡ zs ++ ws = cc in
    let (same, rest) = append_cut xs ys zs ws tail size in
    (ap₂ (λ a rest. a ∷ rest) head same, rest)
