-- ===== src/Rust/Assert.antt =====
-- The macros `assert!` and `assert_eq!` of a test: a condition that is false is a panic.
use pcopy.Prelude.{ℕ, zero, suc, ◌≡◌, refl, Bool, true, ==_of_eq, List, [], ◌∷◌, if◌then◌else◌}
use pcopy.Prelude.Outcome.{Outcome, ok, panic}
use pcopy.Rust.Text.{same_text}

abbrev pub assert {ℓ} : {E : Type ℓ} → Bool → Outcome E (Unit {0})
assert b = if b then ok tt else panic

-- `==` of texts and slices is that of their bytes.
pub same_text_refl : (xs : List ℕ) → same_text xs xs ≡ true
unfolding same_text
same_text_refl [] = refl
same_text_refl (x ∷ xs) = rw (==_of_eq x x refl, same_text_refl xs)

-- `xs[i]` of a slice.
unfoldable pub index {ℓ} : {E : Type ℓ} → List ℕ → ℕ → Outcome E ℕ
index [] i = panic
index (x ∷ xs) zero = ok x
index (x ∷ xs) (suc i) = index xs i
