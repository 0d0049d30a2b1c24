-- ===== src/Rust/Text.antt =====
-- std::string::String, as its bytes.
use pcopy.Prelude.{
  ℕ, zero, suc, ◌+◌, ◌/◌, ◌%◌, List, [], ◌∷◌, ◌++◌, ltb, if◌then◌else◌, Bool, true, false, ◌==◌,
  ◌&&◌,
}

abbrev pub colon : ℕ
colon = b':'

-- The digits of a number, on fuel for each of them.
unfoldable pub digits : ℕ → ℕ → List ℕ
digits zero n = []
digits (suc fuel) n =
    let front = digits fuel (n / 10) in
    if ltb n 10 then (b'0' + n) ∷ [] else front ++ (b'0' + n % 10) ∷ []

-- `to_string` of a u32, which has ten digits at most.
unfoldable pub decimal : ℕ → List ℕ
unfolding digits
decimal n = digits 10 n

-- Equality of strings
unfoldable pub same_text : List ℕ → List ℕ → Bool
same_text [] [] = true
same_text (x ∷ xs) (y ∷ ys) = (x == y) && same_text xs ys
same_text _ _ = false

-- `str::to_lowercase`
pub record Lowercase : Type 0 where
  pub to_lowercase : List ℕ → List ℕ
