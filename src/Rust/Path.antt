-- ===== src/Rust/Path.antt =====
-- std::path::Path and String::from_utf8, over bytes.
use pcopy.Prelude.{ℕ, ◌<◌, ◌≡◌, Bool, true, List, [], ◌∷◌, ◌++◌, Option, All, ◌==◌, if◌then◌else◌}

abbrev pub slash : ℕ
slash = b'/'

-- `strip_prefix("/").unwrap_or(path)`: one leading slash is taken off.
unfoldable pub strip_slash : List ℕ → List ℕ
strip_slash [] = []
strip_slash (x ∷ xs) = if x == slash then xs else x ∷ xs

-- `Path::join` on a folder that does not end in a slash: an absolute path replaces the folder.
unfoldable pub join : List ℕ → List ℕ → List ℕ
join base [] = base ++ slash ∷ []
join base (x ∷ xs) = if x == slash then x ∷ xs else base ++ slash ∷ x ∷ xs

-- What is left to the standard library: the check of UTF-8, with its laws on concatenation, and the
-- functions of `Path` that take a path apart into components.
pub record Paths : Type 0 where
  pub is_utf8 : List ℕ → Bool
  pub parent : List ℕ → Option (List ℕ)
  -- `ends_with(Path::new("/"))`
  pub ends_with_root : List ℕ → Bool
  pub is_utf8-append :
      (xs ys : List ℕ) → is_utf8 xs ≡ true → is_utf8 ys ≡ true → is_utf8 (xs ++ ys) ≡ true
  pub is_utf8-ascii : (xs : List ℕ) → All (λ x. x < 128) xs → is_utf8 xs ≡ true
  pub is_utf8-tail : (x : ℕ) (xs : List ℕ) → x < 128 → is_utf8 (x ∷ xs) ≡ true → is_utf8 xs ≡ true
