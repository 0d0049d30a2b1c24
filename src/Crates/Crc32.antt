-- ===== src/Crates/Crc32.antt =====
-- Crate `crc32fast`: `Hasher`.
use pcopy.Prelude.{ℕ, ◌^◌, ◌<◌, ◌≡◌, List, [], ◌++◌}

pub record Crc32 : Type 1 where
  pub Hasher : Type 0
  pub new : Hasher
  pub new_with_initial : ℕ → Hasher
  pub update : Hasher → List ℕ → Hasher
  pub finalize : Hasher → ℕ
  -- a u32
  pub finalize-lt : (h : Hasher) → finalize h < 2 ^ 32
  -- a hasher that begins with a checksum and is fed nothing gives that checksum
  pub finalize-new_with_initial : (n : ℕ) → n < 2 ^ 32 → finalize (new_with_initial n) ≡ n
  -- feeding nothing changes nothing
  pub update-nil : (h : Hasher) → finalize (update h []) ≡ finalize h
  -- a text may be fed in pieces
  pub update-update :
      (h : Hasher) (xs ys : List ℕ)
      → finalize (update (update h xs) ys) ≡ finalize (update h (xs ++ ys))
