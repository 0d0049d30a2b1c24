-- ===== src/Rust/Disk.antt =====
-- std::fs as the program meets it: what the system answers, and what was done in order.
use pcopy.Prelude.{ℕ, List, [], ◌∷◌, ◌++◌, Option}
use pcopy.Prelude.Outcome.{Outcome}
use pcopy.Rust.IoError.{IoError}

-- The answers of the system: `none` is success. `write` answers how many bytes it took.
pub record Disk : Type 0 where
  pub create_dir_all : List ℕ → Option IoError
  pub create : List ℕ → Option IoError
  pub write : List ℕ → Outcome IoError ℕ
  pub write_all : List ℕ → Option IoError

pub data Effect : Type 0 where
  made_folder : List ℕ → Effect
  created : List ℕ → Effect
  wrote : List ℕ → Effect

-- The bytes that were written, joined.
unfoldable pub written : List Effect → List ℕ
written [] = []
written (wrote bytes ∷ more) = bytes ++ written more
written (made_folder p ∷ more) = written more
written (created p ∷ more) = written more
