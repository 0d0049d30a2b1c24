-- ===== src/Crates/ByteOrder.antt =====
-- Crate `byteorder`: `ReadBytesExt::read_u8` for a cursor, and `BigEndian` for slices.
use pcopy.Prelude.{ℕ, ◌≡◌, List, ◌∷◌, length}
use pcopy.Prelude.Outcome.{Outcome, ok}
use pcopy.Rust.IoError.{IoError}
use pcopy.Rust.Cursor.{Cursor, unread, forward}
use pcopy.Prelude.BigEndian.{from_be}

pub record ByteOrder : Type 0 where
  pub read_u8 : Cursor → Outcome IoError (ℕ × Cursor)
  pub read_u8_lem :
      (c : Cursor) (b : ℕ) (bs : List ℕ) → unread c ≡ b ∷ bs → read_u8 c ≡ ok (b, forward c 1)
  -- `BigEndian::read_u16` and `read_u32` of a slice of that length
  pub read_u16 : List ℕ → ℕ
  pub read_u32 : List ℕ → ℕ
  pub read_u16_lem : (bs : List ℕ) → length bs ≡ 2 → read_u16 bs ≡ from_be bs
  pub read_u32_lem : (bs : List ℕ) → length bs ≡ 4 → read_u32 bs ≡ from_be bs
