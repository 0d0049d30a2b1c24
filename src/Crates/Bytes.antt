-- ===== src/Crates/Bytes.antt =====
-- Crate `bytes`: `Buf` for a cursor over a byte slice, and `BufMut` for `BytesMut`, which is the list
-- of its bytes. `none` is a panic.
use pcopy.Prelude.{ℕ, ◌+◌, ◌*◌, ◌≤◌, ◌≡◌, Bool, List, [], ◌∷◌, ◌++◌, Option, some, length, ltb}
use pcopy.Rust.Cursor.{Cursor, unread, forward}

pub record Bytes : Type 0 where
  pub remaining : Cursor → ℕ
  pub has_remaining : Cursor → Bool
  pub get_u8 : Cursor → Option (ℕ × Cursor)
  pub get_u32 : Cursor → Option (ℕ × Cursor)
  pub advance : Cursor → ℕ → Option Cursor
  pub put_u8 : List ℕ → ℕ → List ℕ
  pub extend_from_slice : List ℕ → List ℕ → List ℕ
  pub remaining_lem : (c : Cursor) → remaining c ≡ length (unread c)
  pub has_remaining_lem : (c : Cursor) → has_remaining c ≡ ltb 0 (length (unread c))
  -- reads the next byte and steps over it
  pub get_u8_lem :
      (c : Cursor) (b : ℕ) (bs : List ℕ) → unread c ≡ b ∷ bs → get_u8 c ≡ some (b, forward c 1)
  -- reads four bytes as a big-endian number
  pub get_u32_lem :
      (c : Cursor) (w x y z : ℕ) (bs : List ℕ)
      → unread c ≡ w ∷ x ∷ y ∷ z ∷ bs
      → get_u32 c ≡ some (((w * 256 + x) * 256 + y) * 256 + z, forward c 4)
  pub advance_lem : (c : Cursor) (n : ℕ) → n ≤ length (unread c) → advance c n ≡ some (forward c n)
  pub put_u8_lem : (bs : List ℕ) (b : ℕ) → put_u8 bs b ≡ bs ++ b ∷ []
  pub extend_from_slice_lem : (bs cs : List ℕ) → extend_from_slice bs cs ≡ bs ++ cs
