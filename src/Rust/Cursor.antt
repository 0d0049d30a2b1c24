-- ===== src/Rust/Cursor.antt =====
-- std::io::Cursor over a byte slice.
use pcopy.Prelude.{
  ℕ, ◌≤◌, ◌<◌, ◌+◌, some, slice, slice_lem, ◌≡◌, refl, List, ◌∷◌, ltb, if◌then◌else◌, length, take,
  drop, drop-drop, arith,
}
use pcopy.Prelude.Outcome.{Outcome, ok, err}
use pcopy.Rust.IoError.{IoError, unexpected_eof}

pub record Cursor : Type 0 where
  pub inner : List ℕ
  pub position : ℕ

-- `Cursor::new(&buffer[..])`
abbrev pub new : List ℕ → Cursor
new buffer = record { inner = buffer; position = 0 }

-- The bytes that stand at the position and behind it.
unfoldable pub unread : Cursor → List ℕ
unread c = drop c.position c.inner

-- `set_position(position() + n)`
unfoldable pub forward : Cursor → ℕ → Cursor
forward c n = record c { position = c.position + n }

-- `Read::read_exact` into an array of `n` bytes.
unfoldable pub read_exact : Cursor → ℕ → Outcome IoError (List ℕ × Cursor)
read_exact c n =
    if ltb (length (unread c)) n then err unexpected_eof else ok (take n (unread c), forward c n)

pub unread-forward : (c : Cursor) (n : ℕ) → unread (forward c n) ≡ drop n (unread c)
unfolding unread forward
unread-forward c n = drop-drop n c.position c.inner

pub unread-step : (c : Cursor) (v : ℕ) (bs : List ℕ) → unread c ≡ v ∷ bs → unread (forward c 1) ≡ bs
unread-step c v bs e = rw (unread-forward, e)

pub unread-new : (bs : List ℕ) → unread (new bs) ≡ bs
unfolding unread
unread-new bs = refl

-- A slice at the position is what is read next.
pub slice-unread :
    (c : Cursor) (n : ℕ)
    → 0 < n
    → n ≤ length (unread c)
    → slice c.inner c.position (c.position + n) ≡ some (take n (unread c))
unfolding unread
slice-unread c n pos h = slice_lem c.inner c.position n pos h

pub forward-forward : (c : Cursor) (m n : ℕ) → forward (forward c m) n ≡ forward c (m + n)
unfolding forward
forward-forward c m n = ground arith
