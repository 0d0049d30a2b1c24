-- ===== src/Tests/Instances.antt =====
-- The crates `bytes`, `byteorder` and `crc32fast`, paths and a disk, over lists.
use pcopy.Prelude.{
  ℕ, ◌+◌, ◌*◌, ◌%◌, ◌^◌, ◌<◌, ◌≤◌, ◌≡◌, refl, arith, Bool, true, false, List, [], ◌∷◌, ◌++◌, length,
  ltb, ◌==◌, if◌then◌else◌, Option, none, some, All, Bool-cases, inl, inr,
}
use pcopy.Prelude.BigEndian.{from_be}
use pcopy.Prelude.Outcome.{Outcome, ok, err}
use pcopy.Rust.IoError.{IoError, unexpected_eof}
use pcopy.Rust.Cursor.{Cursor, unread, forward}
use pcopy.Rust.Path.{Paths, slash}
use pcopy.Rust.Disk.{Disk}
use pcopy.Crates.Bytes.{Bytes}
use pcopy.Crates.ByteOrder.{ByteOrder}
use pcopy.Crates.Crc32.{Crc32}

unfoldable pub byte_of : List ℕ → Cursor → Option (ℕ × Cursor)
byte_of [] c = none
byte_of (x ∷ xs) c = some (x, forward c 1)

unfoldable pub word_of : List ℕ → Cursor → Option (ℕ × Cursor)
word_of (w ∷ x ∷ y ∷ z ∷ bs) c = some (((w * 256 + x) * 256 + y) * 256 + z, forward c 4)
word_of _ c = none

unfoldable pub step : Cursor → ℕ → Option Cursor
step c n = if ltb (length (unread c)) n then none else some (forward c n)

pub get_u8_law :
    (c : Cursor) (x : ℕ) (bs : List ℕ)
    → unread c ≡ x ∷ bs
    → byte_of (unread c) c ≡ some (x, forward c 1)
unfolding byte_of
get_u8_law c x bs e = rw e

pub get_u32_law :
    (c : Cursor) (w x y z : ℕ) (bs : List ℕ)
    → unread c ≡ w ∷ x ∷ y ∷ z ∷ bs
    → word_of (unread c) c ≡ some (((w * 256 + x) * 256 + y) * 256 + z, forward c 4)
unfolding word_of
get_u32_law c w x y z bs e = rw e

pub advance_law : (c : Cursor) (n : ℕ) → n ≤ length (unread c) → step c n ≡ some (forward c n)
unfolding step
advance_law c n h = ground arith

instance abbrev pub list_bytes : Bytes
list_bytes = record {
  remaining = λ c. length (unread c);
  has_remaining = λ c. ltb 0 (length (unread c));
  get_u8 = λ c. byte_of (unread c) c;
  get_u32 = λ c. word_of (unread c) c;
  advance = step;
  put_u8 = λ bs x. bs ++ x ∷ [];
  extend_from_slice = λ bs cs. bs ++ cs;
  remaining_lem = λ c. refl;
  has_remaining_lem = λ c. refl;
  get_u8_lem = get_u8_law;
  get_u32_lem = get_u32_law;
  advance_lem = advance_law;
  put_u8_lem = λ bs x. refl;
  extend_from_slice_lem = λ bs cs. refl;
}

unfoldable pub read_byte : List ℕ → Cursor → Outcome IoError (ℕ × Cursor)
read_byte [] c = err unexpected_eof
read_byte (x ∷ xs) c = ok (x, forward c 1)

pub read_u8_law :
    (c : Cursor) (x : ℕ) (bs : List ℕ)
    → unread c ≡ x ∷ bs
    → read_byte (unread c) c ≡ ok (x, forward c 1)
unfolding read_byte
read_u8_law c x bs e = rw e

instance abbrev pub list_order : ByteOrder
list_order = record {
  read_u8 = λ c. read_byte (unread c) c;
  read_u8_lem = read_u8_law;
  read_u16 = from_be;
  read_u32 = from_be;
  read_u16_lem = λ bs h. refl;
  read_u32_lem = λ bs h. refl;
}

unfoldable pub total : List ℕ → ℕ
total [] = 0
total (x ∷ xs) = x + total xs

total-append : (xs ys : List ℕ) → total (xs ++ ys) ≡ total xs + total ys
unfolding total
total-append [] ys = omega arith
total-append (x ∷ xs) ys = omega (arith, total-append xs ys)

pub fed : (h : ℕ) (xs ys : List ℕ) → h + total xs + total ys ≡ h + total (xs ++ ys)
fed h xs ys = omega (arith, total-append xs ys)

pub fed_nothing : (h : ℕ) → (h + total []) % 2 ^ 32 ≡ h % 2 ^ 32
unfolding total
fed_nothing h = omega arith

-- A checksum: the sum of the bytes.
abbrev pub sum : Crc32
sum = record {
  Hasher = ℕ;
  new = 0;
  new_with_initial = λ n. n;
  update = λ h xs. h + total xs;
  finalize = λ h. h % 2 ^ 32;
  finalize-lt = λ h. omega arith;
  finalize-new_with_initial = λ n h. omega arith;
  update-nil = fed_nothing;
  update-update = λ h xs ys. rw fed;
}

unfoldable pub is_ascii : List ℕ → Bool
is_ascii [] = true
is_ascii (x ∷ xs) = if ltb x 128 then is_ascii xs else false

pub is_ascii-append :
    (xs ys : List ℕ) → is_ascii xs ≡ true → is_ascii ys ≡ true → is_ascii (xs ++ ys) ≡ true
unfolding is_ascii
is_ascii-append [] ys h k = k
is_ascii-append (x ∷ xs) ys h k = elim (Bool-cases (ltb x 128)) [
  | inl low ↦ rw low (is_ascii-append xs ys (rw low at h) k)
  | inr high ↦ cc (rw high at h)
]

pub is_ascii-All : (xs : List ℕ) → All (λ x. x < 128) xs → is_ascii xs ≡ true
unfolding is_ascii
is_ascii-All [] h = refl
is_ascii-All (x ∷ xs) (low, h) = let t : ltb x 128 ≡ true = ground arith in rw t (is_ascii-All xs h)

pub is_ascii-tail : (x : ℕ) (xs : List ℕ) → x < 128 → is_ascii (x ∷ xs) ≡ true → is_ascii xs ≡ true
unfolding is_ascii
is_ascii-tail x xs low h = let t : ltb x 128 ≡ true = ground arith in rw t at h

-- What stands in front of the last slash.
unfoldable pub folder_of : List ℕ → Option (List ℕ)
folder_of [] = none
folder_of (x ∷ xs) = elim (folder_of xs) [
  | some f ↦ some (x ∷ f)
  | none ↦ if x == slash then some [] else none
]

-- Texts of ASCII only.
instance abbrev pub ascii_paths : Paths
ascii_paths = record {
  is_utf8 = is_ascii;
  parent = folder_of;
  ends_with_root = λ p. if length p == 1 then true else false;
  is_utf8-append = is_ascii-append;
  is_utf8-ascii = is_ascii-All;
  is_utf8-tail = is_ascii-tail;
}

-- A disk where everything succeeds.
abbrev pub good_disk : Disk
good_disk = record {
  create_dir_all = λ p. none;
  create = λ p. none;
  write = λ bs. ok (length bs);
  write_all = λ bs. none;
}
