-- ===== src/Server/Suite/Requests.antt =====
-- The requests of the tests of `save_file`.
use pcopy.Prelude.{
  ℕ, ◌+◌, ◌^◌, ◌<◌, ◌≡◌, refl, ap, arith, List, [], ◌∷◌, ◌++◌, length, append_assoc, append-nil,
  length-append, true, none, ltb_of_lt,
}
use pcopy.Prelude.BigEndian.{to_be, length-to_be}
use pcopy.Prelude.Outcome.{ok}
use pcopy.Rust.Path.{Paths, strip_slash, join}
use pcopy.Rust.Disk.{Disk}
use pcopy.Crates.ByteOrder.{ByteOrder}
use pcopy.Crates.Crc32.{Crc32}
use pcopy.Server.Folder.{parent_folder}
use pcopy.Server.Folder.Whole.{path_fields}
use pcopy.Server.File.Whole.{file_fields}
use pcopy.Server.Suite.{
  Texts, no_data_stream, get_length_as_u16_bytes, get_length_as_u32_bytes, get_checksum_bytes,
  checksum_of, push_path, push_file,
}
use pcopy.Server.Suite.Streams.{Rooted}

-- What the tests of `save_file` take of their texts and of the disk.
pub record FileTest ⦃paths : Paths⦄ (disk : Disk) (root : List ℕ) (texts : Texts) : Type 0 where
  pub folder : List ℕ
  pub rooted : Rooted texts.get_file_name
  pub short : length texts.get_file_name < 2 ^ 16
  pub some_data : 0 < length texts.get_file_data
  pub fits : 1034 + length texts.get_file_name + length texts.get_file_data < 2 ^ 32
  pub text : paths.is_utf8 texts.get_file_name ≡ true
  pub root_text : paths.is_utf8 root ≡ true
  pub parent : parent_folder (join root (strip_slash texts.get_file_name)) ≡ ok folder
  pub made : disk.create_dir_all folder ≡ none
  pub creates : disk.create (join root (strip_slash texts.get_file_name)) ≡ none
  pub writes_all : (bytes : List ℕ) → disk.write bytes ≡ ok (length bytes)
  pub takes_all : (bytes : List ℕ) → disk.write_all bytes ≡ none

module _ ⦃order : ByteOrder⦄ ⦃paths : Paths⦄ (crc : Crc32) (disk : Disk) (root : List ℕ)
    (texts : Texts) (h : FileTest disk root texts) where
  abbrev pub name : List ℕ
  name = texts.get_file_name

  abbrev pub content : List ℕ
  content = texts.get_file_data

  -- The header of the request, with what is behind it, and the whole request.
  abbrev pub headed : List ℕ → List ℕ
  headed rest = 2 ∷ path_fields name (get_checksum_bytes crc name) rest

  abbrev pub request : List ℕ
  request = headed (file_fields content (get_checksum_bytes crc content) [])

  pub length-headed : (rest : List ℕ) → length (headed rest) ≡ 7 + length name + length rest
  length-headed rest = omega (
    arith,
    length-append (to_be 2 (length name)) (name ++ (checksum_of crc name ++ rest)),
    length-append name (checksum_of crc name ++ rest),
    length-append (checksum_of crc name) rest,
    length-to_be 2 (length name),
    length-to_be 4 (get_checksum_bytes crc name),
  )

  pub length-request : length request ≡ 15 + length name + length content
  length-request = omega (
    arith,
    length-headed (file_fields content (get_checksum_bytes crc content) []),
    length-append (to_be 4 (length content)) (content ++ (checksum_of crc content ++ [])),
    length-append content (checksum_of crc content ++ []),
    length-append (checksum_of crc content) [],
    length-to_be 4 (length content),
    length-to_be 4 (get_checksum_bytes crc content),
  )

  pub headed-append : (xs ys : List ℕ) → headed xs ++ ys ≡ headed (xs ++ ys)
  headed-append xs ys =
      rw
        (
          append_assoc (to_be 2 (length name)) (name ++ (checksum_of crc name ++ xs)) ys,
          append_assoc name (checksum_of crc name ++ xs) ys,
          append_assoc (checksum_of crc name) xs ys,
        )
        refl

  pub pushed_path : push_path crc (2 ∷ []) name ≡ ok (headed [])
  unfolding push_path get_length_as_u16_bytes
  pushed_path = rw (ltb_of_lt (length name) (2 ^ 16) h.short) (simp (append_assoc, append-nil))

  pub length_of_data : get_length_as_u32_bytes content ≡ ok (to_be 4 (length content))
  unfolding get_length_as_u32_bytes
  length_of_data = rw (ltb_of_lt (length content) (2 ^ 32) (omega (arith, h.fits))) refl

  pub pushed_file : push_file crc (headed []) content ≡ ok request
  unfolding push_file
  pushed_file = rw length_of_data (ap (λ b. ok b) (simp (append_assoc, append-nil)))
