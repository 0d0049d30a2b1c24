-- ===== src/Server/Suite/FoldersPass.antt =====
-- The tests of `create_parent_folder` pass.
use pcopy.Prelude.{ℕ, ◌^◌, ◌<◌, ◌≡◌, List, [], ◌∷◌, length, true, none}
use pcopy.Prelude.Outcome.{ok}
use pcopy.Rust.Path.{Paths, strip_slash, join}
use pcopy.Rust.Disk.{Disk}
use pcopy.Crates.ByteOrder.{ByteOrder}
use pcopy.Crates.Crc32.{Crc32}
use pcopy.Server.Folder.{parent_folder}
use pcopy.Server.Folder.Whole.{path_fields}
use pcopy.Server.Suite.{Texts, get_checksum_bytes}
use pcopy.Server.Suite.Streams.{Rooted}

module _ ⦃order : ByteOrder⦄ ⦃paths : Paths⦄ (crc : Crc32) (disk : Disk) (root : List ℕ)
    (texts : Texts) (rooted : Rooted texts.get_folder_name)
    (short : length texts.get_folder_name < 2 ^ 16)
    (text : paths.is_utf8 texts.get_folder_name ≡ true) (root_text : paths.is_utf8 root ≡ true)
    (folder : List ℕ)
    (parent : parent_folder (join root (strip_slash texts.get_folder_name)) ≡ ok folder)
    (made : disk.create_dir_all folder ≡ none) where
  abbrev name : List ℕ
  name = texts.get_folder_name

  -- The request of the tests.
  abbrev request : List ℕ
  request = 1 ∷ path_fields name (get_checksum_bytes crc name) []
