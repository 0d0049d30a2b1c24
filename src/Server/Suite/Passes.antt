-- ===== src/Server/Suite/Passes.antt =====
-- The tests of `save_file` pass, and what the tests write is a request.
use pcopy.Prelude.{
  ℕ, ◌^◌, ◌<◌, ◌≡◌, refl, List, [], ◌∷◌, length, append_assoc, append-nil, none, ltb_of_lt,
}
use pcopy.Prelude.Outcome.{ok}
use pcopy.Rust.Disk.{Disk, created, wrote}
use pcopy.Crates.ByteOrder.{ByteOrder}
use pcopy.Crates.Crc32.{Crc32}
use pcopy.Server.Folder.Whole.{path_fields}
use pcopy.Server.Suite.{Texts, get_checksum_bytes, get_length_as_u16_bytes, push_path}
use pcopy.Server.Suite.Files.{write_request, write_create_parent_folder_request_bytes}

-- The other test that writes a request writes one for a folder.
write_create_parent_folder_request_bytes_lem :
    (crc : Crc32) (disk : Disk) (texts : Texts) (file : List ℕ)
    → length texts.get_folder_name < 2 ^ 16
    → disk.create file ≡ none
    → ((bytes : List ℕ) → disk.write_all bytes ≡ none)
    → write_create_parent_folder_request_bytes disk crc texts file
      ≡ ok (
          created file
          ∷ wrote (
              1
              ∷ path_fields texts.get_folder_name (get_checksum_bytes crc texts.get_folder_name) [])
          ∷ [])
unfolding write_create_parent_folder_request_bytes write_request push_path get_length_as_u16_bytes
write_create_parent_folder_request_bytes_lem crc disk texts file short makes takes =
    let written : List ℕ =
      1 ∷ path_fields texts.get_folder_name (get_checksum_bytes crc texts.get_folder_name) [] in
    let pushed : push_path crc (1 ∷ []) texts.get_folder_name ≡ ok written =
      rw (ltb_of_lt (length texts.get_folder_name) (2 ^ 16) short)
        (simp (append_assoc, append-nil)) in
    rw (pushed, makes, takes written) refl
