-- ===== src/Server/Suite/Folders.antt =====
-- server/server.rs, `mod tests`: the tests of `create_parent_folder`.
use pcopy.Prelude.{ℕ, List, [], ◌∷◌, ◌++◌, length}
use pcopy.Prelude.Outcome.{Outcome, ok, err, panic, stuck, ◌>>=◌}
use pcopy.Rust.IoError.{IoError}
use pcopy.Rust.Path.{Paths}
use pcopy.Rust.Disk.{Disk}
use pcopy.Crates.ByteOrder.{ByteOrder}
use pcopy.Crates.Crc32.{Crc32}
use pcopy.Server.Session.{Session, BufferState}
use pcopy.Server.Folder.{create_parent_folder}
use pcopy.Server.Suite.{
  Texts, no_data, all_data, folder_name_and_checksum, folder_checksum, no_data_stream,
  all_data_stream, folder_name_and_checksum_stream, folder_checksum_stream, get_length_as_u16_bytes,
  push_path, expect_saved,
}

-- The state of a test in front of the call.
abbrev pub arrived : {T : Type 0} → T → List ℕ → Session T
arrived stream buf = record { socket = stream; buf = buf; effects = [] }

-- A test that only wants the call to come back.
unfoldable pub expect_return : Outcome IoError (BufferState × List ℕ) → Outcome IoError (Unit {0})
expect_return (ok a) = ok tt
expect_return (err e) = ok tt
expect_return panic = panic
expect_return stuck = stuck

module _ ⦃order : ByteOrder⦄ ⦃paths : Paths⦄ (crc : Crc32) (disk : Disk) (root : List ℕ)
    (texts : Texts) where
  open texts use {get_folder_name}

  unfoldable pub test_create_folder_ok_read_data_from_stream : Outcome IoError (Unit {0})
  test_create_folder_ok_read_data_from_stream = do
    buf ← push_path crc (1 ∷ []) get_folder_name
    let number_of_bytes_read = length buf
    let run =
        create_parent_folder ⦃reader = all_data_stream crc texts⦄ crc disk root number_of_bytes_read
          1 (arrived all_data buf)
    expect_saved root get_folder_name number_of_bytes_read run.0

  unfoldable pub test_create_folder_ok_no_read_from_stream : Outcome IoError (Unit {0})
  test_create_folder_ok_no_read_from_stream =
      let buf : List ℕ = 1 ∷ [] in
      let run =
        create_parent_folder ⦃reader = all_data_stream crc texts⦄ crc disk root (length buf) 1
          (arrived all_data buf) in
      expect_saved root get_folder_name (length run.1.buf) run.0

  unfoldable pub test_create_folder_ok_read_folder_name_and_checksum_from_stream :
      Outcome IoError (Unit {0})
  test_create_folder_ok_read_folder_name_and_checksum_from_stream = do
    length_bytes ← get_length_as_u16_bytes get_folder_name
    let buf = (1 ∷ []) ++ length_bytes
    let run =
        create_parent_folder ⦃reader = folder_name_and_checksum_stream crc texts⦄ crc disk root
          (length buf) 1 (arrived folder_name_and_checksum buf)
    expect_saved root get_folder_name (length run.1.buf) run.0

  unfoldable pub test_create_folder_ok_read_checksum_from_stream : Outcome IoError (Unit {0})
  test_create_folder_ok_read_checksum_from_stream = do
    length_bytes ← get_length_as_u16_bytes get_folder_name
    let buf = ((1 ∷ []) ++ length_bytes) ++ get_folder_name
    let run =
        create_parent_folder ⦃reader = folder_checksum_stream crc texts⦄ crc disk root (length buf)
          1 (arrived folder_checksum buf)
    expect_saved root get_folder_name (length run.1.buf) run.0

  unfoldable pub test_create_folder_erro_read_stream : Outcome IoError (Unit {0})
  unfolding expect_return
  test_create_folder_erro_read_stream =
      let buf : List ℕ = 1 ∷ [] in
      expect_return (create_parent_folder crc disk root (length buf) 1 (arrived no_data buf)).0
