-- ===== src/Server/Suite/Files.antt =====
-- server/server.rs, `mod tests`: the tests of `save_file`, and those that write a request to a file.
use pcopy.Prelude.{ℕ, List, [], ◌∷◌, ◌++◌, length, Option, none, some}
use pcopy.Prelude.Outcome.{Outcome, ok, panic, ◌>>=◌}
use pcopy.Rust.IoError.{IoError}
use pcopy.Rust.Path.{Paths}
use pcopy.Rust.Disk.{Disk, Effect, created, wrote}
use pcopy.Crates.ByteOrder.{ByteOrder}
use pcopy.Crates.Crc32.{Crc32}
use pcopy.Server.File.{save_file}
use pcopy.Server.Suite.{
  Texts, no_data, file_checksum, file_and_checksum, length_and_file, no_data_stream,
  file_checksum_stream, file_and_checksum_stream, length_and_file_stream, get_length_as_u32_bytes,
  push_path, push_file, expect_saved,
}
use pcopy.Server.Suite.Folders.{arrived}

module _ ⦃order : ByteOrder⦄ ⦃paths : Paths⦄ (crc : Crc32) (disk : Disk) (root : List ℕ)
    (texts : Texts) where
  open texts use {get_file_name, get_file_data}

  unfoldable pub test_save_file_whole_frame_happy : Outcome IoError (Unit {0})
  test_save_file_whole_frame_happy = do
    header ← push_path crc (2 ∷ []) get_file_name
    buf ← push_file crc header get_file_data
    let run = save_file crc disk root (length buf) 1 (arrived no_data buf)
    expect_saved root get_file_name (length run.1.buf) run.0

  unfoldable pub test_save_file_read_from_stream_checksum : Outcome IoError (Unit {0})
  test_save_file_read_from_stream_checksum = do
    header ← push_path crc (2 ∷ []) get_file_name
    length_bytes ← get_length_as_u32_bytes get_file_data
    let buf = (header ++ length_bytes) ++ get_file_data
    let run =
        save_file ⦃reader = file_checksum_stream crc texts⦄ crc disk root (length buf) 1
          (arrived file_checksum buf)
    expect_saved root get_file_name (length run.1.buf) run.0

  unfoldable pub test_save_file_read_from_stream_file_data_and_checksum : Outcome IoError (Unit {0})
  test_save_file_read_from_stream_file_data_and_checksum = do
    header ← push_path crc (2 ∷ []) get_file_name
    length_bytes ← get_length_as_u32_bytes get_file_data
    let buf = header ++ length_bytes
    let run =
        save_file ⦃reader = file_and_checksum_stream crc texts⦄ crc disk root (length buf) 1
          (arrived file_and_checksum buf)
    expect_saved root get_file_name (length run.1.buf) run.0

  unfoldable pub test_save_file_read_from_stream_file_length_and_file_data_and_checksum :
      Outcome IoError (Unit {0})
  test_save_file_read_from_stream_file_length_and_file_data_and_checksum = do
    buf ← push_path crc (2 ∷ []) get_file_name
    let run =
        save_file ⦃reader = length_and_file_stream crc texts⦄ crc disk root (length buf) 1
          (arrived length_and_file buf)
    expect_saved root get_file_name (length run.1.buf) run.0

module _ (disk : Disk) where
  -- `file.write_all(&buf)`, of which the result is dropped.
  unfoldable pub write_all_dropped : List ℕ → Option IoError → List Effect
  write_all_dropped buf none = wrote buf ∷ []
  write_all_dropped buf (some e) = []

  -- `File::create(path).unwrap()`, and the request to it.
  unfoldable pub write_request : List ℕ → List ℕ → Option IoError → Outcome IoError (List Effect)
  unfolding write_all_dropped
  write_request path buf none = ok (created path ∷ write_all_dropped buf (disk.write_all buf))
  write_request path buf (some e) = panic

  -- The file to which the request is written is an argument.
  unfoldable pub write_create_parent_folder_request_bytes :
      Crc32 → Texts → List ℕ → Outcome IoError (List Effect)
  write_create_parent_folder_request_bytes crc texts path = do
    buf ← push_path crc (1 ∷ []) texts.get_folder_name
    write_request path buf (disk.create path)

  unfoldable pub write_create_file_request_bytes :
      Crc32 → Texts → List ℕ → Outcome IoError (List Effect)
  write_create_file_request_bytes crc texts path = do
    header ← push_path crc (2 ∷ []) texts.get_file_name
    buf ← push_file crc header texts.get_file_data
    write_request path buf (disk.create path)
