-- ===== src/Server/Folder.antt =====
-- server/server.rs: `Server::create_parent_folder`.
pub mod Whole
pub mod Fuel
use pcopy.Prelude.{ℕ, ◌+◌, List, [], Bool, not, ◌==◌, if◌then◌else◌, Option, none, some, length}
use pcopy.Prelude.Outcome.{Outcome, ok, err, panic, or_panic, ◌>>=◌ as and_then}
use pcopy.Prelude.Exec.{Exec, pure, raise, lift, continue, ◌>>=◌, ◌>>◌}
use pcopy.Rust.IoError.{IoError, invalid_data, other}
use pcopy.Rust.Path.{Paths, strip_slash, join}
use pcopy.Rust.Disk.{Disk, made_folder}
use pcopy.Crates.ByteOrder.{ByteOrder}
use pcopy.Crates.Crc32.{Crc32}
use pcopy.Server.Reader.{ReadFromStream}
use pcopy.Server.Session.{Session, BufferState, fill, buf_slice, log, read_checksum}

module _ ⦃paths : Paths⦄ where
  -- The folder of a path that ends in the root's slash is two levels up.
  unfoldable pub parent_folder : List ℕ → Outcome IoError (List ℕ)
  parent_folder path =
      if paths.ends_with_root path
      then and_then (or_panic (paths.parent path)) (λ up. or_panic (paths.parent up))
      else or_panic (paths.parent path)

module _ {T : Type 0} ⦃reader : ReadFromStream T⦄ ⦃order : ByteOrder⦄ ⦃paths : Paths⦄ (crc : Crc32)
    (disk : Disk) (root_saving_directory : List ℕ) where
  unfoldable pub make_folder : List ℕ → Option IoError → Exec (Session T) IoError (Unit {0})
  make_folder folder none = log (made_folder folder)
  make_folder folder (some e) = raise other

  -- Behind the fields: the path that is saved under the root, the check of the checksum, which is of the
  -- path as it was sent, and the folder. A panic is the `unwrap` of a path that is no text.
  unfoldable pub save_under :
      List ℕ → ℕ → BufferState → Exec (Session T) IoError (BufferState × List ℕ)
  unfolding make_folder
  save_under relative_file_path received_checksum state = do
    let expected_checksum = crc.finalize (crc.update crc.new relative_file_path)
    let complete_file_path = join root_saving_directory (strip_slash relative_file_path)
    if not (expected_checksum == received_checksum) then raise other else do
      folder ← lift (parent_folder complete_file_path)
      make_folder folder (disk.create_dir_all folder)
      if paths.is_utf8 complete_file_path then pure (state, complete_file_path) else lift panic

  unfoldable pub create_parent_folder : ℕ → ℕ → Exec (Session T) IoError (BufferState × List ℕ)
  create_parent_folder end_index start_index = do
    end1 ← fill 2 2 end_index start_index
    length_bytes ← buf_slice start_index (start_index + 2)
    let file_path = order.read_u16 length_bytes
    let start1 = start_index + 2
    end2 ← fill file_path file_path end1 start1
    relative_file_path ← buf_slice start1 (start1 + file_path)
    if not (paths.is_utf8 relative_file_path) then raise other else do
      (received_checksum, state) ← read_checksum crc end2 (start1 + file_path)
      save_under relative_file_path received_checksum state
