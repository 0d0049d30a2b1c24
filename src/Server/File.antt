-- ===== src/Server/File.antt =====
-- server/server.rs: `Server::save_file`.
pub mod Parts
pub mod Whole
pub mod Overread
pub mod Fuel
use pcopy.Prelude.{
  ℕ, zero, suc, ◌+◌, ◌%◌, ◌^◌, min, List, length, take, ltb, not, ◌==◌, if◌then◌else◌, Option, none,
  some,
}
use pcopy.Prelude.Outcome.{Outcome, ok, err, panic, stuck, unwrap}
use pcopy.Prelude.Exec.{Exec, pure, raise, lift, ◌>>=◌, ◌>>◌}
use pcopy.Rust.IoError.{IoError, invalid_data, invalid_input}
use pcopy.Rust.Path.{Paths}
use pcopy.Rust.Disk.{Disk, created, wrote}
use pcopy.Crates.ByteOrder.{ByteOrder}
use pcopy.Crates.Crc32.{Crc32}
use pcopy.Server.Reader.{ReadFromStream}
use pcopy.Server.Session.{
  Session, BufferState, checked_sub, read_data, fill, buf_slice, log, read_checksum,
}
use pcopy.Server.Folder.{create_parent_folder}

-- The variables of the loop that receives the file.
pub record Receiving (H : Type 0) : Type 0 where
  pub end_index : ℕ
  pub start_index : ℕ
  pub file_data_length : ℕ
  pub hasher : H

-- `Err(e) => return Err(Error::new(ErrorKind::InvalidInput, e))`
unfoldable pub or_invalid_input {ℓ} : {A : Type ℓ} → Outcome IoError A → Outcome IoError A
or_invalid_input (ok a) = ok a
or_invalid_input (err e) = err invalid_input
or_invalid_input panic = panic
or_invalid_input stuck = stuck

module _ {T : Type 0} ⦃reader : ReadFromStream T⦄ ⦃order : ByteOrder⦄ ⦃paths : Paths⦄ (crc : Crc32)
    (disk : Disk) where
  open crc use {Hasher}

  -- `File::create(fp)?`
  unfoldable pub create_file : List ℕ → Option IoError → Exec (Session T) IoError (Unit {0})
  create_file path none = log (created path)
  create_file path (some e) = raise e

  -- `file.write_all(slice)?`
  unfoldable pub write_all : List ℕ → Option IoError → Exec (Session T) IoError (Unit {0})
  write_all bytes none = log (wrote bytes)
  write_all bytes (some e) = raise e

  -- `file.write_all(slice).unwrap()`
  unfoldable pub write_all_unwrap : List ℕ → Option IoError → Exec (Session T) IoError (Unit {0})
  write_all_unwrap bytes none = log (wrote bytes)
  write_all_unwrap bytes (some e) = lift panic

  -- `create_parent_folder`, with every error turned into `InvalidInput`.
  unfoldable pub make_parent : List ℕ → ℕ → ℕ → Exec (Session T) IoError (BufferState × List ℕ)
  unfolding or_invalid_input
  make_parent root end_index start_index s =
      let (r, s') = create_parent_folder crc disk root end_index start_index s in
      (or_invalid_input r, s')

  -- What of the file is in the buffer already goes out by one `write`, which may take less than it is
  -- given; the hasher gets all of it.
  unfoldable pub first_write : ℕ → ℕ → ℕ → Exec (Session T) IoError (Receiving Hasher)
  first_write end_index start_index file_data_length = do
    let file_data_end_index = min (start_index + file_data_length) end_index
    bytes ← buf_slice start_index file_data_end_index
    n ← lift (unwrap (disk.write bytes))
    log (wrote (take n bytes))
    left ← lift (checked_sub file_data_length (n % 2 ^ 32))
    pure (record {
      end_index = end_index;
      start_index = file_data_end_index;
      file_data_length = left;
      hasher = crc.update crc.new bytes;
    })

  -- When all data in the buffer is used up and the buffer is full, it is filled from its front again.
  unfoldable pub rewind : Receiving Hasher → Exec (Session T) IoError (Receiving Hasher)
  rewind v s = (
    ok (if v.start_index == length s.buf then record v { end_index = 0; start_index = 0 } else v),
    s,
  )

  -- The read brought more than the rest of the file.
  unfoldable pub last_chunk : Receiving Hasher → Exec (Session T) IoError (Receiving Hasher)
  unfolding write_all
  last_chunk v = do
    current_data_slice ← buf_slice v.start_index (v.start_index + v.file_data_length)
    write_all current_data_slice (disk.write_all current_data_slice)
    let start' = v.start_index + v.file_data_length
    left ← lift (checked_sub v.file_data_length (start' % 2 ^ 32))
    if not (left == 0)
        then lift panic
        else pure (record {
          end_index = v.end_index;
          start_index = start';
          file_data_length = left;
          hasher = crc.update v.hasher current_data_slice;
        })

  -- The read brought `n` bytes of the file and no more.
  unfoldable pub whole_chunk : Receiving Hasher → ℕ → Exec (Session T) IoError (Receiving Hasher)
  unfolding write_all_unwrap
  whole_chunk v n = do
    current_data_slice ← buf_slice v.start_index v.end_index
    write_all_unwrap current_data_slice (disk.write_all current_data_slice)
    left ← lift (checked_sub v.file_data_length (n % 2 ^ 32))
    pure (record {
      end_index = v.end_index;
      start_index = v.start_index + n;
      file_data_length = left;
      hasher = crc.update v.hasher current_data_slice;
    })

  unfoldable pub take_data : Receiving Hasher → ℕ → Exec (Session T) IoError (Receiving Hasher)
  take_data v n =
      if ltb (v.start_index + v.file_data_length) v.end_index then last_chunk v else whole_chunk v n

  -- The loop that receives the file. On fuel: each round that goes on has read a byte of the file, so
  -- the length that is left is enough.
  unfoldable pub receive : ℕ → Receiving Hasher → Exec (Session T) IoError (Receiving Hasher)
  receive zero v = do
    available ← lift (checked_sub v.end_index v.start_index)
    if ltb available v.file_data_length then lift stuck else pure v
  receive (suc fuel) v = do
    available ← lift (checked_sub v.end_index v.start_index)
    if not (ltb available v.file_data_length) then pure v else do
      w ← rewind v
      n ← read_data w.end_index
      if n == 0
          then raise invalid_data
          else do w' ← take_data (record w { end_index = w.end_index + n }) n; receive fuel w'

  -- The checksum that is read behind the content is compared with that of the bytes of the content.
  abbrev pub compare_checksum :
      Hasher → List ℕ → ℕ × BufferState → Exec (Session T) IoError (BufferState × List ℕ)
  compare_checksum hasher complete_file_path (received_checksum, state) =
      if not (received_checksum == crc.finalize hasher)
      then raise invalid_data
      else pure (state, complete_file_path)

  unfoldable pub save_file : List ℕ → ℕ → ℕ → Exec (Session T) IoError (BufferState × List ℕ)
  unfolding create_file
  save_file root end_index start_index = do
    (state, complete_file_path) ← make_parent root end_index start_index
    create_file complete_file_path (disk.create complete_file_path)
    end1 ← fill 4 4 state.end_index state.start_index
    length_bytes ← buf_slice state.start_index (state.start_index + 4)
    let file_data_length = order.read_u32 length_bytes
    v ← first_write end1 (state.start_index + 4) file_data_length
    w ← receive v.file_data_length v
    read_checksum crc w.end_index w.start_index >>= compare_checksum w.hasher complete_file_path
