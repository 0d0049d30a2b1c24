-- ===== src/Server/Suite.antt =====
-- server/server.rs, `mod tests`: streams in the place of a connection, and what the tests share.
pub mod Streams
pub mod Folders
pub mod Files
pub mod Requests
pub mod FilesPass
pub mod FilesRead
pub mod AtOnce
pub mod Passes
pub mod FoldersPass
use pcopy.Prelude.{
  ℕ, ◌+◌, ◌-◌, ◌^◌, List, [], ◌∷◌, ◌++◌, length, ltb, ◌==◌, if◌then◌else◌, slice, Option, none,
  some,
}
use pcopy.Prelude.BigEndian.{to_be}
use pcopy.Prelude.Outcome.{Outcome, ok, err, panic, stuck, ◌>>=◌, or_panic}
use pcopy.Rust.Text.{same_text}
use pcopy.Rust.Assert.{assert}
use pcopy.Rust.IoError.{IoError}
use pcopy.Rust.Path.{Paths}
use pcopy.Crates.Crc32.{Crc32}
use pcopy.Server.Reader.{ReadFromStream}
use pcopy.Server.Session.{Session, BufferState}

-- The texts that the tests use, as bytes; what is proved of the tests holds for any texts.
pub record Texts : Type 0 where
  pub get_folder_name : List ℕ
  pub get_file_name : List ℕ
  pub get_file_data : List ℕ

-- `try_from(path.len()).unwrap().to_be_bytes()`
unfoldable pub get_length_as_u16_bytes : List ℕ → Outcome IoError (List ℕ)
get_length_as_u16_bytes path =
    if ltb (length path) (2 ^ 16) then ok (to_be 2 (length path)) else panic

unfoldable pub get_length_as_u32_bytes : List ℕ → Outcome IoError (List ℕ)
get_length_as_u32_bytes path =
    if ltb (length path) (2 ^ 32) then ok (to_be 4 (length path)) else panic

pub data TcpStreamTestStreamNoData : Type 0 where
  no_data : TcpStreamTestStreamNoData

pub data TcpStreamTestStreamAllData : Type 0 where
  all_data : TcpStreamTestStreamAllData

pub data TcpStreamTestStreamWriteFolderNameAndChecksum : Type 0 where
  folder_name_and_checksum : TcpStreamTestStreamWriteFolderNameAndChecksum

pub data TcpStreamTestStreamWriteChecksum : Type 0 where
  folder_checksum : TcpStreamTestStreamWriteChecksum

pub data TcpStreamTestStreamFileDataChecksum : Type 0 where
  file_checksum : TcpStreamTestStreamFileDataChecksum

pub data TcpStreamTestStreamFileDataAndChecksum : Type 0 where
  file_and_checksum : TcpStreamTestStreamFileDataAndChecksum

pub data TcpStreamTestStreamFileDataLengthAndFileDataAndChecksum : Type 0 where
  length_and_file : TcpStreamTestStreamFileDataLengthAndFileDataAndChecksum

instance abbrev pub no_data_stream : ReadFromStream TcpStreamTestStreamNoData
no_data_stream = record { read_data = λ t buf i. ok (0, buf, t) }

-- A stream that puts bytes behind what is in the buffer; it returns how many.
abbrev pub extended : {T : Type 0} → T → List ℕ → List ℕ → Outcome IoError (ℕ × List ℕ × T)
extended t buf bytes = let buf' = buf ++ bytes in ok (length buf' - length buf, buf', t)

module _ (crc : Crc32) where
  abbrev pub get_checksum_bytes : List ℕ → ℕ
  get_checksum_bytes buf = crc.finalize (crc.update crc.new buf)

  -- `get_checksum_bytes(..).to_be_bytes().to_vec()`
  abbrev pub checksum_of : List ℕ → List ℕ
  checksum_of buf = to_be 4 (get_checksum_bytes buf)

  -- | length | path | checksum |
  unfoldable pub push_path : List ℕ → List ℕ → Outcome IoError (List ℕ)
  push_path buf path = do
    length_bytes ← get_length_as_u16_bytes path
    ok (((buf ++ length_bytes) ++ path) ++ checksum_of path)

  -- | length | content | checksum |
  unfoldable pub push_file : List ℕ → List ℕ → Outcome IoError (List ℕ)
  push_file buf file_data = do
    length_bytes ← get_length_as_u32_bytes file_data
    ok (((buf ++ length_bytes) ++ file_data) ++ checksum_of file_data)

module _ (crc : Crc32) (texts : Texts) where
  open texts use {get_folder_name, get_file_data}

  -- The log is on in the tests, so the text that it takes of the buffer is unwrapped.
  abbrev pub all_data_stream : ⦃paths : Paths⦄ → ReadFromStream TcpStreamTestStreamAllData
  all_data_stream ⦃paths⦄ = record {
    read_data = λ t buf i. do
      buf' ← push_path crc buf get_folder_name
      if paths.is_utf8 buf' then ok (length buf' - length buf, buf', t) else panic;
  }

  abbrev pub folder_name_and_checksum_stream :
      ReadFromStream TcpStreamTestStreamWriteFolderNameAndChecksum
  folder_name_and_checksum_stream = record {
    read_data = λ t buf i. extended t buf (get_folder_name ++ checksum_of crc get_folder_name);
  }

  abbrev pub folder_checksum_stream : ReadFromStream TcpStreamTestStreamWriteChecksum
  folder_checksum_stream = record {
    read_data = λ t buf i. extended t buf (checksum_of crc get_folder_name);
  }

  abbrev pub file_checksum_stream : ReadFromStream TcpStreamTestStreamFileDataChecksum
  file_checksum_stream = record {
    read_data = λ t buf i. extended t buf (checksum_of crc get_file_data);
  }

  -- From the front of the buffer, what is in the buffer is replaced.
  abbrev pub file_and_checksum_stream : ReadFromStream TcpStreamTestStreamFileDataAndChecksum
  file_and_checksum_stream = record {
    read_data = λ t buf i.
        let front = if i == 0 then get_file_data else buf ++ get_file_data in
        let bytes_written = if i == 0 then length front else length get_file_data in
        ok (bytes_written + 4, front ++ checksum_of crc get_file_data, t);
  }

  abbrev pub length_and_file_stream :
      ReadFromStream TcpStreamTestStreamFileDataLengthAndFileDataAndChecksum
  length_and_file_stream = record {
    read_data = λ t buf i. do
      buf' ← push_file crc buf get_file_data
      ok (length buf' - length buf, buf', t);
  }

-- What a test expects of a request that is saved: the state behind the buffer, of length `n`, and the
-- path under the root. A test that fails panics.
unfoldable pub expect_saved :
    List ℕ → List ℕ → ℕ → Outcome IoError (BufferState × List ℕ) → Outcome IoError (Unit {0})
unfolding same_text
expect_saved root name n (ok (buffer_state, path)) = do
  _ ← assert (buffer_state.start_index == n)
  _ ← assert (buffer_state.end_index == n)
  created ← or_panic (slice path (length root) (length path))
  assert (same_text name created)
expect_saved root name n (err e) = panic
expect_saved root name n panic = panic
expect_saved root name n stuck = stuck
