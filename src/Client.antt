-- ===== src/Client.antt =====
-- client/client.rs: the client that sends files.
pub mod Whole
pub mod Transfer
pub mod Rest
pub mod FirstRead
pub mod Pieces
pub mod Saving
pub mod Folder
use pcopy.Prelude.{
  ℕ, zero, suc, ◌+◌, ◌-◌, ◌^◌, List, [], ◌∷◌, ◌++◌, length, take, replicate, slice, ltb, not, ◌==◌,
  if◌then◌else◌,
}
use pcopy.Prelude.BigEndian.{to_be}
use pcopy.Prelude.Outcome.{Outcome, ok, err, panic, stuck, or_panic, unwrap}
use pcopy.Prelude.Exec.{Exec, pure, lift, continue, ◌>>=◌, ◌>>◌}
use pcopy.Rust.IoError.{IoError}
use pcopy.Crates.Crc32.{Crc32}
use pcopy.Relay.Stream
use pcopy.Relay.Stream.{Stream, Delivery}
use pcopy.Server.Reader.{tcp_read}

-- The connection to the server, what the reads of the file deliver, and the buffer.
pub record Upload : Type 0 where
  pub stream : Stream
  pub reads : List Delivery
  pub buf : List ℕ

-- `u16::try_from(path.len()).unwrap().to_be_bytes()`
unfoldable pub get_length_as_u16_bytes : List ℕ → Outcome IoError (List ℕ)
get_length_as_u16_bytes path =
    if ltb (length path) (2 ^ 16) then ok (to_be 2 (length path)) else panic

unfoldable pub get_length_as_u32_bytes : List ℕ → Outcome IoError (List ℕ)
get_length_as_u32_bytes path =
    if ltb (length path) (2 ^ 32) then ok (to_be 4 (length path)) else panic

-- `Vec::resize` with zeros
unfoldable pub resize : List ℕ → ℕ → List ℕ
resize buf n = if ltb n (length buf) then take n buf else buf ++ replicate (n - length buf) 0

unfoldable pub store_read :
    Upload → Outcome IoError (ℕ × List ℕ × List Delivery) → Outcome IoError ℕ × Upload
store_read u (ok (n, buf, reads)) = (ok n, record u { buf = buf; reads = reads })
store_read u (err e) = (err e, u)
store_read u panic = (panic, u)
store_read u stuck = (stuck, u)

-- `file.read(&mut buf[start..]).unwrap()`: a read of a file is like one of a socket.
unfoldable pub read_file : ℕ → Exec Upload IoError ℕ
unfolding store_read
read_file start u = store_read u (unwrap (tcp_read u.reads u.buf start))

-- `stream.write_all(..)`, whose error is logged or dropped.
unfoldable pub write_all : List ℕ → Exec Upload IoError (Unit {0})
write_all bytes u = let (r, s) = Stream.write_all bytes u.stream in (ok tt, record u { stream = s })

unfoldable pub buf_slice : ℕ → ℕ → Exec Upload IoError (List ℕ)
buf_slice lo hi u = (or_panic (slice u.buf lo hi), u)

unfoldable pub set_buf : List ℕ → Exec Upload IoError (Unit {0})
set_buf bytes u = (ok tt, record u { buf = bytes })

module _ (crc : Crc32) where
  open crc use {Hasher, update, finalize}

  unfoldable pub get_checksum_bytes : List ℕ → ℕ
  get_checksum_bytes buf = finalize (update crc.new buf)

  -- The loop behind the first buffer, on fuel; it returns the hasher. Each round that goes on has read
  -- a byte of the file.
  unfoldable pub send_rest : ℕ → Hasher → Exec Upload IoError Hasher
  send_rest zero hasher = lift stuck
  send_rest (suc fuel) hasher = do
    n ← read_file 0
    if n == 0
        then pure hasher
        else do bytes ← buf_slice 0 n; write_all bytes; send_rest fuel (update hasher bytes)

  -- Operation, path and length of the file.
  unfoldable pub header : List ℕ → List ℕ → ℕ → List ℕ
  header length_bytes file_name_bytes file_data_len =
      2 ∷ length_bytes
      ++ (file_name_bytes
          ++ (to_be 4 (get_checksum_bytes file_name_bytes) ++ to_be 4 file_data_len))

  unfoldable pub send_first : List ℕ → Exec Upload IoError Hasher
  send_first buf = do
    let current_read_index = length buf
    set_buf (resize buf 1024)
    n ← read_file current_read_index
    bytes ← buf_slice current_read_index (current_read_index + n)
    request ← buf_slice 0 (current_read_index + n)
    write_all request
    pure (update crc.new bytes)

  -- `send_file`, behind the opening of the connection and of the file; a file that is too long for a u32
  -- is not sent.
  unfoldable pub send_file : ℕ → List ℕ → ℕ → Exec Upload IoError (Unit {0})
  unfolding header send_first
  send_file fuel file_name_bytes file_len = do
    length_bytes ← lift (get_length_as_u16_bytes file_name_bytes)
    if not (ltb file_len (2 ^ 32)) then pure tt else do
      hasher ← send_first (header length_bytes file_name_bytes file_len)
      hasher' ← send_rest fuel hasher
      write_all (to_be 4 (finalize hasher'))
