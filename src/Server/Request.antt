-- ===== src/Server/Request.antt =====
-- server/server.rs: `Server::run`, for one connection.
pub mod Whole
use pcopy.Prelude.{ℕ, List, [], ◌∷◌, ◌==◌, if◌then◌else◌, replicate, Option, none, some}
use pcopy.Prelude.BigEndian.{to_be}
use pcopy.Prelude.Outcome.{Outcome, ok, err, panic, stuck}
use pcopy.Prelude.Exec.{Exec, continue}
use pcopy.Rust.IoError.{IoError}
use pcopy.Rust.Path.{Paths}
use pcopy.Rust.Disk.{Disk}
use pcopy.Crates.ByteOrder.{ByteOrder}
use pcopy.Crates.Crc32.{Crc32}
use pcopy.Server.Reader.{ReadFromStream}
use pcopy.Server.Session.{Session, read_data}
use pcopy.Server.Folder.{create_parent_folder}
use pcopy.Server.File.{save_file}

-- `enum Operation`
abbrev pub create_parent_folder_op : ℕ
create_parent_folder_op = 1

abbrev pub save_file_op : ℕ
save_file_op = 2

-- 1 is OK, -1 is ERROR, as an i16.
abbrev pub ok_reply : List ℕ
ok_reply = to_be 2 1

abbrev pub error_reply : List ℕ
error_reply = to_be 2 0xffff

-- The reply to a folder: the write of the error is never awaited, so it is not made. A panic ends the
-- task.
unfoldable pub folder_reply {ℓ} : {A : Type ℓ} → Outcome IoError A → Outcome IoError (List ℕ)
folder_reply (ok a) = ok ok_reply
folder_reply (err e) = ok []
folder_reply panic = panic
folder_reply stuck = stuck

unfoldable pub file_reply {ℓ} : {A : Type ℓ} → Outcome IoError A → Outcome IoError (List ℕ)
file_reply (ok a) = ok ok_reply
file_reply (err e) = ok error_reply
file_reply panic = panic
file_reply stuck = stuck

-- `buf[0]`
unfoldable pub first_byte : List ℕ → Option ℕ
first_byte [] = none
first_byte (x ∷ xs) = some x

module _ {T : Type 0} ⦃reader : ReadFromStream T⦄ ⦃order : ByteOrder⦄ ⦃paths : Paths⦄ (crc : Crc32)
    (disk : Disk) (root : List ℕ) where
  -- The first byte says what is asked for; `n` bytes are in the buffer.
  unfoldable pub dispatch : Option ℕ → ℕ → Exec (Session T) IoError (List ℕ)
  unfolding folder_reply file_reply
  dispatch none n s = (panic, s)
  dispatch (some op) n s =
      if op == create_parent_folder_op
      then (let (r, s') = create_parent_folder crc disk root n 1 s in (folder_reply r, s'))
      else if op == save_file_op
      then (let (r, s') = save_file crc disk root n 1 s in (file_reply r, s'))
      else (ok [], s)

  -- What is written back on a new connection; the buffer has 1024 bytes.
  unfoldable pub serve : T → Outcome IoError (List ℕ) × Session T
  serve socket =
      let s : Session T = record { socket = socket; buf = replicate 1024 0; effects = [] } in
      let (r, s1) = read_data 0 s in
      continue r
        (λ n s2. if n == 0 then (ok error_reply, s2) else dispatch (first_byte s2.buf) n s2) s1
