-- ===== src/Server/Request/Whole.antt =====
-- A request for a file that arrives by one read.
use pcopy.Prelude.{
  ℕ, ◌+◌, ◌-◌, ◌^◌, ◌≤◌, ◌<◌, ◌≡◌, refl, arith, min, List, [], ◌∷◌, ◌++◌, length, drop, replicate,
  take_all, append_assoc, length-append, true, none, ltb_of_le, ==_of_eq, ◌==◌, false,
}
use pcopy.Prelude.BigEndian.{to_be, length-to_be}
use pcopy.Prelude.Outcome.{ok}
use pcopy.Rust.Path.{Paths, strip_slash, join}
use pcopy.Rust.Disk.{Disk, made_folder, created, wrote}
use pcopy.Crates.ByteOrder.{ByteOrder}
use pcopy.Crates.Crc32.{Crc32}
use pcopy.Relay.Stream.{Delivery, chunk}
use pcopy.Server.Reader.{tcp_stream, tcp_read, overwrite, left_over}
use pcopy.Server.Session.{Session, read_data}
use pcopy.Server.Folder.{parent_folder}
use pcopy.Server.Folder.Whole.{path_fields}
use pcopy.Server.File.Whole.{file_fields, save_file_whole}
use pcopy.Server.Request.{serve, dispatch, first_byte, ok_reply}

-- The bytes of a request to save a file.
abbrev pub save_request : List ℕ → ℕ → List ℕ → ℕ → List ℕ
save_request p k content m = 2 ∷ path_fields p k (file_fields content m [])

fields-append :
    (p : List ℕ) (k : ℕ) (content : List ℕ) (m : ℕ) (more : List ℕ)
    → path_fields p k (file_fields content m []) ++ more
      ≡ path_fields p k (file_fields content m more)
fields-append p k content m more = rw (
  append_assoc (to_be 2 (length p)),
  append_assoc p,
  append_assoc (to_be 4 k),
  append_assoc (to_be 4 (length content)),
  append_assoc content,
  append_assoc (to_be 4 m),
)

length-fields :
    (p : List ℕ) (k : ℕ) (content : List ℕ) (m : ℕ) (more : List ℕ)
    → length (path_fields p k (file_fields content m more))
      ≡ 14 + length p + length content + length more
length-fields p k content m more = omega (
  arith,
  length-append (to_be 2 (length p)) (p ++ (to_be 4 k ++ file_fields content m more)),
  length-append p (to_be 4 k ++ file_fields content m more),
  length-append (to_be 4 k) (file_fields content m more),
  length-append (to_be 4 (length content)) (content ++ (to_be 4 m ++ more)),
  length-append content (to_be 4 m ++ more),
  length-append (to_be 4 m) more,
  length-to_be 2 (length p),
  length-to_be 4 k,
  length-to_be 4 (length content),
  length-to_be 4 m,
)

-- A chunk that fits is read as a whole, to the front of the buffer.
read_chunk :
    (bytes : List ℕ) (later : List Delivery) (buf : List ℕ)
    → length bytes ≤ length buf
    → tcp_read (chunk bytes ∷ later) buf 0
      ≡ ok (length bytes, bytes ++ drop (length bytes) buf, later)
unfolding tcp_read overwrite left_over
read_chunk bytes later buf h =
    let all : min (length bytes) (length buf - 0) ≡ length bytes = omega arith in
    let front : 0 + length bytes ≡ length bytes = omega arith in
    let same = ==_of_eq (length bytes) (length bytes) refl in
    rw (ltb_of_le (length buf) 0 (omega arith), all, take_all bytes, front, same)

module _ ⦃order : ByteOrder⦄ ⦃paths : Paths⦄ (crc : Crc32) (disk : Disk) (root : List ℕ) (k m : ℕ)
    (p content : List ℕ) (small : k < 2 ^ 32) (small' : m < 2 ^ 32)
    (size : 15 + length p + length content ≤ 1024) (text : paths.is_utf8 p ≡ true) where
  abbrev path : List ℕ
  path = join root (strip_slash p)

  -- The session behind the first read, and its session when the file is saved.
  abbrev arrived : List Delivery → Session (List Delivery)
  arrived later = record {
    socket = later;
    buf =
        save_request p k content m ++ drop (length (save_request p k content m)) (replicate 1024 0);
    effects = [];
  }

  abbrev finished : List Delivery → List ℕ → Session (List Delivery)
  finished later folder = record (arrived later) {
    effects = made_folder folder ∷ created path ∷ wrote content ∷ [];
  }

  length-request : length (save_request p k content m) ≡ 15 + length p + length content
  length-request = omega (arith, length-fields p k content m [])

  -- A connection on which a request to save a file arrives by one read is answered by OK, and the server
  -- has made the folder of the path under its root, created the file and written exactly its content.
  -- This holds for right checksums, a request of at most 1024 bytes and a disk that takes what it is
  -- asked, the content in one write.
  pub serve_whole :
      (later : List Delivery) (folder : List ℕ)
      → paths.is_utf8 root ≡ true
      → crc.finalize (crc.update crc.new p) ≡ k
      → crc.finalize (crc.update crc.new content) ≡ m
      → parent_folder path ≡ ok folder
      → disk.create_dir_all folder ≡ none
      → disk.create path ≡ none
      → disk.write content ≡ ok (length content)
      → serve crc disk root (chunk (save_request p k content m) ∷ later)
        ≡ (ok ok_reply, finished later folder)
  unfolding serve dispatch read_data first_byte
  serve_whole later folder root_text right right' parent made create writes =
      let request : List ℕ = save_request p k content m in
      let busy : (length request == 0) ≡ false = ground arith in
      let zeros : List ℕ = drop (length request) (replicate 1024 0) in
      let room : length request ≤ length (arrived later).buf =
        omega (arith, length-append request zeros) in
      let there : 1 + (14 + length p + length content) ≤ length request =
        omega (arith, length-request) in
      rw (
        read_chunk request later (replicate 1024 0) (omega (arith, length-request)),
        save_file_whole crc disk root (arrived later) (length request) 1 k m p content zeros
            (fields-append p k content m zeros) (omega arith) small (omega arith) small' there room
            text folder root_text right right' parent made create writes,
        busy,
      )
