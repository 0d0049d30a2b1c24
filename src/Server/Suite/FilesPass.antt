-- ===== src/Server/Suite/FilesPass.antt =====
-- The tests of `save_file` pass.
use pcopy.Prelude.{
  ℕ, ◌+◌, ◌-◌, ◌≡◌, ◌∙◌, refl, sym, ap, arith, List, [], ◌∷◌, ◌++◌, length, length-append,
}
use pcopy.Prelude.BigEndian.{to_be, length-to_be, from_be-to_be}
use pcopy.Prelude.Outcome.{Outcome, ok}
use pcopy.Prelude.Exec.{Exec, ◌>>=◌}
use pcopy.Rust.IoError.{IoError}
use pcopy.Rust.Path.{Paths, strip_slash, join}
use pcopy.Rust.Disk.{Disk, made_folder, created, wrote}
use pcopy.Crates.ByteOrder.{ByteOrder}
use pcopy.Crates.Crc32.{Crc32}
use pcopy.Server.Reader.{ReadFromStream}
use pcopy.Server.Session.{Session, BufferState, fill, buf_slice}
use pcopy.Server.Session.Fields.{fill_enough, buf_slice_at}
use pcopy.Server.Folder.{create_parent_folder}
use pcopy.Server.Folder.Whole.{behind_fields, create_parent_folder_whole}
use pcopy.Server.File.{first_write, receive, save_file}
use pcopy.Server.File.Parts.{finish, save_file_parts}
use pcopy.Server.File.Whole.{save_file_whole}
use pcopy.Server.Suite.{
  Texts, no_data, length_and_file, no_data_stream, length_and_file_stream, get_checksum_bytes,
  checksum_of, expect_saved,
}
use pcopy.Server.Suite.Streams.{expect_saved_lem, fill_extended}
use pcopy.Server.Suite.Folders.{arrived}
use pcopy.Server.Suite.Requests.{
  FileTest, headed, request, length-headed, length-request, headed-append, pushed_path, pushed_file,
}
use pcopy.Server.Suite.Files.{
  test_save_file_whole_frame_happy,
  test_save_file_read_from_stream_file_length_and_file_data_and_checksum,
}

module _ ⦃order : ByteOrder⦄ ⦃paths : Paths⦄ (crc : Crc32) (disk : Disk) (root : List ℕ)
    (texts : Texts) (h : FileTest disk root texts) where
  abbrev pub path : List ℕ
  path = join root (strip_slash texts.get_file_name)

  -- A test passes when the state stands behind the buffer.
  expected :
      (n a b : ℕ)
      → a ≡ n
      → b ≡ n
      → expect_saved root texts.get_file_name n
          (ok (record { start_index = a; end_index = b }, path))
        ≡ ok tt
  expected n a b e f = expect_saved_lem root texts.get_file_name n a b h.rooted e f

  abbrev pub whole : List ℕ
  whole = request crc disk root texts h

  abbrev pub header : List ℕ → List ℕ
  header = headed crc disk root texts h

  abbrev k : ℕ
  k = get_checksum_bytes crc texts.get_file_name

  abbrev pub digest : ℕ
  digest = get_checksum_bytes crc texts.get_file_data

  -- Where the header ends, and where the request does.
  abbrev pub header_end : ℕ
  header_end = 1 + 2 + length texts.get_file_name + 4

  abbrev behind : ℕ
  behind = header_end + 4 + length texts.get_file_data + 4

  -- How a request that is whole in the buffer is handled.
  pub whole_run :
      {T : Type 0} ⦃reader : ReadFromStream T⦄ (stream : T)
      → save_file crc disk root (length whole) 1 (arrived stream whole) ≡ (
        ok (
          record {
            start_index =
                1 + 2 + length texts.get_file_name + 4 + 4 + length texts.get_file_data + 4;
            end_index = length whole;
          },
          path,
        ),
        record (arrived stream whole) {
          effects = made_folder h.folder ∷ created path ∷ wrote texts.get_file_data ∷ [];
        },
      )
  whole_run stream =
      save_file_whole crc disk root (arrived stream whole) (length whole) 1 k digest
        texts.get_file_name texts.get_file_data [] refl h.short (crc.finalize-lt _)
        (omega (arith, h.fits)) (crc.finalize-lt _)
        (omega (arith, length-request crc disk root texts h)) (omega arith) h.text h.folder
        h.root_text refl refl h.parent h.made h.creates (h.writes_all _)

  pub test_save_file_whole_frame_happy_lem :
      test_save_file_whole_frame_happy crc disk root texts ≡ ok tt
  unfolding test_save_file_whole_frame_happy
  test_save_file_whole_frame_happy_lem = rw (
    pushed_path crc disk root texts h,
    pushed_file crc disk root texts h,
    whole_run no_data,
    expected (length whole) behind (length whole)
        (omega (arith, length-request crc disk root texts h)) refl,
  )

  -- The header is in the buffer, with `rest` behind it.
  header_run :
      {T : Type 0} ⦃reader : ReadFromStream T⦄ (stream : T) (rest : List ℕ)
      → create_parent_folder crc disk root (length (header rest)) 1 (arrived stream (header rest))
        ≡ (
          ok (
            record {
              start_index = 1 + 2 + length texts.get_file_name + 4;
              end_index = length (header rest);
            },
            path,
          ),
          record (arrived stream (header rest)) { effects = made_folder h.folder ∷ [] },
        )
  header_run stream rest =
      create_parent_folder_whole crc disk root (arrived stream (header rest)) (length (header rest))
        1 k texts.get_file_name rest refl h.short (crc.finalize-lt _)
        (omega (arith, length-headed crc disk root texts h rest)) (omega arith) h.text h.folder
        h.root_text refl h.parent h.made

  -- What a test makes of a buffer, and when it passes.
  abbrev pub outcome :
      {T : Type 0} → ⦃reader : ReadFromStream T⦄ → T → List ℕ → Outcome IoError (Unit {0})
  outcome stream buf =
      let run = save_file crc disk root (length buf) 1 (arrived stream buf) in
      expect_saved root texts.get_file_name (length run.1.buf) run.0

  pub outcome_lem :
      {T : Type 0} ⦃reader : ReadFromStream T⦄ (stream : T) (buf : List ℕ) (a b : ℕ) (t : Session T)
      → save_file crc disk root (length buf) 1 (arrived stream buf)
        ≡ (ok (record { start_index = a; end_index = b }, path), t)
      → a ≡ length t.buf
      → b ≡ length t.buf
      → outcome stream buf ≡ ok tt
  outcome_lem stream buf a b t run e f = rw (run, expected (length t.buf) a b e f)

  -- The state when the file is created, with `buf` in the buffer.
  abbrev pub created_with : {T : Type 0} → T → List ℕ → Session T
  created_with stream buf = record (arrived stream buf) {
    effects = made_folder h.folder ∷ created path ∷ [];
  }

  -- The length of the file, when the header and `field` are in the buffer.
  length_at :
      {T : Type 0} (stream : T) (rest : List ℕ)
      → buf_slice header_end
          (header_end + 4)
          (created_with stream (header (to_be 4 (length texts.get_file_data) ++ rest)))
        ≡ (
          ok (to_be 4 (length texts.get_file_data)),
          created_with stream (header (to_be 4 (length texts.get_file_data) ++ rest)),
        )
  length_at stream rest =
      let field : List ℕ = to_be 4 (length texts.get_file_data) in
      buf_slice_at (created_with stream (header (field ++ rest))) header_end 4 field rest
        (behind_fields (header (field ++ rest)) 1 k texts.get_file_name (field ++ rest) refl)
        (length-to_be 4 (length texts.get_file_data))
        (omega (arith, length-headed crc disk root texts h (field ++ rest)))

  read_length : order.read_u32 (to_be 4 (length texts.get_file_data)) ≡ length texts.get_file_data
  read_length =
      order.read_u32_lem (to_be 4 (length texts.get_file_data))
        (length-to_be 4 (length texts.get_file_data))
      ∙ from_be-to_be 4 (length texts.get_file_data) (omega (arith, h.fits))

  -- What `save_file` does behind the length of the file.
  abbrev pub receiving :
      {T : Type 0}
      → ⦃reader : ReadFromStream T⦄ → ℕ
      → Exec (Session T) IoError (BufferState × List ℕ)
  receiving end = first_write crc disk end (header_end + 4) (length texts.get_file_data) >>= λ v.
      receive crc disk v.file_data_length v >>= finish crc disk path

  -- The length of the file is in the buffer.
  pub length_run :
      {T : Type 0} ⦃reader : ReadFromStream T⦄ (stream : T) (rest : List ℕ)
      → (let buf = header (to_be 4 (length texts.get_file_data) ++ rest) in
          save_file crc disk root (length buf) 1 (arrived stream buf)
          ≡ receiving (length buf) (created_with stream buf))
  length_run stream rest =
      let field : List ℕ = to_be 4 (length texts.get_file_data) in
      let buf : List ℕ = header (field ++ rest) in
      save_file_parts crc disk root path (length buf) 1 header_end (length buf) (length buf)
        (length texts.get_file_data) field (arrived stream buf) _ (created_with stream buf)
        (header_run stream (field ++ rest)) h.creates
        (fill_enough (created_with stream buf) 4 4 (length buf) header_end (
          omega (
            arith,
            length-headed crc disk root texts h (field ++ rest),
            length-append field rest,
            length-to_be 4 (length texts.get_file_data),
          )))
        (length_at stream rest) read_length

  pub test_save_file_read_from_stream_file_length_and_file_data_and_checksum_lem :
      test_save_file_read_from_stream_file_length_and_file_data_and_checksum crc disk root texts
      ≡ ok tt
  unfolding test_save_file_read_from_stream_file_length_and_file_data_and_checksum
  test_save_file_read_from_stream_file_length_and_file_data_and_checksum_lem =
      let r = length_and_file_stream crc texts in
      let buf : List ℕ = header [] in
      let field : List ℕ = to_be 4 (length texts.get_file_data) in
      let rest : List ℕ = texts.get_file_data ++ (checksum_of crc texts.get_file_data ++ []) in
      let ext : List ℕ = field ++ rest in
      let all : buf ++ ext ≡ whole = headed-append crc disk root texts h [] ext in
      let total : length buf + length ext ≡ length whole =
        sym (length-append buf ext) ∙ ap length all in
      let grown : length whole - length buf ≡ length ext = omega (arith, total) in
      let s = created_with length_and_file buf in
      let fills : fill ⦃reader = r⦄ 4 4 (length buf) header_end s
          ≡ (ok (length whole), created_with length_and_file whole) =
        fill_extended ⦃reader = r⦄ s ext 4 4 header_end (length buf)
          (rw (pushed_file crc disk root texts h, grown, all) refl) (omega arith)
          (omega (arith, length-headed crc disk root texts h []))
          (omega (arith, length-headed crc disk root texts h []))
          (omega (
            arith,
            length-headed crc disk root texts h [],
            total,
            length-request crc disk root texts h,
          ))
        ∙ rw (total, all) refl in
      let run =
        save_file_parts ⦃reader = r⦄ crc disk root path (length buf) 1 header_end (length buf)
          (length whole) (length texts.get_file_data) field (arrived length_and_file buf) _
          (created_with length_and_file whole) (header_run ⦃reader = r⦄ length_and_file [])
          h.creates fills (length_at length_and_file rest) read_length
        ∙ sym (length_run ⦃reader = r⦄ length_and_file rest)
        ∙ whole_run ⦃reader = r⦄ length_and_file in
      rw (
        pushed_path crc disk root texts h,
        run,
        expected (length whole) behind (length whole)
            (omega (arith, length-request crc disk root texts h)) refl,
      )
