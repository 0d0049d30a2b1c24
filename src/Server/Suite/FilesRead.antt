-- ===== src/Server/Suite/FilesRead.antt =====
-- The tests of `save_file` in which the content or its checksum is read from the stream pass.
use pcopy.Prelude.{
  ℕ, ◌+◌, ◌-◌, ◌≡◌, ◌∙◌, refl, sym, ap, arith, List, [], ◌∷◌, ◌++◌, length, append_assoc,
  append-nil, length-append, drop, drop_behind, ==_of_eq,
}
use pcopy.Prelude.BigEndian.{to_be, length-to_be}
use pcopy.Prelude.Outcome.{ok}
use pcopy.Rust.Path.{Paths}
use pcopy.Rust.Disk.{Disk, wrote}
use pcopy.Crates.ByteOrder.{ByteOrder}
use pcopy.Crates.Crc32.{Crc32}
use pcopy.Server.Folder.Whole.{behind_fields}
use pcopy.Server.File.{save_file}
use pcopy.Server.Suite.{
  TcpStreamTestStreamFileDataChecksum, Texts, file_checksum, no_data_stream, file_checksum_stream,
  get_checksum_bytes, checksum_of,
}
use pcopy.Server.Suite.Streams.{read_checksum_extended}
use pcopy.Server.Suite.Folders.{arrived}
use pcopy.Server.Reader.{ReadFromStream}
use pcopy.Server.Session.{Session}
use pcopy.Server.File.{Receiving, first_write}
use pcopy.Server.Suite.Requests.{FileTest, length-headed, pushed_path, length_of_data}
use pcopy.Server.Suite.Files.{test_save_file_read_from_stream_checksum}
use pcopy.Server.File.Whole.{first_write_whole}
use pcopy.Server.File.Parts.{receive_done}
use pcopy.Server.Suite.FilesPass.{
  path, outcome, outcome_lem, header, digest, header_end, created_with, receiving, length_run,
}

module _ ⦃order : ByteOrder⦄ ⦃paths : Paths⦄ (crc : Crc32) (disk : Disk) (root : List ℕ)
    (texts : Texts) (h : FileTest disk root texts) where
  abbrev pub size : ℕ
  size = length texts.get_file_data

  abbrev data_end : ℕ
  data_end = header_end crc disk root texts h + 4 + size

  -- What stands behind the length of the file.
  pub data_at :
      (rest : List ℕ)
      → drop
          (header_end crc disk root texts h + 4)
          (header crc disk root texts h (to_be 4 size ++ rest))
        ≡ rest
  data_at rest =
      drop_behind (header crc disk root texts h (to_be 4 size ++ rest))
        (header_end crc disk root texts h) 4 (to_be 4 size) rest
        (behind_fields (header crc disk root texts h (to_be 4 size ++ rest)) 1
          (get_checksum_bytes crc texts.get_file_name) texts.get_file_name (to_be 4 size ++ rest)
          refl)
        (length-to_be 4 size)

  abbrev stream : ReadFromStream TcpStreamTestStreamFileDataChecksum
  stream = file_checksum_stream crc texts

  -- The content is in the buffer and its checksum is not.
  abbrev buf : List ℕ
  buf = header crc disk root texts h (to_be 4 size ++ texts.get_file_data)

  abbrev checksum : List ℕ
  checksum = checksum_of crc texts.get_file_data

  length-buf : length buf ≡ data_end
  length-buf = omega (
    arith,
    length-headed crc disk root texts h (to_be 4 size ++ texts.get_file_data),
    length-append (to_be 4 size) texts.get_file_data,
    length-to_be 4 size,
  )

  -- The state when the file is created, and when the content is written.
  abbrev open_file : Session TcpStreamTestStreamFileDataChecksum
  open_file = created_with crc disk root texts h file_checksum buf

  abbrev full_file : Session TcpStreamTestStreamFileDataChecksum
  full_file = record open_file { effects = open_file.effects ++ wrote texts.get_file_data ∷ [] }

  abbrev whole_file : Receiving crc.Hasher
  whole_file = record {
    end_index = data_end;
    start_index = data_end;
    file_data_length = 0;
    hasher = crc.update crc.new texts.get_file_data;
  }

  written :
      first_write ⦃reader = stream⦄ crc disk data_end
        (header_end crc disk root texts h + 4)
        size
        open_file
      ≡ (ok whole_file, full_file)
  written =
      first_write_whole ⦃reader = stream⦄ crc disk open_file data_end
        (header_end crc disk root texts h + 4) texts.get_file_data []
        (data_at texts.get_file_data ∙ sym (append-nil _)) (omega (arith, h.fits)) (omega arith)
        (omega (arith, length-buf)) (h.writes_all _)

  checksum_run :
      save_file ⦃reader = stream⦄ crc disk root (length buf) 1 (arrived file_checksum buf) ≡ (
        ok (
          record { start_index = data_end + 4; end_index = data_end + 4 },
          path crc disk root texts h,
        ),
        record full_file { buf = buf ++ checksum },
      )
  checksum_run =
      let grown : length (buf ++ checksum) - length buf ≡ length checksum =
        omega (arith, length-append buf checksum) in
      let received =
        receive_done ⦃reader = stream⦄ crc disk 0 whole_file full_file (omega arith) refl in
      let read =
        read_checksum_extended ⦃reader = stream⦄ full_file checksum crc
          (digest crc disk root texts h) data_end (rw grown refl) refl (crc.finalize-lt _)
          (sym length-buf) in
      length_run crc disk root texts h ⦃reader = stream⦄ file_checksum texts.get_file_data
      ∙ ap (λ e. receiving crc disk root texts h ⦃reader = stream⦄ e open_file) length-buf
      ∙ (rw (
        written,
        received,
        read,
        ==_of_eq (digest crc disk root texts h) (digest crc disk root texts h) refl,
      ))

  pub test_save_file_read_from_stream_checksum_lem :
      test_save_file_read_from_stream_checksum crc disk root texts ≡ ok tt
  unfolding test_save_file_read_from_stream_checksum
  test_save_file_read_from_stream_checksum_lem =
      let shape : (header crc disk root texts h [] ++ to_be 4 size) ++ texts.get_file_data ≡ buf =
        simp (append_assoc, append-nil) in
      let ends : data_end + 4 ≡ length (buf ++ checksum) = omega (
        arith,
        length-append buf checksum,
        length-buf,
        length-to_be 4 (digest crc disk root texts h),
      ) in
      rw (pushed_path crc disk root texts h, length_of_data crc disk root texts h)
        (ap (outcome crc disk root texts h ⦃reader = stream⦄ file_checksum) shape
          ∙ outcome_lem crc disk root texts h ⦃reader = stream⦄ file_checksum buf (data_end + 4)
              (data_end + 4) _ checksum_run ends ends)
