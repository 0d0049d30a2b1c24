-- ===== src/Server/Suite/AtOnce.antt =====
-- The test of `save_file` in which the content and its checksum are read at once passes.
use pcopy.Prelude.{
  ℕ, suc, ◌+◌, ◌-◌, ◌≡◌, ◌∙◌, refl, sym, ap, arith, List, [], ◌∷◌, ◌++◌, length, append_assoc,
  append-nil, length-append, drop, drop-append, ltb_of_lt, ltb_of_le, ==_of_eq, ◌==◌, false,
}
use mathlib.Core.Path.{ap₂}
use pcopy.Prelude.BigEndian.{to_be, length-to_be}
use pcopy.Prelude.Outcome.{ok}
use pcopy.Rust.Path.{Paths}
use pcopy.Rust.Disk.{Disk, wrote}
use pcopy.Crates.ByteOrder.{ByteOrder}
use pcopy.Crates.Crc32.{Crc32}
use pcopy.Server.Reader.{ReadFromStream}
use pcopy.Server.Session.{Session}
use pcopy.Server.File.{first_write, receive, save_file}
use pcopy.Server.Suite.{
  Texts, file_and_checksum, no_data_stream, TcpStreamTestStreamFileDataAndChecksum,
  file_and_checksum_stream, checksum_of,
}
use pcopy.Server.Suite.Folders.{arrived}
use pcopy.Server.Suite.Requests.{FileTest, length-headed, pushed_path, length_of_data}
use pcopy.Server.Suite.Files.{test_save_file_read_from_stream_file_data_and_checksum}
use pcopy.Server.File.Parts.{first_write-got, receive_done}
use pcopy.Server.File.Overread.{take_data_overread}
use pcopy.Server.Session.{checked_sub, read_data, store}
use pcopy.Server.Session.Fields.{read_checksum_at}
use pcopy.Server.File.{Receiving, rewind}
use pcopy.Server.Suite.FilesPass.{
  path, outcome, outcome_lem, header, digest, header_end, created_with, receiving, length_run,
}
use pcopy.Server.Suite.FilesRead.{data_at}

module _ ⦃order : ByteOrder⦄ ⦃paths : Paths⦄ (crc : Crc32) (disk : Disk) (root : List ℕ)
    (texts : Texts) (h : FileTest disk root texts) where
  abbrev size : ℕ
  size = length texts.get_file_data

  abbrev stream : ReadFromStream TcpStreamTestStreamFileDataAndChecksum
  stream = file_and_checksum_stream crc texts

  -- The loop reads the content and its checksum at once, to the front of the buffer.
  received_at_once :
      (fuel e : ℕ) (hasher : crc.Hasher) (s : Session TcpStreamTestStreamFileDataAndChecksum)
      → e ≡ length s.buf
      → (let rest = texts.get_file_data ++ checksum_of crc texts.get_file_data in
          receive ⦃reader = file_and_checksum_stream crc texts⦄ crc disk
            (suc fuel)
            (record { end_index = e; start_index = e; file_data_length = size; hasher = hasher })
            s
          ≡ (
            ok (record {
              end_index = 0 + (size + 4);
              start_index = 0 + size;
              file_data_length = 0;
              hasher = crc.update hasher texts.get_file_data;
            }),
            record s { buf = rest; effects = s.effects ++ wrote texts.get_file_data ∷ [] },
          ))
  unfolding receive checked_sub rewind read_data store
  received_at_once fuel e hasher s full =
      let r = file_and_checksum_stream crc texts in
      let rest : List ℕ = texts.get_file_data ++ checksum_of crc texts.get_file_data in
      let t = record s { buf = rest } in
      let nothing : e - e ≡ 0 = omega arith in
      let some_bytes : (size + 4 == 0) ≡ false = ground arith in
      let four : length (checksum_of crc texts.get_file_data) ≡ 4 =
        length-to_be 4 (digest crc disk root texts h) in
      let total : length rest ≡ size + 4 =
        omega
          (arith, length-append texts.get_file_data (checksum_of crc texts.get_file_data), four) in
      rw
        (
          ltb_of_le e e (omega arith),
          nothing,
          ltb_of_lt 0 size h.some_data,
          ==_of_eq e (length s.buf) full,
          some_bytes,
          take_data_overread ⦃reader = r⦄ crc disk t
              (record {
                end_index = 0 + (size + 4);
                start_index = 0;
                file_data_length = size;
                hasher = hasher;
              })
              (size + 4) texts.get_file_data (checksum_of crc texts.get_file_data) refl refl
              (omega arith) (omega (arith, total)) (omega (arith, h.fits)) (h.takes_all _),
        )
        (receive_done ⦃reader = r⦄ crc disk fuel
          (record {
            end_index = 0 + (size + 4);
            start_index = 0 + size;
            file_data_length = 0;
            hasher = crc.update hasher texts.get_file_data;
          })
          (record t { effects = s.effects ++ wrote texts.get_file_data ∷ [] }) (omega arith) refl)

  -- The header and the length of the file are in the buffer, and `rest` comes.
  abbrev buf : List ℕ
  buf = header crc disk root texts h (to_be 4 size ++ [])

  abbrev rest : List ℕ
  rest = texts.get_file_data ++ checksum_of crc texts.get_file_data

  abbrev data_start : ℕ
  data_start = header_end crc disk root texts h + 4

  length-buf : length buf ≡ data_start
  length-buf = omega (
    arith,
    length-headed crc disk root texts h (to_be 4 size ++ []),
    length-append (to_be 4 size) [],
    length-to_be 4 size,
  )

  length-rest : length rest ≡ size + 4
  length-rest = omega (
    arith,
    length-append texts.get_file_data (checksum_of crc texts.get_file_data),
    length-to_be 4 (digest crc disk root texts h),
  )

  -- The states when the file is created, when the first write has written nothing, and when the content
  -- is written.
  abbrev open_file : Session TcpStreamTestStreamFileDataAndChecksum
  open_file = created_with crc disk root texts h file_and_checksum buf

  abbrev empty_file : Session TcpStreamTestStreamFileDataAndChecksum
  empty_file = record open_file { effects = open_file.effects ++ wrote [] ∷ [] }

  abbrev full_file : Session TcpStreamTestStreamFileDataAndChecksum
  full_file = record empty_file {
    buf = rest;
    effects = empty_file.effects ++ wrote texts.get_file_data ∷ [];
  }

  abbrev nothing_yet : Receiving crc.Hasher
  nothing_yet = record {
    end_index = data_start;
    start_index = data_start;
    file_data_length = size;
    hasher = crc.update crc.new [];
  }

  written :
      first_write ⦃reader = stream⦄ crc disk data_start data_start size open_file
      ≡ (ok nothing_yet, empty_file)
  written =
      let start : data_start + length {A = ℕ} [] ≡ data_start = omega arith in
      let left : size - length {A = ℕ} [] ≡ size = omega arith in
      first_write-got ⦃reader = stream⦄ crc disk open_file data_start data_start size [] []
        (data_at crc disk root texts h []) (omega arith) (omega (arith, length-buf)) (omega arith)
        (omega (arith, h.fits)) (h.writes_all [])
      ∙ ap₂
          (λ (a b : ℕ).
            (ok (record nothing_yet { start_index = a; file_data_length = b }), empty_file))
          start left

  received : receive ⦃reader = stream⦄ crc disk size nothing_yet empty_file ≡ (
    ok (record {
      end_index = 0 + (size + 4);
      start_index = 0 + size;
      file_data_length = 0;
      hasher = crc.update nothing_yet.hasher texts.get_file_data;
    }),
    full_file,
  )
  received =
      let some : size ≡ suc (size - 1) = omega (arith, h.some_data) in
      ap (λ n. receive ⦃reader = stream⦄ crc disk n nothing_yet empty_file) some
      ∙ received_at_once (size - 1) data_start nothing_yet.hasher empty_file (sym length-buf)

  at_once_run :
      save_file ⦃reader = stream⦄ crc disk root (length buf) 1 (arrived file_and_checksum buf) ≡ (
        ok (
          record { start_index = 0 + size + 4; end_index = 0 + (size + 4) },
          path crc disk root texts h,
        ),
        full_file,
      )
  at_once_run =
      let checksum : List ℕ = checksum_of crc texts.get_file_data in
      let here : drop (0 + size) rest ≡ checksum ++ [] =
        drop-append (0 + size) texts.get_file_data checksum (omega arith)
        ∙ sym (append-nil checksum) in
      let read =
        read_checksum_at full_file ⦃reader = stream⦄ crc (0 + (size + 4)) (0 + size)
          (digest crc disk root texts h) [] here (crc.finalize-lt _) (omega arith)
          (omega (arith, length-rest)) in
      let right : crc.finalize (crc.update nothing_yet.hasher texts.get_file_data)
          ≡ digest crc disk root texts h =
        crc.update-update crc.new [] texts.get_file_data in
      length_run crc disk root texts h ⦃reader = stream⦄ file_and_checksum []
      ∙ ap (λ n. receiving crc disk root texts h ⦃reader = stream⦄ n open_file) length-buf
      ∙ (rw (
        written,
        received,
        read,
        right,
        ==_of_eq (digest crc disk root texts h) (digest crc disk root texts h) refl,
      ))

  pub test_save_file_read_from_stream_file_data_and_checksum_lem :
      test_save_file_read_from_stream_file_data_and_checksum crc disk root texts ≡ ok tt
  unfolding test_save_file_read_from_stream_file_data_and_checksum
  test_save_file_read_from_stream_file_data_and_checksum_lem =
      let shape : header crc disk root texts h [] ++ to_be 4 size ≡ buf =
        simp (append_assoc, append-nil) in
      rw (pushed_path crc disk root texts h, length_of_data crc disk root texts h)
        (ap (outcome crc disk root texts h ⦃reader = stream⦄ file_and_checksum) shape
          ∙ outcome_lem crc disk root texts h ⦃reader = stream⦄ file_and_checksum buf (0 + size + 4)
              (0 + (size + 4)) full_file at_once_run (omega (arith, length-rest))
              (omega (arith, length-rest)))
