-- ===== src/Server/File/Whole.antt =====
-- A request for a file that is whole in the buffer.
use pcopy.Prelude.{
  ◌≢◌, ◌∙◌, false, not, ◌==◌, if◌then◌else◌, ℕ, ◌+◌, ◌-◌, ◌^◌, ◌≤◌, ◌<◌, ◌≡◌, refl, arith, List, [],
  ◌∷◌, ◌++◌, length, drop, drop_behind, true, none,
}
use pcopy.Prelude.BigEndian.{to_be, length-to_be, from_be-to_be}
use pcopy.Prelude.Outcome.{ok, err}
use pcopy.Prelude.Exec.{raise, pure}
use pcopy.Rust.IoError.{invalid_data}
use pcopy.Rust.Path.{Paths, strip_slash, join}
use pcopy.Rust.Disk.{Disk, made_folder, created, wrote}
use pcopy.Crates.ByteOrder.{ByteOrder}
use pcopy.Crates.Crc32.{Crc32}
use pcopy.Server.Reader.{ReadFromStream}
use pcopy.Server.Session.{Session, BufferState, log}
use pcopy.Server.Session.Fields.{fill_enough, buf_slice_at, read_checksum_at}
use pcopy.Server.Folder.{parent_folder}
use pcopy.Server.Folder.Whole.{path_fields, behind_fields, create_parent_folder_whole}
use pcopy.Server.File.Parts.{first_write-got, receive_done}
use pcopy.Server.File.{first_write, save_file, make_parent, create_file}

module _ {T : Type 0} ⦃reader : ReadFromStream T⦄ ⦃order : ByteOrder⦄ ⦃paths : Paths⦄ (crc : Crc32)
    (disk : Disk) (s : Session T) (end start : ℕ) where
  -- Where the first write takes all of the file, nothing of it is left.
  pub first_write_whole :
      (content after : List ℕ)
      → drop start s.buf ≡ content ++ after
      → length content < 2 ^ 32
      → start + length content ≤ end
      → end ≤ length s.buf
      → disk.write content ≡ ok (length content)
      → first_write crc disk end start (length content) s ≡ (
        ok (record {
          end_index = end;
          start_index = start + length content;
          file_data_length = 0;
          hasher = crc.update crc.new content;
        }),
        record s { effects = s.effects ++ wrote content ∷ [] },
      )
  first_write_whole content after here fits there room writes =
      let none_left : length content - length content ≡ 0 = omega arith in
      first_write-got crc disk s start end (length content) content after here (omega arith)
        (omega arith) (omega arith) fits writes
      ∙ rw none_left refl

-- The fields behind the path: the length of the file, the file and its checksum.
abbrev pub file_fields : List ℕ → ℕ → List ℕ → List ℕ
file_fields content k rest = to_be 4 (length content) ++ (content ++ (to_be 4 k ++ rest))

module _ {T : Type 0} ⦃reader : ReadFromStream T⦄ ⦃order : ByteOrder⦄ ⦃paths : Paths⦄ (crc : Crc32)
    (disk : Disk) (root : List ℕ) (s : Session T) (end start k m : ℕ) (p content rest : List ℕ)
    (bytes : drop start s.buf ≡ path_fields p k (file_fields content m rest))
    (short : length p < 2 ^ 16) (small : k < 2 ^ 32) (fits : length content < 2 ^ 32)
    (small' : m < 2 ^ 32) (there : start + (14 + length p + length content) ≤ end)
    (room : end ≤ length s.buf) (text : paths.is_utf8 p ≡ true) where
  abbrev path : List ℕ
  path = join root (strip_slash p)

  abbrev behind : BufferState
  behind = record {
    start_index = start + 2 + length p + 4 + 4 + length content + 4;
    end_index = end;
  }

  -- The folder is made, the file is created and its content is written.
  abbrev saved : List ℕ → Session T
  saved folder = record s {
    effects = ((s.effects ++ made_folder folder ∷ []) ++ created path ∷ []) ++ wrote content ∷ [];
  }

  save_file_at :
      (folder : List ℕ)
      → paths.is_utf8 root ≡ true
      → crc.finalize (crc.update crc.new p) ≡ k
      → parent_folder path ≡ ok folder
      → disk.create_dir_all folder ≡ none
      → disk.create path ≡ none
      → disk.write content ≡ ok (length content)
      → save_file crc disk root end start s
        ≡ (if not (m == crc.finalize (crc.update crc.new content))
              then raise invalid_data
              else pure (behind, path))
            (saved folder)
  unfolding save_file make_parent create_file log
  save_file_at folder root_text right parent made create writes =
      let start1 = start + 2 + length p + 4 in
      let s1 : Session T = record s { effects = s.effects ++ made_folder folder ∷ [] } in
      let s2 : Session T = record s1 { effects = s1.effects ++ created path ∷ [] } in
      let s3 : Session T = record s2 { effects = s2.effects ++ wrote content ∷ [] } in
      let size = length-to_be 4 (length content) in
      let at_length : drop start1 s.buf ≡ file_fields content m rest =
        behind_fields s.buf start k p (file_fields content m rest) bytes in
      let at_content : drop (start1 + 4) s.buf ≡ content ++ (to_be 4 m ++ rest) =
        drop_behind s.buf start1 4 (to_be 4 (length content)) _ at_length size in
      let at_checksum : drop (start1 + 4 + length content) s.buf ≡ to_be 4 m ++ rest =
        drop_behind s.buf (start1 + 4) (length content) content _ at_content refl in
      rw
        (
          create_parent_folder_whole crc disk root s end start k p (file_fields content m rest)
              bytes short small (omega arith) room text folder root_text right parent made,
          create,
          fill_enough s2 4 4 end start1 (omega arith),
          buf_slice_at s2 start1 4 (to_be 4 (length content)) _ at_length size (omega arith),
          order.read_u32_lem (to_be 4 (length content)) size,
          from_be-to_be 4 (length content) (omega arith),
          first_write_whole crc disk s2 end (start1 + 4) content _ at_content fits (omega arith)
              room writes,
          receive_done crc disk 0
              (record {
                end_index = end;
                start_index = start1 + 4 + length content;
                file_data_length = 0;
                hasher = crc.update crc.new content;
              })
              s3 (omega arith) refl,
          read_checksum_at s3 crc end (start1 + 4 + length content) m rest at_checksum small'
              (omega arith) room,
        )
        refl

  -- A request for a file that is whole in the buffer, with its checksums right, makes the folder of the
  -- path under the root, creates the file and writes exactly its content to it; the path comes back, and
  -- the state stands behind the request. This holds where the disk takes what it is asked, the content
  -- in one write.
  pub save_file_whole :
      (folder : List ℕ)
      → paths.is_utf8 root ≡ true
      → crc.finalize (crc.update crc.new p) ≡ k
      → crc.finalize (crc.update crc.new content) ≡ m
      → parent_folder path ≡ ok folder
      → disk.create_dir_all folder ≡ none
      → disk.create path ≡ none
      → disk.write content ≡ ok (length content)
      → save_file crc disk root end start s ≡ (ok (behind, path), saved folder)
  save_file_whole folder root_text right right' parent made create writes =
      let same : (m == crc.finalize (crc.update crc.new content)) ≡ true = ground arith in
      save_file_at folder root_text right parent made create writes ∙ rw same

  -- Where the checksum of the content is wrong, the request fails with `InvalidData`, but the file is
  -- there with all of the content.
  save_file_mismatch :
      (folder : List ℕ)
      → paths.is_utf8 root ≡ true
      → crc.finalize (crc.update crc.new p) ≡ k
      → crc.finalize (crc.update crc.new content) ≢ m
      → parent_folder path ≡ ok folder
      → disk.create_dir_all folder ≡ none
      → disk.create path ≡ none
      → disk.write content ≡ ok (length content)
      → save_file crc disk root end start s ≡ (err invalid_data, saved folder)
  save_file_mismatch folder root_text right wrong parent made create writes =
      let differ : (m == crc.finalize (crc.update crc.new content)) ≡ false = ground arith in
      save_file_at folder root_text right parent made create writes ∙ rw differ
