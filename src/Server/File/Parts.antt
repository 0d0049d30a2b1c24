-- ===== src/Server/File/Parts.antt =====
-- The first write of a file, and the loop when nothing of the file is left.
use pcopy.Prelude.{
  ℕ, zero, suc, ◌+◌, ◌-◌, ◌%◌, ◌^◌, ◌≤◌, ◌<◌, ◌≡◌, refl, arith, min, List, [], ◌∷◌, ◌++◌, length,
  drop, take_all, ltb_of_le, none,
}
use pcopy.Prelude.Outcome.{ok}
use pcopy.Prelude.Exec.{Exec, ◌>>=◌}
use pcopy.Rust.IoError.{IoError}
use pcopy.Rust.Path.{Paths}
use pcopy.Rust.Disk.{Disk, created, wrote}
use pcopy.Crates.ByteOrder.{ByteOrder}
use pcopy.Crates.Crc32.{Crc32}
use pcopy.Server.Reader.{ReadFromStream}
use pcopy.Server.Session.{Session, BufferState, checked_sub, log, fill, buf_slice, read_checksum}
use pcopy.Server.Folder.{create_parent_folder}
use pcopy.Server.Session.Fields.{buf_slice_at}
use pcopy.Server.File.{
  Receiving, first_write, receive, make_parent, create_file, compare_checksum, save_file,
}

module _ {T : Type 0} ⦃reader : ReadFromStream T⦄ ⦃order : ByteOrder⦄ ⦃paths : Paths⦄ (crc : Crc32)
    (disk : Disk) where
  -- The first write takes what is in the buffer of the file.
  pub first_write-got :
      (s : Session T) (start end n : ℕ) (got behind : List ℕ)
      → drop start s.buf ≡ got ++ behind
      → min (start + n) end ≡ start + length got
      → start + length got ≤ length s.buf
      → length got ≤ n
      → n < 2 ^ 32
      → disk.write got ≡ ok (length got)
      → first_write crc disk end start n s ≡ (
        ok (record {
          end_index = end;
          start_index = start + length got;
          file_data_length = n - length got;
          hasher = crc.update crc.new got;
        }),
        record s { effects = s.effects ++ wrote got ∷ [] },
      )
  unfolding first_write checked_sub log
  first_write-got s start end n got behind here upto room within small writes =
      let cut : length got % 2 ^ 32 ≡ length got = omega arith in
      rw (
        upto,
        buf_slice_at s start (length got) got behind here refl (omega arith),
        writes,
        take_all got,
        cut,
        ltb_of_le n (length got) within,
      )

  -- Nothing of the file is left.
  pub receive_done :
      (fuel : ℕ) (v : Receiving crc.Hasher) (s : Session T)
      → v.start_index ≤ v.end_index
      → v.file_data_length ≡ 0
      → receive crc disk fuel v s ≡ (ok v, s)
  unfolding receive checked_sub
  receive_done zero v s order none_left = rw (
    ltb_of_le v.end_index v.start_index order,
    ltb_of_le (v.end_index - v.start_index) v.file_data_length (omega arith),
  )
  receive_done (suc fuel) v s order none_left = rw (
    ltb_of_le v.end_index v.start_index order,
    ltb_of_le (v.end_index - v.start_index) v.file_data_length (omega arith),
  )

  -- What `save_file` does with the checksum of the content.
  abbrev pub finish :
      List ℕ → Receiving crc.Hasher → Exec (Session T) IoError (BufferState × List ℕ)
  finish path w =
      read_checksum crc w.end_index w.start_index >>= compare_checksum crc disk w.hasher path

  -- The parts of `save_file`, one behind the other.
  pub save_file_parts :
      (root path : List ℕ) (end start a b c n : ℕ) (length_field : List ℕ) (s t1 t2 : Session T)
      → create_parent_folder crc disk root end start s
        ≡ (ok (record { start_index = a; end_index = b }, path), t1)
      → disk.create path ≡ none
      → fill 4 4 b a (record t1 { effects = t1.effects ++ created path ∷ [] }) ≡ (ok c, t2)
      → buf_slice a (a + 4) t2 ≡ (ok length_field, t2)
      → order.read_u32 length_field ≡ n
      → save_file crc disk root end start s
        ≡ (first_write crc disk c (a + 4) n >>= λ v.
              receive crc disk v.file_data_length v >>= finish path)
            t2
  unfolding save_file make_parent create_file log
  save_file_parts root path end start a b c n length_field s t1 t2 e1 creates e2 e3 e4 =
      rw (e1, creates, e2, e3, e4)
