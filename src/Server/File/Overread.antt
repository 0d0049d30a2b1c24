-- ===== src/Server/File/Overread.antt =====
-- The read that brings the end of the file together with what follows it.
use pcopy.Prelude.{
  ℕ, ◌+◌, ◌-◌, ◌%◌, ◌^◌, ◌≤◌, ◌<◌, ◌≡◌, arith, List, [], ◌∷◌, ◌++◌, length, drop, none, ltb_of_lt,
  ltb_of_le, ◌==◌, ==_iff, Bool-cases, inl, inr, if◌then◌else◌,
}
use pcopy.Prelude.Outcome.{ok, panic}
use pcopy.Rust.Path.{Paths}
use pcopy.Rust.Disk.{Disk, wrote}
use pcopy.Crates.ByteOrder.{ByteOrder}
use pcopy.Crates.Crc32.{Crc32}
use pcopy.Server.Reader.{ReadFromStream}
use pcopy.Server.Session.{Session, checked_sub, log}
use pcopy.Server.Session.Fields.{buf_slice_at}
use pcopy.Server.File.{Receiving, last_chunk, take_data}

module _ {T : Type 0} ⦃reader : ReadFromStream T⦄ ⦃order : ByteOrder⦄ ⦃paths : Paths⦄ (crc : Crc32)
    (disk : Disk) (s : Session T) (v : Receiving crc.Hasher) (n : ℕ) (end_of_file after : List ℕ)
    (here : drop v.start_index s.buf ≡ end_of_file ++ after)
    (size : length end_of_file ≡ v.file_data_length)
    (more : v.start_index + v.file_data_length < v.end_index) (room : v.end_index ≤ length s.buf)
    (fits : v.start_index + v.file_data_length < 2 ^ 32)
    (writes : disk.write_all end_of_file ≡ none) where
  -- When a read brings the end of a file with a byte behind it, the end of the file is written; the
  -- loop then goes on with nothing left of the file if the buffer was filled from its front, and panics
  -- if it was filled from any other index. This holds where the disk takes the bytes and the indices
  -- are below 2 ^ 32.
  pub take_data_overread : take_data crc disk v n s ≡ (
    if v.start_index == 0
        then ok (record {
          end_index = v.end_index;
          start_index = v.start_index + v.file_data_length;
          file_data_length = 0;
          hasher = crc.update v.hasher end_of_file;
        })
        else panic,
    record s { effects = s.effects ++ wrote end_of_file ∷ [] },
  )
  unfolding take_data last_chunk log checked_sub
  take_data_overread =
      let cut : (v.start_index + v.file_data_length) % 2 ^ 32 ≡ v.start_index + v.file_data_length =
        omega arith in
      let sliced =
        buf_slice_at s v.start_index v.file_data_length end_of_file after here size (omega arith) in
      let over = ltb_of_lt (v.start_index + v.file_data_length) v.end_index more in
      elim (Bool-cases (v.start_index == 0)) [
        | inl front ↦
            let zero_start : v.start_index ≡ 0 = (==_iff v.start_index 0).0 front in
            let left : v.file_data_length - (v.start_index + v.file_data_length) ≡ 0 =
              omega arith in
            rw (
              over,
              sliced,
              writes,
              cut,
              ltb_of_le v.file_data_length (v.start_index + v.file_data_length) (omega arith),
              left,
              front,
            )
        | inr behind ↦ rw (
          over,
          sliced,
          writes,
          cut,
          ltb_of_lt v.file_data_length (v.start_index + v.file_data_length) (ground arith),
          behind,
        )
      ]
