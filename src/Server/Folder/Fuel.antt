-- ===== src/Server/Folder/Fuel.antt =====
-- The fuel of a request for a folder is enough.
use pcopy.Prelude.{ℕ, ◌+◌, arith, List, Bool-cases, inl, inr, ◌==◌, Option, none, some}
use pcopy.Prelude.Outcome.{Ends, or_panic, ◌>>=◌ as and_then}
use pcopy.Prelude.Exec.{>>=-Ends}
use pcopy.Rust.IoError.{IoError}
use pcopy.Rust.Path.{Paths, strip_slash, join}
use pcopy.Rust.Disk.{Disk}
use pcopy.Crates.ByteOrder.{ByteOrder}
use pcopy.Crates.Crc32.{Crc32}
use pcopy.Server.Reader.{ReadFromStream}
use pcopy.Server.Session.{Session, BufferState, fill, buf_slice, log, read_checksum}
use pcopy.Server.Session.Fuel.{fill-Ends}
use pcopy.Server.Folder.{parent_folder, make_folder, save_under, create_parent_folder}

pub or_panic-Ends : {A : Type 0} (E : Type 0) (o : Option A) → Ends (or_panic {E = E} o)
or_panic-Ends E none = tt
or_panic-Ends E (some a) = tt

parent_folder-Ends : ⦃paths : Paths⦄ (path : List ℕ) → Ends (parent_folder path)
unfolding parent_folder
parent_folder-Ends ⦃paths⦄ path = elim (Bool-cases (paths.ends_with_root path)) [
  | inl root ↦ rw root (twice (paths.parent path))
  | inr inside ↦ rw inside (or_panic-Ends IoError (paths.parent path))
]
  where
    twice :
        (o : Option (List ℕ))
        → Ends (and_then (or_panic {E = IoError} o) (λ up. or_panic (paths.parent up)))
    twice none = tt
    twice (some up) = or_panic-Ends IoError (paths.parent up)

module _ {T : Type 0} ⦃reader : ReadFromStream T⦄ ⦃order : ByteOrder⦄ ⦃paths : Paths⦄ (crc : Crc32)
    (disk : Disk) (root : List ℕ)
    (reads : (t : T) (buf : List ℕ) (i : ℕ) → Ends (reader.read_data t buf i)) where
  buf_slice-Ends : (lo hi : ℕ) (s : Session T) → Ends (buf_slice lo hi s).0
  unfolding buf_slice
  buf_slice-Ends lo hi s = or_panic-Ends IoError _

  make_folder-Ends :
      (folder : List ℕ) (o : Option IoError) (s : Session T)
      → Ends (make_folder crc disk root folder o s).0
  unfolding make_folder log
  make_folder-Ends folder none s = tt
  make_folder-Ends folder (some e) s = tt

  read_checksum-Ends : (end start : ℕ) (s : Session T) → Ends (read_checksum crc end start s).0
  unfolding read_checksum
  read_checksum-Ends end start s =
      >>=-Ends (fill 4 4 end start) _ s (fill-Ends reads 4 4 end start s (omega arith)) λ end' e.
        >>=-Ends (buf_slice start (start + 4)) _ (fill 4 4 end start s).1
          (buf_slice-Ends start (start + 4) (fill 4 4 end start s).1) (λ bytes f. tt)

  save_under-Ends :
      (p : List ℕ) (k : ℕ) (state : BufferState) (s : Session T)
      → Ends (save_under crc disk root p k state s).0
  unfolding save_under
  save_under-Ends p k state s = elim (Bool-cases (crc.finalize (crc.update crc.new p) == k)) [
    | inr differ ↦ rw differ tt
    | inl same ↦
        let path = join root (strip_slash p) in
        rw same (
          >>=-Ends (λ t. (parent_folder path, t)) _ s (parent_folder-Ends path)
            λ folder e.
              >>=-Ends (make_folder crc disk root folder (disk.create_dir_all folder)) _ s
                (make_folder-Ends folder (disk.create_dir_all folder) s)
                λ made f. elim (Bool-cases (paths.is_utf8 path)) [
                  | inl text ↦ rw text tt
                  | inr other ↦ rw other tt
                ])
  ]

  -- A request for a folder is never short of fuel: it comes to a result, an error or a panic, whatever
  -- the reader delivers and the disk answers.
  create_parent_folder-Ends :
      (end start : ℕ) (s : Session T) → Ends (create_parent_folder crc disk root end start s).0
  unfolding create_parent_folder
  create_parent_folder-Ends end start s =
      >>=-Ends (fill 2 2 end start) _ s (fill-Ends reads 2 2 end start s (omega arith)) λ end1 e1.
        >>=-Ends (buf_slice start (start + 2)) _ _ (buf_slice-Ends start (start + 2) _) λ bytes e2.
          let n = order.read_u16 bytes in
          >>=-Ends (fill n n end1 (start + 2)) _ _
            (fill-Ends reads n n end1 (start + 2) _ (omega arith))
            λ end2 e3.
              >>=-Ends (buf_slice (start + 2) (start + 2 + n)) _ _
                (buf_slice-Ends (start + 2) (start + 2 + n) _)
                λ p e4. elim (Bool-cases (paths.is_utf8 p)) [
                  | inr other ↦ rw other tt
                  | inl text ↦ rw text (
                      >>=-Ends (read_checksum crc end2 (start + 2 + n)) _ _
                        (read_checksum-Ends end2 (start + 2 + n) _)
                        λ read e5. save_under-Ends p read.0 read.1 _)
                ]
