-- ===== src/Server/Folder/Whole.antt =====
-- A request for a folder that is whole in the buffer.
use pcopy.Prelude.{
  ℕ, ◌+◌, ◌^◌, ◌≤◌, ◌<◌, ◌≡◌, ◌≢◌, refl, arith, List, [], ◌∷◌, ◌++◌, length, drop, drop_behind,
  true, false, none, Bool-cases, inl, inr, ◌==◌, ==_of_eq,
}
use pcopy.Prelude.BigEndian.{to_be, length-to_be, from_be-to_be}
use pcopy.Prelude.Outcome.{ok, err}
use pcopy.Rust.IoError.{other}
use pcopy.Rust.Path.{Paths, strip_slash, join, slash}
use pcopy.Rust.Disk.{Disk, made_folder}
use pcopy.Crates.ByteOrder.{ByteOrder}
use pcopy.Crates.Crc32.{Crc32}
use pcopy.Server.Reader.{ReadFromStream}
use pcopy.Server.Session.{Session, BufferState, log}
use pcopy.Server.Session.Fields.{fill_enough, buf_slice_at, read_checksum_at}
use pcopy.Server.Folder.{parent_folder, save_under, create_parent_folder}

-- The fields behind the operation: the length of the path, the path and its checksum.
abbrev pub path_fields : List ℕ → ℕ → List ℕ → List ℕ
path_fields p k rest = to_be 2 (length p) ++ (p ++ (to_be 4 k ++ rest))

-- What stands behind them.
pub behind_fields :
    (buf : List ℕ) (start k : ℕ) (p rest : List ℕ)
    → drop start buf ≡ path_fields p k rest
    → drop (start + 2 + length p + 4) buf ≡ rest
behind_fields buf start k p rest e =
    let at_path = drop_behind buf start 2 (to_be 2 (length p)) _ e (length-to_be 2 (length p)) in
    let at_checksum = drop_behind buf (start + 2) (length p) p _ at_path refl in
    drop_behind buf (start + 2 + length p) 4 (to_be 4 k) rest at_checksum (length-to_be 4 k)

-- A path that is text stays text under a root that is text.
pub is_utf8-strip_slash :
    ⦃paths : Paths⦄ (p : List ℕ) → paths.is_utf8 p ≡ true → paths.is_utf8 (strip_slash p) ≡ true
unfolding strip_slash
is_utf8-strip_slash ⦃paths⦄ [] h = h
is_utf8-strip_slash ⦃paths⦄ (x ∷ xs) h = elim (Bool-cases (x == slash)) [
  | inl cut ↦ rw cut (paths.is_utf8-tail x xs (ground arith) h)
  | inr whole ↦ rw whole h
]

pub is_utf8-join :
    ⦃paths : Paths⦄ (root p : List ℕ)
    → paths.is_utf8 root ≡ true
    → paths.is_utf8 p ≡ true
    → paths.is_utf8 (join root p) ≡ true
unfolding join
is_utf8-join ⦃paths⦄ root [] hr hp =
    paths.is_utf8-append root (slash ∷ []) hr (paths.is_utf8-ascii (slash ∷ []) (omega arith))
is_utf8-join ⦃paths⦄ root (x ∷ xs) hr hp = elim (Bool-cases (x == slash)) [
  | inl absolute ↦ rw absolute hp
  | inr relative ↦ rw relative (
      paths.is_utf8-append root (slash ∷ x ∷ xs) hr (
        paths.is_utf8-append (slash ∷ []) (x ∷ xs) (paths.is_utf8-ascii (slash ∷ []) (omega arith))
          hp))
]

module _ {T : Type 0} ⦃reader : ReadFromStream T⦄ ⦃order : ByteOrder⦄ ⦃paths : Paths⦄ (crc : Crc32)
    (disk : Disk) (root : List ℕ) (s : Session T) (end start k : ℕ) (p rest : List ℕ)
    (bytes : drop start s.buf ≡ path_fields p k rest) (short : length p < 2 ^ 16)
    (small : k < 2 ^ 32) (there : start + (6 + length p) ≤ end) (room : end ≤ length s.buf)
    (text : paths.is_utf8 p ≡ true) where
  -- Where the fields are read off.
  abbrev behind : BufferState
  behind = record { start_index = start + 2 + length p + 4; end_index = end }

  create_parent_folder_at :
      create_parent_folder crc disk root end start s ≡ save_under crc disk root p k behind s
  unfolding create_parent_folder
  create_parent_folder_at =
      let size : length (to_be 2 (length p)) ≡ 2 = length-to_be 2 (length p) in
      let at_path : drop (start + 2) s.buf ≡ p ++ (to_be 4 k ++ rest) =
        drop_behind s.buf start 2 (to_be 2 (length p)) _ bytes size in
      let at_checksum : drop (start + 2 + length p) s.buf ≡ to_be 4 k ++ rest =
        drop_behind s.buf (start + 2) (length p) p _ at_path refl in
      rw (
        fill_enough s 2 2 end start (omega arith),
        buf_slice_at s start 2 (to_be 2 (length p)) _ bytes size (omega arith),
        order.read_u16_lem (to_be 2 (length p)) size,
        from_be-to_be 2 (length p) (omega arith),
        fill_enough s (length p) (length p) end (start + 2) (omega arith),
        buf_slice_at s (start + 2) (length p) p _ at_path refl (omega arith),
        text,
        read_checksum_at s crc end (start + 2 + length p) k rest at_checksum small (omega arith)
            room,
      )

  -- A path with another checksum than the one sent is refused, and nothing is done on the disk.
  create_parent_folder_mismatch :
      crc.finalize (crc.update crc.new p) ≢ k
      → create_parent_folder crc disk root end start s ≡ (err other, s)
  unfolding save_under
  create_parent_folder_mismatch wrong =
      let differ : (crc.finalize (crc.update crc.new p) == k) ≡ false = ground arith in
      rw (create_parent_folder_at, differ)

  -- A path with its checksum makes the folder that it names under the root; the path comes back, and the
  -- state stands behind the fields.
  pub create_parent_folder_whole :
      (folder : List ℕ)
      → paths.is_utf8 root ≡ true
      → crc.finalize (crc.update crc.new p) ≡ k
      → parent_folder (join root (strip_slash p)) ≡ ok folder
      → disk.create_dir_all folder ≡ none
      → create_parent_folder crc disk root end start s ≡ (
        ok (behind, join root (strip_slash p)),
        record s { effects = s.effects ++ made_folder folder ∷ [] },
      )
  unfolding save_under log
  create_parent_folder_whole folder root_text right parent made =
      let joined : paths.is_utf8 (join root (strip_slash p)) ≡ true =
        is_utf8-join root (strip_slash p) root_text (is_utf8-strip_slash p text) in
      rw (
        create_parent_folder_at,
        ==_of_eq (crc.finalize (crc.update crc.new p)) k right,
        parent,
        made,
        joined,
      )
