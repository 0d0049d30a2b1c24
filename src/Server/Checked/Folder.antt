-- ===== src/Server/Checked/Folder.antt =====
-- A request for a folder writes no bytes.
use pcopy.Prelude.{
  ℕ, ◌+◌, ◌≡◌, ◌∙◌, List, append-nil, ◌==◌, Bool-cases, inl, inr, Option, none, some,
}
use pcopy.Prelude.Outcome.{Outcome, ok, err, panic, stuck}
use pcopy.Rust.IoError.{IoError}
use pcopy.Rust.Path.{Paths, strip_slash, join}
use pcopy.Rust.Disk.{Disk, made_folder, written}
use pcopy.Crates.ByteOrder.{ByteOrder}
use pcopy.Crates.Crc32.{Crc32}
use pcopy.Server.Reader.{ReadFromStream}
use pcopy.Server.Session.{Session, BufferState, fill, buf_slice, log, read_checksum}
use pcopy.Server.Folder.{parent_folder, make_folder, save_under, create_parent_folder}
use pcopy.Server.Checked.{
  Post, >>=-Post, Wrote, log-Wrote, buf_slice-Post, fill-Wrote, read_checksum-OfBytes,
}

module _ {T : Type 0} ⦃reader : ReadFromStream T⦄ ⦃order : ByteOrder⦄ ⦃paths : Paths⦄ (crc : Crc32)
    (disk : Disk) (root : List ℕ) (w : List ℕ) where
  lift-Wrote :
      {A : Type 0} (o : Outcome IoError A) (s : Session T)
      → written s.effects ≡ w
      → Post (Wrote w) (o, s)
  lift-Wrote (ok a) s h = h
  lift-Wrote (err e) s h = tt
  lift-Wrote panic s h = tt
  lift-Wrote stuck s h = tt

  make_folder-Wrote :
      (folder : List ℕ) (o : Option IoError) (s : Session T)
      → written s.effects ≡ w
      → Post (Wrote w) (make_folder crc disk root folder o s)
  unfolding make_folder log
  make_folder-Wrote folder none s h =
      log-Wrote (made_folder folder) w s h ∙ unfold written in append-nil w
  make_folder-Wrote folder (some e) s h = tt

  save_under-Wrote :
      (p : List ℕ) (k : ℕ) (state : BufferState) (s : Session T)
      → written s.effects ≡ w
      → Post (Wrote w) (save_under crc disk root p k state s)
  unfolding save_under
  save_under-Wrote p k state s h = elim (Bool-cases (crc.finalize (crc.update crc.new p) == k)) [
    | inr differ ↦ rw differ tt
    | inl right ↦
        let path = join root (strip_slash p) in
        rw right (
          >>=-Post (Wrote w) _ (λ t. (parent_folder path, t)) _ s
            (lift-Wrote (parent_folder path) s h)
            λ folder t kept.
              >>=-Post (Wrote w) _ (make_folder crc disk root folder (disk.create_dir_all folder)) _
                t (make_folder-Wrote folder (disk.create_dir_all folder) t kept)
                λ made u kept'. elim (Bool-cases (paths.is_utf8 path)) [
                  | inl text ↦ rw text kept'
                  | inr other ↦ rw other tt
                ])
  ]

  pub create_parent_folder-Wrote :
      (end start : ℕ) (s : Session T)
      → written s.effects ≡ w
      → Post (Wrote w) (create_parent_folder crc disk root end start s)
  unfolding create_parent_folder
  create_parent_folder-Wrote end start s h =
      >>=-Post (Wrote w) _ (fill 2 2 end start) _ s (fill-Wrote 2 2 end start w s h)
        λ end1 s1 kept1.
          >>=-Post _ _ (buf_slice start (start + 2)) _ s1 (buf_slice-Post start (start + 2) s1)
            λ bytes s2 (cut, same).
              let n = order.read_u16 bytes in
              >>=-Post (Wrote w) _ (fill n n end1 (start + 2)) _ s2
                (fill-Wrote n n end1 (start + 2) w s2 (rw same kept1))
                λ end2 s3 kept3.
                  >>=-Post _ _ (buf_slice (start + 2) (start + 2 + n)) _ s3
                    (buf_slice-Post (start + 2) (start + 2 + n) s3)
                    λ p s4 (cut', same'). elim (Bool-cases (paths.is_utf8 p)) [
                      | inr other ↦ rw other tt
                      | inl text ↦ rw text (
                          >>=-Post _ _ (read_checksum crc end2 (start + 2 + n)) _ s4
                            (read_checksum-OfBytes crc end2 (start + 2 + n) w s4 (rw same' kept3))
                            λ read s5 (of, kept5). save_under-Wrote p read.0 read.1 s5 kept5)
                    ]
