-- ===== src/Server/Bounds/Folder.antt =====
-- The indices behind a request for a folder.
use pcopy.Prelude.{
  ℕ, ◌+◌, ◌≤◌, ◌≡◌, arith, List, length, ◌==◌, Bool-cases, inl, inr, Option, none, some,
}
use pcopy.Prelude.Outcome.{or_panic, ◌>>=◌ as and_then}
use pcopy.Rust.IoError.{IoError}
use pcopy.Rust.Path.{Paths, strip_slash, join}
use pcopy.Rust.Disk.{Disk}
use pcopy.Crates.ByteOrder.{ByteOrder}
use pcopy.Crates.Crc32.{Crc32}
use pcopy.Relay.Stream.{Delivery}
use pcopy.Server.Reader.{tcp_stream}
use pcopy.Server.Session.{Session, BufferState, fill, buf_slice, log, read_checksum}
use pcopy.Server.Folder.{parent_folder, make_folder, save_under, create_parent_folder}
use pcopy.Server.Bounds.{
  Result, Sound, Any, >>=-Sound, fill-Sound, slice-Sound, InOrder, read_checksum-Sound,
}

parent_folder-Result : ⦃paths : Paths⦄ (path : List ℕ) → Result Any (parent_folder path)
unfolding parent_folder
parent_folder-Result ⦃paths⦄ path = elim (Bool-cases (paths.ends_with_root path)) [
  | inl root ↦ rw root (twice (paths.parent path))
  | inr inside ↦ rw inside (once (paths.parent path))
]
  where
    once : (o : Option (List ℕ)) → Result Any (or_panic o)
    once none = tt
    once (some up) = tt

    twice :
        (o : Option (List ℕ))
        → Result Any (and_then (or_panic o) (λ up. or_panic (paths.parent up)))
    twice none = tt
    twice (some up) = once (paths.parent up)

module _ ⦃order : ByteOrder⦄ ⦃paths : Paths⦄ (crc : Crc32) (disk : Disk) (root : List ℕ)
    (size : ℕ) where
  make_folder-Sound :
      (folder : List ℕ) (o : Option IoError) (s : Session (List Delivery))
      → length s.buf ≡ size
      → Sound size Any (make_folder crc disk root folder o s)
  unfolding make_folder log
  make_folder-Sound folder none s same = (tt, same)
  make_folder-Sound folder (some e) s same = (tt, same)

  save_under-Sound :
      (p : List ℕ) (k : ℕ) (state : BufferState) (s : Session (List Delivery))
      → length s.buf ≡ size
      → InOrder size state
      → Sound size
          (λ (r : BufferState × List ℕ). InOrder size r.0)
          (save_under crc disk root p k state s)
  unfolding save_under
  save_under-Sound p k state s same ordered =
      elim (Bool-cases (crc.finalize (crc.update crc.new p) == k)) [
        | inr differ ↦ rw differ (tt, same)
        | inl right ↦
            let path = join root (strip_slash p) in
            rw right (
              >>=-Sound size Any _ (λ t. (parent_folder path, t)) _ s
                (parent_folder-Result path, same)
                λ folder t found kept.
                  >>=-Sound size Any _
                    (make_folder crc disk root folder (disk.create_dir_all folder)) _ t
                    (make_folder-Sound folder (disk.create_dir_all folder) t kept)
                    λ made u done kept'. elim (Bool-cases (paths.is_utf8 path)) [
                      | inl text ↦ rw text (ordered, kept')
                      | inr other ↦ rw other (tt, kept')
                    ])
      ]

  pub create_parent_folder-Sound :
      (end start : ℕ) (s : Session (List Delivery))
      → length s.buf ≡ size
      → end ≤ size
      → Sound size
          (λ (r : BufferState × List ℕ). InOrder size r.0)
          (create_parent_folder crc disk root end start s)
  unfolding create_parent_folder
  create_parent_folder-Sound end start s same room =
      >>=-Sound size _ _ (fill 2 2 end start) _ s
        (fill-Sound size 2 2 end start s same (omega arith) room)
        λ end1 s1 low1 kept1.
          >>=-Sound size Any _ (buf_slice start (start + 2)) _ s1
            (slice-Sound size start (start + 2) s1 kept1)
            λ bytes s2 cut kept2.
              let n = order.read_u16 bytes in
              >>=-Sound size _ _ (fill n n end1 (start + 2)) _ s2
                (fill-Sound size n n end1 (start + 2) s2 kept2 (omega arith) low1.1)
                λ end2 s3 low2 kept3.
                  >>=-Sound size Any _ (buf_slice (start + 2) (start + 2 + n)) _ s3
                    (slice-Sound size (start + 2) (start + 2 + n) s3 kept3)
                    λ p s4 cut' kept4. elim (Bool-cases (paths.is_utf8 p)) [
                      | inr other ↦ rw other (tt, kept4)
                      | inl text ↦ rw text (
                          >>=-Sound size _ _ (read_checksum crc end2 (start + 2 + n)) _ s4
                            (read_checksum-Sound size crc end2 (start + 2 + n) s4 kept4 low2.1)
                            λ read s5 ordered kept5.
                              save_under-Sound p read.0 read.1 s5 kept5 ordered)
                    ]
