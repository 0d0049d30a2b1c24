-- ===== src/Server/Bounds/File.antt =====
-- The indices behind a request for a file.
use pcopy.Prelude.{
  ℕ, ◌+◌, ◌%◌, ◌^◌, min, ◌≤◌, ◌<◌, ◌≡◌, arith, List, length, take, ◌==◌, Bool-cases, inl, inr, not,
  if◌then◌else◌,
}
use pcopy.Prelude.Outcome.{Outcome, ok, err, panic, stuck, unwrap, Ends}
use pcopy.Prelude.Exec.{pure, raise, ◌>>=◌}
use pcopy.Rust.IoError.{IoError, invalid_data}
use pcopy.Rust.Path.{Paths}
use pcopy.Rust.Disk.{Disk, wrote}
use pcopy.Crates.ByteOrder.{ByteOrder}
use pcopy.Crates.Crc32.{Crc32}
use pcopy.Relay.Stream.{Delivery}
use pcopy.Server.Reader.{tcp_stream}
use pcopy.Server.Session.{Session, BufferState, checked_sub, fill, buf_slice, log, read_checksum}
use pcopy.Server.File.{create_file, make_parent, first_write, receive, save_file, or_invalid_input}
use pcopy.Server.Bounds.{
  Result, Sound, Any, >>=-Sound, checked_sub-Result, fill-Sound, slice-Sound, InOrder,
  read_checksum-Sound,
}
use pcopy.Server.Bounds.Folder.{create_parent_folder-Sound}
use pcopy.Server.Bounds.Receive.{unwrap-Result, Steady, create_file-Sound, receive-Sound}

module _ ⦃order : ByteOrder⦄ ⦃paths : Paths⦄ (crc : Crc32) (disk : Disk) (size : ℕ) where
  or_invalid_input-Result :
      {A : Type 0} (Q : A → Type 0) (o : Outcome IoError A)
      → Result Q o
      → Result Q (or_invalid_input o)
  unfolding or_invalid_input
  or_invalid_input-Result Q (ok a) h = h
  or_invalid_input-Result Q (err e) h = tt
  or_invalid_input-Result Q panic h = tt
  or_invalid_input-Result Q stuck h = h

  make_parent-Sound :
      (root : List ℕ) (end start : ℕ) (s : Session (List Delivery))
      → length s.buf ≡ size
      → end ≤ size
      → Sound size
          (λ (r : BufferState × List ℕ). InOrder size r.0)
          (make_parent crc disk root end start s)
  unfolding make_parent
  make_parent-Sound root end start s same room =
      let (ordered, kept) = create_parent_folder-Sound crc disk root size end start s same room in
      (or_invalid_input-Result (λ (r : BufferState × List ℕ). InOrder size r.0) _ ordered, kept)

  first_write-Sound :
      (answers : (bytes : List ℕ) → Ends (disk.write bytes)) (end start left : ℕ)
      (s : Session (List Delivery))
      → length s.buf ≡ size
      → end ≤ size
      → Sound size (Steady crc disk size) (first_write crc disk end start left s)
  unfolding first_write log
  first_write-Sound answers end start left s same room =
      let upto = min (start + left) end in
      >>=-Sound size Any _ (buf_slice start upto) _ s (slice-Sound size start upto s same)
        λ bytes s1 cut kept1.
          >>=-Sound size Any _ (λ t. (unwrap (disk.write bytes), t)) _ s1
            (unwrap-Result (disk.write bytes) (answers bytes), kept1)
            λ n s2 written kept2.
              >>=-Sound size _ _ (λ t. (checked_sub left (n % 2 ^ 32), t)) _
                (log (wrote (take n bytes)) s2).1 (checked_sub-Result left (n % 2 ^ 32), kept2)
                λ left' s3 sub kept3. ((omega arith, room), kept3)

module _ ⦃order : ByteOrder⦄ ⦃paths : Paths⦄ (crc : Crc32) (disk : Disk) (root : List ℕ) (size : ℕ)
    (answers : (bytes : List ℕ) → Ends (disk.write bytes)) where
  -- The part of `save_file` behind the length of the file.
  receive_body :
      (end start left : ℕ) (path : List ℕ) (s : Session (List Delivery))
      → length s.buf ≡ size
      → size < 2 ^ 32
      → end ≤ size
      → Sound size
          (λ (r : BufferState × List ℕ). InOrder size r.0)
          ((first_write crc disk end start left >>= λ v.
              receive crc disk v.file_data_length v >>= λ w.
              read_checksum crc w.end_index w.start_index >>= λ x.
              if not (x.0 == crc.finalize w.hasher) then raise invalid_data else pure (x.1, path))
            s)
  receive_body end start left path s same small room =
      >>=-Sound size _ _ (first_write crc disk end start left) _ s
        (first_write-Sound crc disk size answers end start left s same room)
        λ v s1 steady kept1.
          >>=-Sound size _ _ (receive crc disk v.file_data_length v) _ s1
            (receive-Sound crc disk size v.file_data_length v s1 kept1 small steady.1 (omega arith))
            λ w s2 steady' kept2.
              >>=-Sound size _ _ (read_checksum crc w.end_index w.start_index) _ s2
                (read_checksum-Sound size crc w.end_index w.start_index s2 kept2 steady'.1)
                λ x s3 ordered kept3. elim (Bool-cases (x.0 == crc.finalize w.hasher)) [
                  | inl right ↦ rw right (ordered, kept3)
                  | inr wrong ↦ rw wrong (tt, kept3)
                ]

  -- A request for a file is never short of fuel, on a buffer of less than 2 ^ 32 bytes, whatever arrives
  -- on the connection and whatever the disk answers, as long as its `write` comes back. It keeps the
  -- length of the buffer, and when it returns the indices they are in order and in the buffer.
  pub save_file-Sound :
      (end start : ℕ) (s : Session (List Delivery))
      → length s.buf ≡ size
      → size < 2 ^ 32
      → end ≤ size
      → Sound size
          (λ (r : BufferState × List ℕ). InOrder size r.0)
          (save_file crc disk root end start s)
  unfolding save_file
  save_file-Sound end start s same small room =
      >>=-Sound size _ _ (make_parent crc disk root end start) _ s
        (make_parent-Sound crc disk size root end start s same room)
        λ made s1 ordered kept1.
          let path = made.1 in
          >>=-Sound size Any _ (create_file crc disk path (disk.create path)) _ s1
            (create_file-Sound crc disk size path (disk.create path) s1 kept1)
            λ done s2 there kept2.
              let i = made.0.start_index in
              >>=-Sound size _ _ (fill 4 4 made.0.end_index i) _ s2
                (fill-Sound size 4 4 made.0.end_index i s2 kept2 (omega arith) ordered.1)
                λ end1 s3 low kept3.
                  >>=-Sound size Any _ (buf_slice i (i + 4)) _ s3
                    (slice-Sound size i (i + 4) s3 kept3)
                    λ bytes s4 cut kept4.
                      receive_body end1 (i + 4) (order.read_u32 bytes) path s4 kept4 small low.1
