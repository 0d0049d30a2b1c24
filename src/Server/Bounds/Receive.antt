-- ===== src/Server/Bounds/Receive.antt =====
-- The indices in the loop that receives a file.
use pcopy.Prelude.{
  ℕ, zero, suc, ◌+◌, ◌%◌, ◌^◌, ◌≤◌, ◌<◌, ◌≡◌, refl, arith, List, length, ltb, ltb_of_le, ◌==◌,
  Bool-cases, inl, inr, Option, none, some,
}
use pcopy.Prelude.Outcome.{Outcome, ok, err, panic, stuck, unwrap, Ends}
use pcopy.Rust.IoError.{IoError}
use pcopy.Rust.Path.{Paths}
use pcopy.Rust.Disk.{Disk}
use pcopy.Crates.ByteOrder.{ByteOrder}
use pcopy.Crates.Crc32.{Crc32}
use pcopy.Relay.Stream.{Delivery}
use pcopy.Server.Reader.{tcp_stream}
use pcopy.Server.Session.{Session, checked_sub, read_data, buf_slice, log}
use pcopy.Server.File.{
  Receiving, create_file, write_all, write_all_unwrap, rewind, last_chunk, whole_chunk, take_data,
  receive,
}
use pcopy.Server.File.Fuel.{take_data-left}
use pcopy.Server.Bounds.{
  Result, Result-and, Sound, Any, >>=-Sound, checked_sub-Result, slice-Sound, read_data-Sound,
}

pub unwrap-Result : {A : Type 0} (o : Outcome IoError A) → Ends o → Result Any (unwrap o)
unwrap-Result (ok a) h = tt
unwrap-Result (err e) h = tt
unwrap-Result panic h = tt
unwrap-Result stuck h = absurd h

module _ ⦃order : ByteOrder⦄ ⦃paths : Paths⦄ (crc : Crc32) (disk : Disk) (size : ℕ) where
  -- The variables of the loop, with the indices in order and in the buffer.
  abbrev pub Steady : Receiving crc.Hasher → Type 0
  Steady v = (v.start_index ≤ v.end_index) × (v.end_index ≤ size)

  pub create_file-Sound :
      (path : List ℕ) (o : Option IoError) (s : Session (List Delivery))
      → length s.buf ≡ size
      → Sound size Any (create_file crc disk path o s)
  unfolding create_file log
  create_file-Sound path none s same = (tt, same)
  create_file-Sound path (some e) s same = (tt, same)

  write_all-Sound :
      (bytes : List ℕ) (o : Option IoError) (s : Session (List Delivery))
      → length s.buf ≡ size
      → Sound size Any (write_all crc disk bytes o s)
  unfolding write_all log
  write_all-Sound bytes none s same = (tt, same)
  write_all-Sound bytes (some e) s same = (tt, same)

  write_all_unwrap-Sound :
      (bytes : List ℕ) (o : Option IoError) (s : Session (List Delivery))
      → length s.buf ≡ size
      → Sound size Any (write_all_unwrap crc disk bytes o s)
  unfolding write_all_unwrap log
  write_all_unwrap-Sound bytes none s same = (tt, same)
  write_all_unwrap-Sound bytes (some e) s same = (tt, same)

  whole_chunk-Sound :
      (v : Receiving crc.Hasher) (n : ℕ) (s : Session (List Delivery))
      → length s.buf ≡ size
      → v.start_index + n ≤ v.end_index
      → v.end_index ≤ size
      → Sound size Steady (whole_chunk crc disk v n s)
  unfolding whole_chunk
  whole_chunk-Sound v n s same low room =
      >>=-Sound size Any _ (buf_slice v.start_index v.end_index) _ s
        (slice-Sound size v.start_index v.end_index s same)
        λ bytes s1 cut kept1.
          >>=-Sound size Any _ (write_all_unwrap crc disk bytes (disk.write_all bytes)) _ s1
            (write_all_unwrap-Sound bytes (disk.write_all bytes) s1 kept1)
            λ done s2 wrote kept2.
              >>=-Sound size _ _ (λ t. (checked_sub v.file_data_length (n % 2 ^ 32), t)) _ s2
                (checked_sub-Result v.file_data_length (n % 2 ^ 32), kept2)
                λ left s3 sub kept3. ((low, room), kept3)

  last_chunk-Sound :
      (v : Receiving crc.Hasher) (s : Session (List Delivery))
      → length s.buf ≡ size
      → v.start_index + v.file_data_length ≤ v.end_index
      → v.end_index ≤ size
      → Sound size Steady (last_chunk crc disk v s)
  unfolding last_chunk
  last_chunk-Sound v s same low room =
      let start = v.start_index + v.file_data_length in
      >>=-Sound size Any _ (buf_slice v.start_index start) _ s
        (slice-Sound size v.start_index start s same)
        λ bytes s1 cut kept1.
          >>=-Sound size Any _ (write_all crc disk bytes (disk.write_all bytes)) _ s1
            (write_all-Sound bytes (disk.write_all bytes) s1 kept1)
            λ done s2 wrote kept2.
              >>=-Sound size _ _ (λ t. (checked_sub v.file_data_length (start % 2 ^ 32), t)) _ s2
                (checked_sub-Result v.file_data_length (start % 2 ^ 32), kept2)
                λ left s3 sub kept3. elim (Bool-cases (left == 0)) [
                  | inl none_left ↦ rw none_left ((low, room), kept3)
                  | inr some_left ↦ rw some_left (tt, kept3)
                ]

  take_data-Sound :
      (v : Receiving crc.Hasher) (n : ℕ) (s : Session (List Delivery))
      → length s.buf ≡ size
      → v.start_index + n ≤ v.end_index
      → v.end_index ≤ size
      → Sound size Steady (take_data crc disk v n s)
  unfolding take_data
  take_data-Sound v n s same low room =
      elim (Bool-cases (ltb (v.start_index + v.file_data_length) v.end_index)) [
        | inl over ↦ rw over (last_chunk-Sound v s same (ground arith) room)
        | inr within ↦ rw within (whole_chunk-Sound v n s same low room)
      ]

  rewind-Sound :
      (v : Receiving crc.Hasher) (s : Session (List Delivery))
      → length s.buf ≡ size
      → Steady v
      → Sound size (λ w. Steady w × (v.file_data_length ≡ w.file_data_length)) (rewind crc disk v s)
  unfolding rewind
  rewind-Sound v s same steady = elim (Bool-cases (v.start_index == length s.buf)) [
    | inl full ↦ rw full (((omega arith, omega arith), refl), same)
    | inr partial ↦ rw partial ((steady, refl), same)
  ]

  -- A round of the loop that has read `n` bytes leaves less of the file to read.
  take_data-Round :
      (w : Receiving crc.Hasher) (n fuel : ℕ) (s : Session (List Delivery))
      → length s.buf ≡ size
      → size < 2 ^ 32
      → w.start_index ≤ w.end_index
      → w.end_index + n ≤ size
      → 0 < n
      → w.file_data_length ≤ suc fuel
      → Sound size
          (λ x. Steady x × (x.file_data_length ≤ fuel))
          (take_data crc disk (record w { end_index = w.end_index + n }) n s)
  take_data-Round w n fuel s same small ordered low some_bytes h =
      let v : Receiving crc.Hasher = record w { end_index = w.end_index + n } in
      let (steady, kept) = take_data-Sound v n s same (omega arith) low in
      (
        Result-and Steady (λ x. x.file_data_length ≤ fuel) (take_data crc disk v n s).0 steady
            (λ x e. take_data-left crc disk v x n fuel s e some_bytes (omega arith) h),
        kept,
      )

  -- The loop that receives a file, on a buffer of less than 2 ^ 32 bytes.
  pub receive-Sound :
      (fuel : ℕ) (v : Receiving crc.Hasher) (s : Session (List Delivery))
      → length s.buf ≡ size
      → size < 2 ^ 32
      → v.end_index ≤ size
      → v.file_data_length ≤ fuel
      → Sound size Steady (receive crc disk fuel v s)
  unfolding receive
  receive-Sound zero v s same small room h =
      >>=-Sound size _ _ (λ t. (checked_sub v.end_index v.start_index, t)) _ s
        (checked_sub-Result v.end_index v.start_index, same)
        λ available t sub kept.
          rw (ltb_of_le available v.file_data_length (omega arith)) ((sub.0, room), kept)
  receive-Sound (suc fuel) v s same small room h =
      >>=-Sound size _ _ (λ t. (checked_sub v.end_index v.start_index, t)) _ s
        (checked_sub-Result v.end_index v.start_index, same)
        λ available t sub kept. elim (Bool-cases (ltb available v.file_data_length)) [
          | inr there ↦ rw there ((sub.0, room), kept)
          | inl missing ↦ rw missing (
              >>=-Sound size _ _ (rewind crc disk v) _ t (rewind-Sound v t kept (sub.0, room))
                λ w u turned kept'.
                  >>=-Sound size (λ n. w.end_index + n ≤ size) _ (read_data w.end_index) _ u
                    (rw kept' at (read_data-Sound w.end_index u))
                    λ n u' low kept''. elim (Bool-cases (n == 0)) [
                      | inl nothing ↦ rw nothing (tt, kept'')
                      | inr some_bytes ↦ rw some_bytes (
                          >>=-Sound size _ _
                            (take_data crc disk (record w { end_index = w.end_index + n }) n) _ u'
                            (take_data-Round w n fuel u' kept'' small turned.0.0 low (ground arith)
                              (omega (arith, turned.1)))
                            λ w' t' next kept3.
                              receive-Sound fuel w' t' kept3 small next.0.1 next.1)
                    ])
        ]
