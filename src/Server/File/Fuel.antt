-- ===== src/Server/File/Fuel.antt =====
-- The fuel of a request for a file is enough.
use pcopy.Prelude.{
  ℕ, zero, suc, ◌+◌, ◌-◌, ◌%◌, ◌^◌, ◌≤◌, ◌<◌, ◌≡◌, arith, List, length, Bool-cases, inl, inr, ltb,
  ltb_of_le, ==_iff, ◌==◌, Option, none, some,
}
use pcopy.Prelude.Outcome.{Outcome, ok, Ends}
use pcopy.Prelude.Exec.{>>=-Ends, >>=-eq-ok}
use pcopy.Rust.IoError.{IoError}
use pcopy.Rust.Path.{Paths}
use pcopy.Rust.Disk.{Disk}
use pcopy.Crates.ByteOrder.{ByteOrder}
use pcopy.Crates.Crc32.{Crc32}
use pcopy.Server.Reader.{ReadFromStream}
use pcopy.Server.Session.{Session, checked_sub, read_data, buf_slice, log}
use pcopy.Server.Session.Fuel.{read_data-Ends}
use pcopy.Server.Folder.Fuel.{or_panic-Ends}
use pcopy.Server.File.{
  Receiving, write_all, write_all_unwrap, rewind, last_chunk, whole_chunk, take_data, receive,
}

checked_sub-Ends : (a b : ℕ) → Ends (checked_sub a b)
unfolding checked_sub
checked_sub-Ends a b = elim (Bool-cases (ltb a b)) [
  | inl less ↦ rw less tt
  | inr enough ↦ rw enough tt
]

checked_sub-eq-ok : (a b c : ℕ) → checked_sub a b ≡ ok c → (b ≤ a) × (c ≡ a - b)
unfolding checked_sub
checked_sub-eq-ok a b c e = elim (Bool-cases (ltb a b)) [
  | inl less ↦ cc (rw less at e)
  | inr enough ↦ (ground arith, cc (rw enough at e))
]

fields :
    {H : Type 0} (left end start : ℕ) (h : H) (w : Receiving H)
    → ◌≡◌ {A = Outcome IoError (Receiving H)}
        (ok (record { end_index = end; start_index = start; file_data_length = left; hasher = h }))
        (ok w)
    → left ≡ w.file_data_length
fields left end start h w e = cc

slices : {T : Type 0} (lo hi : ℕ) (s : Session T) → Ends (buf_slice lo hi s).0
unfolding buf_slice
slices lo hi s = or_panic-Ends IoError _

module _ {T : Type 0} ⦃reader : ReadFromStream T⦄ ⦃order : ByteOrder⦄ ⦃paths : Paths⦄ (crc : Crc32)
    (disk : Disk) where
  write_all-Ends :
      (bytes : List ℕ) (o : Option IoError) (s : Session T) → Ends (write_all crc disk bytes o s).0
  unfolding write_all log
  write_all-Ends bytes none s = tt
  write_all-Ends bytes (some e) s = tt

  write_all_unwrap-Ends :
      (bytes : List ℕ) (o : Option IoError) (s : Session T)
      → Ends (write_all_unwrap crc disk bytes o s).0
  unfolding write_all_unwrap log
  write_all_unwrap-Ends bytes none s = tt
  write_all_unwrap-Ends bytes (some e) s = tt

  whole_chunk-Ends :
      (v : Receiving crc.Hasher) (n : ℕ) (s : Session T) → Ends (whole_chunk crc disk v n s).0
  unfolding whole_chunk
  whole_chunk-Ends v n s =
      >>=-Ends (buf_slice v.start_index v.end_index) _ s (slices v.start_index v.end_index s)
        λ bytes e1.
          >>=-Ends (write_all_unwrap crc disk bytes (disk.write_all bytes)) _ _
            (write_all_unwrap-Ends bytes (disk.write_all bytes) _)
            λ done e2.
              >>=-Ends (λ t. (checked_sub v.file_data_length (n % 2 ^ 32), t)) _ _
                (checked_sub-Ends v.file_data_length (n % 2 ^ 32)) (λ left e3. tt)

  last_chunk-Ends : (v : Receiving crc.Hasher) (s : Session T) → Ends (last_chunk crc disk v s).0
  unfolding last_chunk
  last_chunk-Ends v s =
      >>=-Ends (buf_slice v.start_index (v.start_index + v.file_data_length)) _ s
        (slices v.start_index (v.start_index + v.file_data_length) s)
        λ bytes e1.
          >>=-Ends (write_all crc disk bytes (disk.write_all bytes)) _ _
            (write_all-Ends bytes (disk.write_all bytes) _)
            λ done e2.
              let start = v.start_index + v.file_data_length in
              >>=-Ends (λ t. (checked_sub v.file_data_length (start % 2 ^ 32), t)) _ _
                (checked_sub-Ends v.file_data_length (start % 2 ^ 32))
                λ left e3. elim (Bool-cases (left == 0)) [
                  | inl none_left ↦ rw none_left tt
                  | inr some_left ↦ rw some_left tt
                ]

  -- Behind the last chunk nothing is left.
  last_chunk-left :
      (v w : Receiving crc.Hasher) (s : Session T)
      → (last_chunk crc disk v s).0 ≡ ok w
      → w.file_data_length ≡ 0
  unfolding last_chunk
  last_chunk-left v w s e =
      let (bytes, _, e1) =
        >>=-eq-ok (buf_slice v.start_index (v.start_index + v.file_data_length)) _ s e in
      let (_, _, e2) = >>=-eq-ok (write_all crc disk bytes (disk.write_all bytes)) _ _ e1 in
      let start = v.start_index + v.file_data_length in
      let (left, sub, e3) =
        >>=-eq-ok (λ t. (checked_sub v.file_data_length (start % 2 ^ 32), t)) _ _ e2 in
      elim (Bool-cases (left == 0)) [
        | inl none_left ↦
            let kept = fields left v.end_index start _ w (rw none_left at e3) in
            let gone : left ≡ 0 = (==_iff left 0).0 none_left in omega arith
        | inr some_left ↦ cc (rw some_left at e3)
      ]

  -- What is left of the file is less by the bytes that were read.
  whole_chunk-left :
      (v w : Receiving crc.Hasher) (n : ℕ) (s : Session T)
      → (whole_chunk crc disk v n s).0 ≡ ok w
      → w.file_data_length + n % 2 ^ 32 ≤ v.file_data_length
  unfolding whole_chunk
  whole_chunk-left v w n s e =
      let (bytes, _, e1) = >>=-eq-ok (buf_slice v.start_index v.end_index) _ s e in
      let (_, _, e2) = >>=-eq-ok (write_all_unwrap crc disk bytes (disk.write_all bytes)) _ _ e1 in
      let (left, sub, e3) =
        >>=-eq-ok (λ t. (checked_sub v.file_data_length (n % 2 ^ 32), t)) _ _ e2 in
      let (less, same) = checked_sub-eq-ok v.file_data_length (n % 2 ^ 32) left sub in
      let kept : left ≡ w.file_data_length = fields left v.end_index (v.start_index + n) _ w e3 in
      omega arith

  take_data-Ends :
      (v : Receiving crc.Hasher) (n : ℕ) (s : Session T) → Ends (take_data crc disk v n s).0
  unfolding take_data
  take_data-Ends v n s = elim (Bool-cases (ltb (v.start_index + v.file_data_length) v.end_index)) [
    | inl over ↦ rw over (last_chunk-Ends v s)
    | inr within ↦ rw within (whole_chunk-Ends v n s)
  ]

  pub take_data-left :
      (v w : Receiving crc.Hasher) (n fuel : ℕ) (s : Session T)
      → (take_data crc disk v n s).0 ≡ ok w
      → 0 < n
      → n < 2 ^ 32
      → v.file_data_length ≤ suc fuel
      → w.file_data_length ≤ fuel
  unfolding take_data
  take_data-left v w n fuel s e some_bytes small h =
      elim (Bool-cases (ltb (v.start_index + v.file_data_length) v.end_index)) [
        | inl over ↦ omega (arith, last_chunk-left v w s (rw over at e))
        | inr within ↦
            let less = whole_chunk-left v w n s (rw within at e) in
            let cut : n % 2 ^ 32 ≡ n = omega arith in omega arith
      ]

  rewind-left :
      (v w : Receiving crc.Hasher) (s : Session T)
      → (rewind crc disk v s).0 ≡ ok w
      → v.file_data_length ≡ w.file_data_length
  unfolding rewind
  rewind-left v w s e = elim (Bool-cases (v.start_index == length s.buf)) [
    | inl full ↦ fields v.file_data_length 0 0 v.hasher w (rw full at e)
    | inr partial ↦ fields v.file_data_length v.end_index v.start_index v.hasher w (rw partial at e)
  ]

  module _ (reads : (t : T) (buf : List ℕ) (i : ℕ) → Ends (reader.read_data t buf i))
      (bounded : (s : Session T) (i n : ℕ) → (read_data i s).0 ≡ ok n → n < 2 ^ 32) where
    -- The loop that receives a file comes to an end on fuel for each byte that is left, whatever the
    -- reader delivers, with each read below 2 ^ 32 bytes, and whatever the disk answers.
    receive-Ends :
        (fuel : ℕ) (v : Receiving crc.Hasher) (s : Session T)
        → v.file_data_length ≤ fuel
        → Ends (receive crc disk fuel v s).0
    unfolding receive
    receive-Ends zero v s h =
        >>=-Ends (λ t. (checked_sub v.end_index v.start_index, t)) _ s
          (checked_sub-Ends v.end_index v.start_index)
          λ available e. rw (ltb_of_le available v.file_data_length (omega arith)) tt
    receive-Ends (suc fuel) v s h =
        >>=-Ends (λ t. (checked_sub v.end_index v.start_index, t)) _ s
          (checked_sub-Ends v.end_index v.start_index)
          λ available e. elim (Bool-cases (ltb available v.file_data_length)) [
            | inr there ↦ rw there tt
            | inl missing ↦ rw missing (
                >>=-Ends (rewind crc disk v) _ s (unfold rewind in tt) λ w e1.
                  >>=-Ends (read_data w.end_index) _ _ (read_data-Ends reads w.end_index _) λ n e2.
                    elim (Bool-cases (n == 0)) [
                      | inl nothing ↦ rw nothing tt
                      | inr some_bytes ↦ rw some_bytes (
                          let v' : Receiving crc.Hasher = record w {
                            end_index = w.end_index + n;
                          } in
                          >>=-Ends (take_data crc disk v' n) _ _ (take_data-Ends v' n _) λ w' e3.
                            receive-Ends fuel w' _ (
                              take_data-left v' w' n fuel _ e3 (ground arith)
                                (bounded _ w.end_index n e2) (omega (arith, rewind-left v w s e1))))
                    ])
          ]
