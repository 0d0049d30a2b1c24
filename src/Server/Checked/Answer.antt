-- ===== src/Server/Checked/Answer.antt =====
-- What the server has saved when it answers OK.
use pcopy.Prelude.{
  ℕ, zero, suc, ◌+◌, ◌-◌, ◌%◌, ◌^◌, min, ◌≡◌, ◌∙◌, refl, sym, List, [], ◌∷◌, ◌++◌, append-nil,
  length, take_all, ltb, ◌==◌, ==_iff, Bool-cases, inl, inr, Option, none, some, slice,
}
use mathlib.Core.Path.{subst}
use pcopy.Prelude.Outcome.{Outcome, ok, err, panic, stuck}
use pcopy.Prelude.Exec.{◌>>=◌}
use pcopy.Rust.IoError.{IoError}
use pcopy.Rust.Path.{Paths}
use pcopy.Rust.Disk.{Disk, wrote, created, written}
use pcopy.Crates.ByteOrder.{ByteOrder}
use pcopy.Crates.Crc32.{Crc32}
use pcopy.Server.Reader.{ReadFromStream}
use pcopy.Server.Session.{
  Session, BufferState, checked_sub, fill, buf_slice, log, read_data, read_checksum,
}
use pcopy.Server.File.{
  Receiving, or_invalid_input, create_file, make_parent, first_write, rewind, take_data, receive,
  compare_checksum, save_file,
}
use pcopy.Server.Checked.{
  Post, >>=-Post, Wrote, log-Wrote, buf_slice-Post, read_data-Wrote, fill-Wrote, OfBytes,
  read_checksum-OfBytes,
}
use pcopy.Server.Checked.Folder.{create_parent_folder-Wrote}
use pcopy.Server.Checked.File.{Fed, new-Fed, digest-Fed, Hashed, checked_sub-Post, take_data-Hashed}

module _ {T : Type 0} ⦃reader : ReadFromStream T⦄ ⦃order : ByteOrder⦄ ⦃paths : Paths⦄ (crc : Crc32)
    (disk : Disk) where
  rewind-Hashed :
      (v : Receiving crc.Hasher) (s : Session T)
      → Hashed crc disk v s
      → Post (Hashed crc disk) (rewind crc disk v s)
  unfolding rewind
  rewind-Hashed v s fed = elim (Bool-cases (v.start_index == length s.buf)) [
    | inl full ↦ rw full fed
    | inr partial ↦ rw partial fed
  ]

  receive-Hashed :
      (fuel : ℕ) (v : Receiving crc.Hasher) (s : Session T)
      → Hashed crc disk v s
      → Post (Hashed crc disk) (receive crc disk fuel v s)
  unfolding receive
  receive-Hashed zero v s fed =
      >>=-Post (λ _ t. Hashed crc disk v t) _ (λ t. (checked_sub v.end_index v.start_index, t)) _ s
        (checked_sub-Post crc disk v.end_index v.start_index (λ t. Hashed crc disk v t) s fed)
        λ available t fed1. elim (Bool-cases (ltb available v.file_data_length)) [
          | inl missing ↦ rw missing tt
          | inr there ↦ rw there fed1
        ]
  receive-Hashed (suc fuel) v s fed =
      >>=-Post (λ _ t. Hashed crc disk v t) _ (λ t. (checked_sub v.end_index v.start_index, t)) _ s
        (checked_sub-Post crc disk v.end_index v.start_index (λ t. Hashed crc disk v t) s fed)
        λ available t fed1. elim (Bool-cases (ltb available v.file_data_length)) [
          | inr there ↦ rw there fed1
          | inl missing ↦ rw missing (
              >>=-Post (Hashed crc disk) _ (rewind crc disk v) _ t (rewind-Hashed v t fed1)
                λ w u fed2.
                  >>=-Post (Wrote (written u.effects)) _ (read_data w.end_index) _ u
                    (read_data-Wrote w.end_index (written u.effects) u refl)
                    λ n u' kept. elim (Bool-cases (n == 0)) [
                      | inl nothing ↦ rw nothing tt
                      | inr some_bytes ↦ rw some_bytes (
                          let w' : Receiving crc.Hasher = record w {
                            end_index = w.end_index + n;
                          } in
                          >>=-Post (Hashed crc disk) _ (take_data crc disk w' n) _ u'
                            (take_data-Hashed crc disk w' n u' (rw kept fed2))
                            λ x u2 fed3. receive-Hashed fuel x u2 fed3)
                    ])
        ]

  or_invalid_input-Wrote :
      {A : Type 0} (w : List ℕ) (o : Outcome IoError A) (s : Session T)
      → Post (Wrote w) (o, s)
      → Post (Wrote w) (or_invalid_input o, s)
  unfolding or_invalid_input
  or_invalid_input-Wrote w (ok a) s h = h
  or_invalid_input-Wrote w (err e) s h = tt
  or_invalid_input-Wrote w panic s h = tt
  or_invalid_input-Wrote w stuck s h = tt

  make_parent-Wrote :
      (root : List ℕ) (end start : ℕ) (w : List ℕ) (s : Session T)
      → written s.effects ≡ w
      → Post (Wrote w) (make_parent crc disk root end start s)
  unfolding make_parent
  make_parent-Wrote root end start w s h =
      or_invalid_input-Wrote w _ _ (create_parent_folder-Wrote crc disk root w end start s h)

  create_file-Wrote :
      (path : List ℕ) (o : Option IoError) (w : List ℕ) (s : Session T)
      → written s.effects ≡ w
      → Post (Wrote w) (create_file crc disk path o s)
  unfolding create_file log
  create_file-Wrote path none w s h =
      log-Wrote (created path) w s h ∙ unfold written in append-nil w
  create_file-Wrote path (some e) w s h = tt

  module _ (writes_all : (bytes : List ℕ) → disk.write bytes ≡ ok (length bytes)) where
    first_write-Hashed :
        (end start left : ℕ) (s : Session T)
        → written s.effects ≡ []
        → Post (Hashed crc disk) (first_write crc disk end start left s)
    unfolding first_write log
    first_write-Hashed end start left s h =
        let upto = min (start + left) end in
        >>=-Post _ _ (buf_slice start upto) _ s (buf_slice-Post start upto s)
          λ bytes s1 (cut, same).
            let all : written (s1.effects ++ wrote bytes ∷ []) ≡ bytes =
              log-Wrote (wrote bytes) [] s1 (rw same h) ∙ unfold written in append-nil bytes in
            rw (writes_all bytes, take_all bytes)
              (>>=-Post (λ _ t. Fed crc (crc.update crc.new bytes) (written t.effects)) _
                (λ t. (checked_sub left (length bytes % 2 ^ 32), t)) _ (log (wrote bytes) s1).1
                (checked_sub-Post crc disk left (length bytes % 2 ^ 32)
                  (λ t. Fed crc (crc.update crc.new bytes) (written t.effects))
                  (log (wrote bytes) s1).1 (rw all (new-Fed crc bytes)))
                λ left' s3 fed. fed)

    -- The four bytes in front of the index are the checksum of what was written.
    abbrev Checked : BufferState × List ℕ → Session T → Type 0
    Checked r t =
        (bytes : List ℕ) × (slice t.buf (r.0.start_index - 4) r.0.start_index ≡ some bytes)
        × (crc.finalize (crc.new_with_initial (order.read_u32 bytes))
            ≡ crc.finalize (crc.update crc.new (written t.effects)))

    compare_checksum-Post :
        (h : crc.Hasher) (path : List ℕ) (r : ℕ × BufferState) (s : Session T)
        → Fed crc h (written s.effects)
        → OfBytes crc r s
        → Post Checked (compare_checksum crc disk h path r s)
    compare_checksum-Post h path r s fed (bytes, cut, of) =
        elim (Bool-cases (r.0 == crc.finalize h)) [
          | inl right ↦
              let same : r.0 ≡ crc.finalize h = (==_iff r.0 (crc.finalize h)).0 right in
              rw right (bytes, cut, sym of ∙ same ∙ digest-Fed crc h (written s.effects) fed)
          | inr wrong ↦ rw wrong tt
        ]

    body-Post :
        (end start left : ℕ) (path : List ℕ) (s : Session T)
        → written s.effects ≡ []
        → Post Checked (
            (first_write crc disk end start left >>= λ v.
            receive crc disk v.file_data_length v >>= λ w.
            read_checksum crc w.end_index w.start_index >>= compare_checksum crc disk w.hasher path)
              s)
    body-Post end start left path s h =
        >>=-Post (Hashed crc disk) _ (first_write crc disk end start left) _ s
          (first_write-Hashed end start left s h)
          λ v s1 fed1.
            >>=-Post (Hashed crc disk) _ (receive crc disk v.file_data_length v) _ s1
              (receive-Hashed v.file_data_length v s1 fed1)
              λ w s2 fed2.
                >>=-Post _ _ (read_checksum crc w.end_index w.start_index) _ s2
                  (read_checksum-OfBytes crc w.end_index w.start_index (written s2.effects) s2 refl)
                  λ r s3 (of, kept). compare_checksum-Post w.hasher path r s3 (rw kept fed2) of

    save_file-Post :
        (root : List ℕ) (end start : ℕ) (s : Session T)
        → written s.effects ≡ []
        → Post Checked (save_file crc disk root end start s)
    unfolding save_file
    save_file-Post root end start s h =
        >>=-Post (Wrote []) _ (make_parent crc disk root end start) _ s
          (make_parent-Wrote root end start [] s h)
          λ made s1 kept1.
            let path = made.1 in
            >>=-Post (Wrote []) _ (create_file crc disk path (disk.create path)) _ s1
              (create_file-Wrote path (disk.create path) [] s1 kept1)
              λ there s2 kept2.
                let i = made.0.start_index in
                >>=-Post (Wrote []) _ (fill 4 4 made.0.end_index i) _ s2
                  (fill-Wrote 4 4 made.0.end_index i [] s2 kept2)
                  λ end1 s3 kept3.
                    >>=-Post _ _ (buf_slice i (i + 4)) _ s3 (buf_slice-Post i (i + 4) s3)
                      λ bytes s4 (cut, same).
                        body-Post end1 (i + 4) (order.read_u32 bytes) path s4 (rw same kept3)

    -- When the server answers OK to a request for a file, what it wrote has the right checksum: the four
    -- bytes of the buffer in front of the index at which it stands are the checksum of all the bytes that
    -- were written, whatever the reader delivered. This holds where a write takes all that it is given and
    -- nothing was written before.
    pub save_file_checked :
        (root : List ℕ) (end start : ℕ) (s t : Session T) (state : BufferState) (path : List ℕ)
        → written s.effects ≡ []
        → save_file crc disk root end start s ≡ (ok (state, path), t)
        → (bytes : List ℕ) × (slice t.buf (state.start_index - 4) state.start_index ≡ some bytes)
          × (crc.finalize (crc.new_with_initial (order.read_u32 bytes))
              ≡ crc.finalize (crc.update crc.new (written t.effects)))
    save_file_checked root end start s t state path h runs =
        subst (λ run. Post Checked run) runs (save_file-Post root end start s h)
