-- ===== src/Server/Checked/File.antt =====
-- The bytes that a request for a file writes, and the checksum.
use pcopy.Prelude.{
  ℕ, ◌+◌, ◌%◌, ◌^◌, ◌≡◌, ◌∙◌, refl, sym, ap, List, [], ◌∷◌, ◌++◌, append-nil, append_assoc, ltb,
  ◌==◌, Bool-cases, inl, inr, Option, none, some,
}
use pcopy.Rust.IoError.{IoError}
use pcopy.Rust.Path.{Paths}
use pcopy.Rust.Disk.{Disk, wrote, written}
use pcopy.Crates.ByteOrder.{ByteOrder}
use pcopy.Crates.Crc32.{Crc32}
use pcopy.Server.Reader.{ReadFromStream}
use pcopy.Server.Session.{Session, checked_sub, buf_slice, log}
use pcopy.Server.File.{Receiving, write_all, write_all_unwrap, last_chunk, whole_chunk, take_data}
use pcopy.Server.Checked.{Post, >>=-Post, log-Wrote, buf_slice-Post}

module _ (crc : Crc32) where
  -- A hasher that has been fed the bytes `w`.
  abbrev pub Fed : crc.Hasher → List ℕ → Type 0
  Fed h w =
      (ys : List ℕ) → crc.finalize (crc.update h ys) ≡ crc.finalize (crc.update crc.new (w ++ ys))

  update-Fed : (h : crc.Hasher) (w bytes : List ℕ) → Fed h w → Fed (crc.update h bytes) (w ++ bytes)
  update-Fed h w bytes fed ys =
      crc.update-update h bytes ys
      ∙ fed (bytes ++ ys)
      ∙ ap (λ b. crc.finalize (crc.update crc.new b)) (sym (append_assoc w bytes ys))

  pub new-Fed : (bytes : List ℕ) → Fed (crc.update crc.new bytes) bytes
  new-Fed bytes ys = crc.update-update crc.new bytes ys

  pub digest-Fed :
      (h : crc.Hasher) (w : List ℕ) → Fed h w → crc.finalize h ≡ crc.finalize (crc.update crc.new w)
  digest-Fed h w fed =
      sym (crc.update-nil h) ∙ fed [] ∙ ap (λ b. crc.finalize (crc.update crc.new b)) (append-nil w)

module _ {T : Type 0} ⦃reader : ReadFromStream T⦄ ⦃order : ByteOrder⦄ ⦃paths : Paths⦄ (crc : Crc32)
    (disk : Disk) where
  -- The hasher has been fed what was written.
  abbrev pub Hashed : Receiving crc.Hasher → Session T → Type 0
  Hashed v t = Fed crc v.hasher (written t.effects)

  log-Hashed :
      (h : crc.Hasher) (bytes : List ℕ) (s : Session T)
      → Fed crc h (written s.effects)
      → Post (λ _ t. Fed crc (crc.update h bytes) (written t.effects)) (log (wrote bytes) s)
  unfolding log
  log-Hashed h bytes s fed =
      let all : written (s.effects ++ wrote bytes ∷ []) ≡ written s.effects ++ bytes =
        log-Wrote (wrote bytes) (written s.effects) s refl
        ∙ ap (λ b. written s.effects ++ b) (unfold written in append-nil bytes) in
      rw all (update-Fed crc h (written s.effects) bytes fed)

  write_all-Hashed :
      (h : crc.Hasher) (bytes : List ℕ) (o : Option IoError) (s : Session T)
      → Fed crc h (written s.effects)
      → Post
          (λ _ t. Fed crc (crc.update h bytes) (written t.effects))
          (write_all crc disk bytes o s)
  unfolding write_all
  write_all-Hashed h bytes none s fed = log-Hashed h bytes s fed
  write_all-Hashed h bytes (some e) s fed = tt

  write_all_unwrap-Hashed :
      (h : crc.Hasher) (bytes : List ℕ) (o : Option IoError) (s : Session T)
      → Fed crc h (written s.effects)
      → Post
          (λ _ t. Fed crc (crc.update h bytes) (written t.effects))
          (write_all_unwrap crc disk bytes o s)
  unfolding write_all_unwrap
  write_all_unwrap-Hashed h bytes none s fed = log-Hashed h bytes s fed
  write_all_unwrap-Hashed h bytes (some e) s fed = tt

  pub checked_sub-Post :
      (a b : ℕ) (Q : Session T → Type 0) (s : Session T)
      → Q s
      → Post (λ _ t. Q t) (checked_sub a b, s)
  unfolding checked_sub
  checked_sub-Post a b Q s q = elim (Bool-cases (ltb a b)) [
    | inl less ↦ rw less tt
    | inr enough ↦ rw enough q
  ]

  whole_chunk-Hashed :
      (v : Receiving crc.Hasher) (n : ℕ) (s : Session T)
      → Hashed v s
      → Post Hashed (whole_chunk crc disk v n s)
  unfolding whole_chunk
  whole_chunk-Hashed v n s fed =
      >>=-Post _ _ (buf_slice v.start_index v.end_index) _ s
        (buf_slice-Post v.start_index v.end_index s)
        λ bytes s1 (cut, same).
          >>=-Post (λ _ t. Fed crc (crc.update v.hasher bytes) (written t.effects)) _
            (write_all_unwrap crc disk bytes (disk.write_all bytes)) _ s1
            (write_all_unwrap-Hashed v.hasher bytes (disk.write_all bytes) s1 (rw same fed))
            λ done s2 fed2.
              >>=-Post (λ _ t. Fed crc (crc.update v.hasher bytes) (written t.effects)) _
                (λ t. (checked_sub v.file_data_length (n % 2 ^ 32), t)) _ s2
                (checked_sub-Post v.file_data_length (n % 2 ^ 32)
                  (λ t. Fed crc (crc.update v.hasher bytes) (written t.effects)) s2 fed2)
                λ left s3 fed3. fed3

  last_chunk-Hashed :
      (v : Receiving crc.Hasher) (s : Session T)
      → Hashed v s
      → Post Hashed (last_chunk crc disk v s)
  unfolding last_chunk
  last_chunk-Hashed v s fed =
      let start = v.start_index + v.file_data_length in
      >>=-Post _ _ (buf_slice v.start_index start) _ s (buf_slice-Post v.start_index start s)
        λ bytes s1 (cut, same).
          >>=-Post (λ _ t. Fed crc (crc.update v.hasher bytes) (written t.effects)) _
            (write_all crc disk bytes (disk.write_all bytes)) _ s1
            (write_all-Hashed v.hasher bytes (disk.write_all bytes) s1 (rw same fed))
            λ done s2 fed2.
              >>=-Post (λ _ t. Fed crc (crc.update v.hasher bytes) (written t.effects)) _
                (λ t. (checked_sub v.file_data_length (start % 2 ^ 32), t)) _ s2
                (checked_sub-Post v.file_data_length (start % 2 ^ 32)
                  (λ t. Fed crc (crc.update v.hasher bytes) (written t.effects)) s2 fed2)
                λ left s3 fed3. elim (Bool-cases (left == 0)) [
                  | inl none_left ↦ rw none_left fed3
                  | inr some_left ↦ rw some_left tt
                ]

  pub take_data-Hashed :
      (v : Receiving crc.Hasher) (n : ℕ) (s : Session T)
      → Hashed v s
      → Post Hashed (take_data crc disk v n s)
  unfolding take_data
  take_data-Hashed v n s fed =
      elim (Bool-cases (ltb (v.start_index + v.file_data_length) v.end_index)) [
        | inl over ↦ rw over (last_chunk-Hashed v s fed)
        | inr within ↦ rw within (whole_chunk-Hashed v n s fed)
      ]
