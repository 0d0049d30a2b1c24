-- ===== src/Server/Checked.antt =====
-- A file for which the server answers OK.
pub mod Folder
pub mod File
pub mod Answer
use pcopy.Prelude.{
  ℕ, zero, suc, ◌+◌, ◌-◌, ◌%◌, ◌^◌, min, ◌≤◌, ◌≡◌, ◌∙◌, refl, sym, ap, arith, List, [], ◌∷◌, ◌++◌,
  append-nil, append_assoc, length, take, take_all, ltb, not, ◌==◌, ==_iff, Bool-cases, inl, inr,
  Option, none, some, slice,
}
use pcopy.Prelude.Outcome.{Outcome, ok, err, panic, stuck, or_panic, unwrap}
use pcopy.Prelude.Exec.{Exec, continue, ◌>>=◌}
use pcopy.Rust.IoError.{IoError}
use pcopy.Rust.Path.{Paths, strip_slash, join}
use pcopy.Rust.Disk.{Disk, Effect, wrote, made_folder, created, written}
use pcopy.Crates.ByteOrder.{ByteOrder}
use pcopy.Crates.Crc32.{Crc32}
use pcopy.Server.Reader.{ReadFromStream}
use pcopy.Server.Session.{
  Session, BufferState, checked_sub, store, read_data, fill, buf_slice, log, read_checksum,
}
use pcopy.Server.Folder.{parent_folder, make_folder, save_under, create_parent_folder}

written-append : (xs ys : List Effect) → written (xs ++ ys) ≡ written xs ++ written ys
unfolding written
written-append [] ys = refl
written-append (wrote b ∷ xs) ys = rw (written-append xs ys, append_assoc)
written-append (made_folder p ∷ xs) ys = written-append xs ys
written-append (created p ∷ xs) ys = written-append xs ys

module _ {T : Type 0} where
  -- What holds of the value and of the session when a call returns a value.
  abbrev Post : {A : Type 0} → (A → Session T → Type 0) → Outcome IoError A × Session T → Type 0
  Post Q (ok a, s) = Q a s
  Post Q (err e, s) = Unit
  Post Q (panic, s) = Unit
  Post Q (stuck, s) = Unit

  >>=-Post :
      {A B : Type 0} (Q : A → Session T → Type 0) (R : B → Session T → Type 0)
      (m : Exec (Session T) IoError A) (f : A → Exec (Session T) IoError B) (s : Session T)
      → Post Q (m s)
      → ((a : A) (t : Session T) → Q a t → Post R (f a t))
      → Post R ((m >>= f) s)
  >>=-Post {A} Q R m f s h k = go (m s).0 (m s).1 h
    where
      go : (o : Outcome IoError A) (t : Session T) → Post Q (o, t) → Post R (continue o f t)
      go (ok a) t q = k a t q
      go (err e) t q = tt
      go panic t q = tt
      go stuck t q = tt

  -- The bytes that were written so far are `w`.
  abbrev Wrote : {A : Type 0} → List ℕ → A → Session T → Type 0
  Wrote w a t = written t.effects ≡ w

  log-Wrote :
      (e : Effect) (w : List ℕ) (s : Session T)
      → written s.effects ≡ w
      → Post (Wrote (w ++ written (e ∷ []))) (log e s)
  unfolding log
  log-Wrote e w s h = written-append s.effects (e ∷ []) ∙ ap (λ b. b ++ written (e ∷ [])) h

  buf_slice-Post :
      (lo hi : ℕ) (s : Session T)
      → Post (λ bytes t. (slice s.buf lo hi ≡ some bytes) × (t ≡ s)) (buf_slice lo hi s)
  unfolding buf_slice
  buf_slice-Post lo hi s = go (slice s.buf lo hi) refl
    where
      go :
          (o : Option (List ℕ))
          → slice s.buf lo hi ≡ o
          → Post (λ bytes t. (slice s.buf lo hi ≡ some bytes) × (t ≡ s)) (or_panic o, s)
      go none e = tt
      go (some bytes) e = (e, refl)

  module _ ⦃reader : ReadFromStream T⦄ where
    read_data-Wrote :
        (i : ℕ) (w : List ℕ) (s : Session T)
        → written s.effects ≡ w
        → Post (Wrote w) (read_data i s)
    unfolding read_data store
    read_data-Wrote i w s h = go (reader.read_data s.socket s.buf i)
      where
        go : (o : Outcome IoError (ℕ × List ℕ × T)) → Post (Wrote w) (store s (unwrap o))
        go (ok (n, buf, socket)) = h
        go (err e) = tt
        go panic = tt
        go stuck = tt

    fill-Wrote :
        (fuel need end start : ℕ) (w : List ℕ) (s : Session T)
        → written s.effects ≡ w
        → Post (Wrote w) (fill fuel need end start s)
    unfolding fill checked_sub
    fill-Wrote zero need end start w s h = elim (Bool-cases (ltb end start)) [
      | inl below ↦ rw below tt
      | inr above ↦ elim (Bool-cases (ltb (end - start) need)) [
        | inl missing ↦ rw (above, missing) tt
        | inr there ↦ rw (above, there) h
      ]
    ]
    fill-Wrote (suc fuel) need end start w s h = elim (Bool-cases (ltb end start)) [
      | inl below ↦ rw below tt
      | inr above ↦ elim (Bool-cases (ltb (end - start) need)) [
        | inr there ↦ rw (above, there) h
        | inl missing ↦
            rw (above, missing)
              (>>=-Post (Wrote w) _ (read_data end) _ s (read_data-Wrote end w s h) λ n t kept.
                elim (Bool-cases (n == 0)) [
                  | inl nothing ↦ rw nothing tt
                  | inr some_bytes ↦ rw some_bytes (fill-Wrote fuel need (end + n) start w t kept)
                ])
      ]
    ]

    module _ ⦃order : ByteOrder⦄ (crc : Crc32) where
      -- The checksum is made of the four bytes in front of the index that comes with it.
      abbrev OfBytes : ℕ × BufferState → Session T → Type 0
      OfBytes r t =
          (bytes : List ℕ) × (slice t.buf (r.1.start_index - 4) r.1.start_index ≡ some bytes)
          × (r.0 ≡ crc.finalize (crc.new_with_initial (order.read_u32 bytes)))

      read_checksum-OfBytes :
          (end start : ℕ) (w : List ℕ) (s : Session T)
          → written s.effects ≡ w
          → Post (λ r t. OfBytes r t × Wrote w r t) (read_checksum crc end start s)
      unfolding read_checksum
      read_checksum-OfBytes end start w s h =
          >>=-Post (Wrote w) _ (fill 4 4 end start) _ s (fill-Wrote 4 4 end start w s h)
            λ end' t kept.
              >>=-Post _ _ (buf_slice start (start + 4)) _ t (buf_slice-Post start (start + 4) t)
                λ bytes u (cut, same).
                  let back : start + 4 - 4 ≡ start = omega arith in
                  rw same ((bytes, rw back cut, refl), kept)
