-- ===== src/Server/Bounds.antt =====
-- The indices into the buffer of a connection, and its length.
pub mod Folder
pub mod Receive
pub mod File
pub mod Request
use pcopy.Prelude.{
  ℕ, zero, suc, ◌+◌, ◌-◌, min, ◌≤◌, ◌<◌, ◌≡◌, ◌∙◌, refl, arith, List, [], ◌∷◌, length, take,
  take_all, length-take, ltb, ltb_of_le, not, ◌==◌, Bool-cases, inl, inr, Option, none, some, slice,
}
use pcopy.Prelude.Outcome.{Outcome, ok, err, panic, stuck, or_panic, unwrap}
use pcopy.Prelude.Exec.{Exec, lift, continue, ◌>>=◌}
use pcopy.Rust.IoError.{IoError}
use pcopy.Rust.Disk.{Effect}
use pcopy.Crates.ByteOrder.{ByteOrder}
use pcopy.Crates.Crc32.{Crc32}
use pcopy.Relay.Stream.{Delivery, chunk, broken}
use pcopy.Server.Reader.{tcp_stream, tcp_read}
use pcopy.Server.Arrival.{length-overwrite}
use pcopy.Server.Session.{
  Session, BufferState, checked_sub, store, read_data, fill, buf_slice, log, read_checksum,
}

-- A call that is never short of fuel, and whose value has the property when it returns one.
abbrev pub Result : {A : Type 0} → (A → Type 0) → Outcome IoError A → Type 0
Result Q (ok a) = Q a
Result Q (err e) = Unit
Result Q panic = Unit
Result Q stuck = ⊥

-- Such a call, which leaves a buffer of `size` bytes behind, whether it returns or fails.
abbrev pub Sound :
    {A : Type 0} → ℕ → (A → Type 0) → Outcome IoError A × Session (List Delivery) → Type 0
Sound size Q run = Result Q run.0 × (length run.1.buf ≡ size)

abbrev pub Any : {A : Type 0} → A → Type 0
Any a = Unit

module _ {A : Type 0} where
  pub Result-and :
      (Q R : A → Type 0) (o : Outcome IoError A)
      → Result Q o
      → ((a : A) → o ≡ ok a → R a)
      → Result (λ a. Q a × R a) o
  Result-and Q R (ok a) q r = (q, r a refl)
  Result-and Q R (err e) q r = tt
  Result-and Q R panic q r = tt
  Result-and Q R stuck q r = q

  pub Result-map :
      (Q R : A → Type 0) (o : Outcome IoError A) → Result Q o → ((a : A) → Q a → R a) → Result R o
  Result-map Q R (ok a) q r = r a q
  Result-map Q R (err e) q r = tt
  Result-map Q R panic q r = tt
  Result-map Q R stuck q r = q

module _ {A B : Type 0} (size : ℕ) (Q : A → Type 0) (R : B → Type 0) where
  -- A block is sound when its parts are.
  pub >>=-Sound :
      (m : Exec (Session (List Delivery)) IoError A)
      (f : A → Exec (Session (List Delivery)) IoError B) (s : Session (List Delivery))
      → Sound size Q (m s)
      → ((a : A) (t : Session (List Delivery)) → Q a → length t.buf ≡ size → Sound size R (f a t))
      → Sound size R ((m >>= f) s)
  >>=-Sound m f s h k = go (m s).0 h.0
    where
      go : (o : Outcome IoError A) → Result Q o → Sound size R (continue o f (m s).1)
      go (ok a) q = k a (m s).1 q h.1
      go (err e) q = (tt, h.1)
      go panic q = (tt, h.1)
      go stuck q = absurd q

pub checked_sub-Result : (a b : ℕ) → Result (λ c. (b ≤ a) × (c ≡ a - b)) (checked_sub a b)
unfolding checked_sub
checked_sub-Result a b = elim (Bool-cases (ltb a b)) [
  | inl less ↦ rw less tt
  | inr enough ↦ rw enough (ground arith, refl)
]

or_panic-Result : {A : Type 0} (o : Option A) → Result Any (or_panic o)
or_panic-Result none = tt
or_panic-Result (some a) = tt

pub buf_slice-Sound :
    (lo hi : ℕ) (s : Session (List Delivery)) → Sound (length s.buf) Any (buf_slice lo hi s)
unfolding buf_slice
buf_slice-Sound lo hi s = (or_panic-Result (slice s.buf lo hi), refl)

-- A read writes into the buffer and not over its end.
abbrev Within : List ℕ → ℕ → Outcome IoError (ℕ × List ℕ × List Delivery) → Type 0
Within buf i = Result (λ r. (i + r.0 ≤ length buf) × (length r.1 ≡ length buf))

tcp_read-Within : (t : List Delivery) (buf : List ℕ) (i : ℕ) → Within buf i (tcp_read t buf i)
unfolding tcp_read
tcp_read-Within [] buf i = elim (Bool-cases (ltb (length buf) i)) [
  | inl outside ↦ rw outside tt
  | inr inside ↦ rw inside (ground arith, refl)
]
tcp_read-Within (broken e ∷ more) buf i = elim (Bool-cases (ltb (length buf) i)) [
  | inl outside ↦ rw outside tt
  | inr inside ↦ rw inside tt
]
tcp_read-Within (chunk bytes ∷ more) buf i = elim (Bool-cases (ltb (length buf) i)) [
  | inl outside ↦ rw outside tt
  | inr inside ↦
      let n : ℕ = min (length bytes) (length buf - i) in
      let low : i + n ≤ length buf = ground arith in
      rw inside
        (low, length-overwrite buf i (take n bytes) (omega (arith, low, length-take n bytes)))
]

store-Sound :
    (s : Session (List Delivery)) (i : ℕ) (o : Outcome IoError (ℕ × List ℕ × List Delivery))
    → Within s.buf i o
    → Sound (length s.buf) (λ n. i + n ≤ length s.buf) (store s (unwrap o))
unfolding store
store-Sound s i (ok (n, buf, socket)) w = w
store-Sound s i (err e) w = (tt, refl)
store-Sound s i panic w = (tt, refl)
store-Sound s i stuck w = absurd w

pub read_data-Sound :
    (i : ℕ) (s : Session (List Delivery))
    → Sound (length s.buf) (λ n. i + n ≤ length s.buf) (read_data i s)
unfolding read_data
read_data-Sound i s = store-Sound s i _ (tcp_read-Within s.socket s.buf i)

module _ (size : ℕ) where
  -- The loop in front of a field ends with the bytes of the field in the buffer.
  pub fill-Sound :
      (fuel need end start : ℕ) (s : Session (List Delivery))
      → length s.buf ≡ size
      → need ≤ fuel + (end - start)
      → end ≤ size
      → Sound size (λ e. (start + need ≤ e) × (e ≤ size)) (fill fuel need end start s)
  unfolding fill checked_sub
  fill-Sound zero need end start s same h room = elim (Bool-cases (ltb end start)) [
    | inl below ↦ rw below (tt, same)
    | inr above ↦
        rw (above, ltb_of_le (end - start) need (omega arith)) ((ground arith, room), same)
  ]
  fill-Sound (suc fuel) need end start s same h room = elim (Bool-cases (ltb end start)) [
    | inl below ↦ rw below (tt, same)
    | inr above ↦ elim (Bool-cases (ltb (end - start) need)) [
      | inr there ↦ rw (above, there) ((ground arith, room), same)
      | inl missing ↦
          rw (above, missing)
            (>>=-Sound size (λ n. end + n ≤ size) _ (read_data end) _ s
              (rw same at (read_data-Sound end s))
              λ n t low kept. elim (Bool-cases (n == 0)) [
                | inl nothing ↦ rw nothing (tt, kept)
                | inr some_bytes ↦
                    rw some_bytes (fill-Sound fuel need (end + n) start t kept (ground arith) low)
              ])
    ]
  ]

  pub slice-Sound :
      (lo hi : ℕ) (s : Session (List Delivery))
      → length s.buf ≡ size
      → Sound size Any (buf_slice lo hi s)
  slice-Sound lo hi s same = rw same at (buf_slice-Sound lo hi s)

  -- What the server knows behind a part of a request: the indices are in order and in the buffer.
  abbrev pub InOrder : BufferState → Type 0
  InOrder b = (b.start_index ≤ b.end_index) × (b.end_index ≤ size)

  pub read_checksum-Sound :
      ⦃order : ByteOrder⦄ (crc : Crc32) (end start : ℕ) (s : Session (List Delivery))
      → length s.buf ≡ size
      → end ≤ size
      → Sound size (λ (r : ℕ × BufferState). InOrder r.1) (read_checksum crc end start s)
  unfolding read_checksum
  read_checksum-Sound crc end start s same room =
      >>=-Sound size _ _ (fill 4 4 end start) _ s
        (fill-Sound 4 4 end start s same (omega arith) room)
        λ e t low kept.
          >>=-Sound size Any _ (buf_slice start (start + 4)) _ t
            (slice-Sound start (start + 4) t kept) λ bytes u done kept'. (low, kept')
