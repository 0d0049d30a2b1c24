-- ===== src/Prelude/Exec.antt =====
-- Methods that change a state and may fail. What was changed before a failure stays changed, so the
-- state comes back with every outcome.
use mathlib.Core.Path.{◌≡◌, refl}
use pcopy.Prelude.Outcome.{Outcome, ok, err, panic, stuck, Ends}

abbrev pub Exec {ℓ} : Type ℓ → Type ℓ → Type ℓ → Type ℓ
Exec S E A = S → Outcome E A × S

module _ {ℓ} {S E A : Type ℓ} where
  abbrev pub pure : A → Exec S E A
  pure a s = (ok a, s)

  abbrev pub raise : E → Exec S E A
  raise e s = (err e, s)

  abbrev pub lift : Outcome E A → Exec S E A
  lift m s = (m, s)

module _ {ℓ} {S E A B : Type ℓ} where
  abbrev pub continue : Outcome E A → (A → Exec S E B) → Exec S E B
  continue (ok a) f s = f a s
  continue (err e) f s = (err e, s)
  continue panic f s = (panic, s)
  continue stuck f s = (stuck, s)

  infixl 5 ◌>>=◌ ◌>>◌
  abbrev pub ◌>>=◌ : Exec S E A → (A → Exec S E B) → Exec S E B
  ◌>>=◌ m f s = let (r, s') = m s in continue r f s'

  abbrev pub ◌>>◌ : Exec S E A → Exec S E B → Exec S E B
  m >> n = m >>= λ _. n

module _ {ℓ} {S E A B : Type ℓ} where
  -- Inversion of a block that ended well.
  pub >>=-eq-ok :
      (m : Exec S E A) (f : A → Exec S E B) (s : S) {b : B}
      → ((m >>= f) s).0 ≡ ok b
      → (a : A) × ((m s).0 ≡ ok a) × ((f a (m s).1).0 ≡ ok b)
  >>=-eq-ok m f s {b} h = go (m s).0 refl h
    where
      go :
          (r : Outcome E A)
          → (m s).0 ≡ r
          → (continue r f (m s).1).0 ≡ ok b
          → (a : A) × ((m s).0 ≡ ok a) × ((f a (m s).1).0 ≡ ok b)
      go (ok a) e k = (a, e, k)
      go (err x) e k = cc
      go panic e k = cc
      go stuck e k = cc

  pub >>=-ok :
      (m : Exec S E A) (f : A → Exec S E B) (s : S) {a : A}
      → (m s).0 ≡ ok a
      → (m >>= f) s ≡ f a (m s).1
  >>=-ok m f s h = rw h

  pub >>=-run :
      (m : Exec S E A) (f : A → Exec S E B) (s t : S) {a : A}
      → m s ≡ (ok a, t)
      → (m >>= f) s ≡ f a t
  >>=-run m f s t h = rw h

  pub >>=-err :
      (m : Exec S E A) (f : A → Exec S E B) (s : S) {e : E}
      → (m s).0 ≡ err e
      → ((m >>= f) s).0 ≡ err e
  >>=-err m f s h = rw h

  pub >>=-stuck :
      (m : Exec S E A) (f : A → Exec S E B) (s : S) → (m s).0 ≡ stuck → ((m >>= f) s).0 ≡ stuck
  >>=-stuck m f s h = rw h

  -- Fuel is enough for a block when it is for each of its parts.
  pub >>=-Ends :
      (m : Exec S E A) (f : A → Exec S E B) (s : S)
      → Ends (m s).0
      → ((a : A) → (m s).0 ≡ ok a → Ends (f a (m s).1).0)
      → Ends ((m >>= f) s).0
  >>=-Ends m f s h k = go (m s).0 refl h
    where
      go : (r : Outcome E A) → (m s).0 ≡ r → Ends r → Ends (continue r f (m s).1).0
      go (ok a) e i = k a e
      go (err x) e i = tt
      go panic e i = tt
      go stuck e i = i

module _ {ℓ} {S E A B C : Type ℓ} where
  pub >>=-assoc :
      (m : Exec S E A) (f : A → Exec S E B) (g : B → Exec S E C) (s : S)
      → ((m >>= f) >>= g) s ≡ (m >>= λ a. f a >>= g) s
  >>=-assoc m f g s = go (m s).0 (m s).1
    where
      go :
          (r : Outcome E A) (t : S)
          → (let (r', t') = continue r f t in continue r' g t') ≡ continue r (λ a. f a >>= g) t
      go (ok a) t = refl
      go (err e) t = refl
      go panic t = refl
      go stuck t = refl
