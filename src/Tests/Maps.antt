-- ===== src/Tests/Maps.antt =====
-- The crate `dashmap`, over a list of pairs.
use pcopy.Prelude.{
  ℕ, ◌≡◌, ◌≢◌, refl, arith, Bool, true, false, List, [], ◌∷◌, ◌==◌, ==_iff, if◌then◌else◌, Option,
  none, some, Bool-cases, inl, inr,
}
use pcopy.Crates.DashMap.{DashMap}
use pcopy.Relay.PeerId.{PeerId}
use pcopy.Relay.Server.{PeerConnectionMetadata}

unfoldable pub same : List ℕ → List ℕ → Bool
same [] [] = true
same (x ∷ xs) (y ∷ ys) = if x == y then same xs ys else false
same _ _ = false

same_self : (xs : List ℕ) → same xs xs ≡ true
unfolding same
same_self [] = refl
same_self (x ∷ xs) = let t : (x == x) ≡ true = ground arith in rw t (same_self xs)

same-eq : (xs ys : List ℕ) → same xs ys ≡ true → xs ≡ ys
unfolding same
same-eq [] [] h = refl
same-eq [] (y ∷ ys) h = cc
same-eq (x ∷ xs) [] h = cc
same-eq (x ∷ xs) (y ∷ ys) h = elim (Bool-cases (x == y)) [
  | inl t ↦ let e : xs ≡ ys = same-eq xs ys (rw t at h) in rw ((==_iff x y).0 t, e)
  | inr f ↦ cc (rw f at h)
]

unfoldable pub lookup :
    List (PeerId × PeerConnectionMetadata) → PeerId → Option PeerConnectionMetadata
lookup [] k = none
lookup ((j, v) ∷ m) k = if same j.bytes k.bytes then some v else lookup m k

pub lookup-nil : (n : ℕ) (k : PeerId) → lookup [] k ≡ none
unfolding lookup
lookup-nil n k = refl

pub lookup_self :
    (m : List (PeerId × PeerConnectionMetadata)) (k : PeerId) (v : PeerConnectionMetadata)
    → lookup ((k, v) ∷ m) k ≡ some v
unfolding lookup
lookup_self m k v = rw same_self

pub lookup_ne :
    (m : List (PeerId × PeerConnectionMetadata)) (k j : PeerId) (v : PeerConnectionMetadata)
    → k ≢ j
    → lookup ((k, v) ∷ m) j ≡ lookup m j
unfolding lookup
lookup_ne m k j v ne = elim (Bool-cases (same k.bytes j.bytes)) [
  | inl t ↦
      let e : k.bytes ≡ j.bytes = same-eq k.bytes j.bytes t in
      absurd (ne (λ i. record { bytes = e i }))
  | inr f ↦ rw f
]

abbrev pub pairs : DashMap PeerId PeerConnectionMetadata
pairs = record {
  Map = List (PeerId × PeerConnectionMetadata);
  with_capacity = λ n. [];
  get = lookup;
  insert = λ m k v. (lookup m k, (k, v) ∷ m);
  get-with_capacity = lookup-nil;
  insert_old = λ m k v. refl;
  get-insert_self = lookup_self;
  get-insert_ne = lookup_ne;
}
