-- ===== src/Crates/DashMap.antt =====
-- Crate `dashmap`: a map with interior mutability; a change returns the changed map.
use pcopy.Prelude.{ℕ, ◌≡◌, ◌≢◌, Option, none, some}

pub record DashMap (K V : Type 0) : Type 1 where
  pub Map : Type 0
  pub with_capacity : ℕ → Map
  pub get : Map → K → Option V
  -- the old value, and the map that has the new one
  pub insert : Map → K → V → Option V × Map
  pub get-with_capacity : (n : ℕ) (k : K) → get (with_capacity n) k ≡ none
  pub insert_old : (m : Map) (k : K) (v : V) → (insert m k v).0 ≡ get m k
  pub get-insert_self : (m : Map) (k : K) (v : V) → get (insert m k v).1 k ≡ some v
  pub get-insert_ne : (m : Map) (k j : K) (v : V) → k ≢ j → get (insert m k v).1 j ≡ get m j
