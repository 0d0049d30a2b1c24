-- ===== src/Relay/Cache.antt =====
-- relay/cache.rs: `Cache`, over the crate's map.
use pcopy.Prelude.{ℕ, Option}
use pcopy.Crates.DashMap.{DashMap}

module _ {K V : Type 0} (dash : DashMap K V) where
  open dash use {Map}

  pub record Cache : Type 0 where
    pub inner : Map

  unfoldable pub new : ℕ → Cache
  new initial_capacity = record { inner = dash.with_capacity initial_capacity }

  unfoldable pub get : Cache → K → Option V
  get c key = dash.get c.inner key

  -- The old value, and the cache that has the new one.
  unfoldable pub insert : Cache → K → V → Option V × Cache
  insert c key value = let (old, m) = dash.insert c.inner key value in (old, record { inner = m })
