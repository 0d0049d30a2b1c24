-- ===== src/Rust/IpAddr.antt =====
-- std::net::IpAddr.
use pcopy.Prelude.{ℕ, ◌<◌, ◌≡◌, List, [], ◌∷◌, length}

-- A V6 address is its 16 octets.
pub data IpAddr : Type 0 where
  v4 : ℕ → ℕ → ℕ → ℕ → IpAddr
  v6 : List ℕ → IpAddr

-- `octets`, and `as_octets`
unfoldable pub octets : IpAddr → List ℕ
octets (v4 a b c d) = a ∷ b ∷ c ∷ d ∷ []
octets (v6 bs) = bs

abbrev pub IsIpAddr : IpAddr → Type 0
IsIpAddr (v4 a b c d) = (a < 256) × (b < 256) × (c < 256) × (d < 256)
IsIpAddr (v6 bs) = length bs ≡ 16
