-- ===== src/Server/Address.antt =====
-- server/server.rs: `Server`, and the address on which it listens.
use pcopy.Prelude.{ℕ, List, [], ◌∷◌, ◌++◌}
use pcopy.Rust.Text.{decimal, colon}

pub record Server : Type 0 where
  pub ip : List ℕ
  pub port : ℕ

unfoldable pub init : List ℕ → ℕ → Server
init ip port = record { ip = ip; port = port }

unfoldable pub server_address : Server → List ℕ
server_address s = (s.ip ++ colon ∷ []) ++ decimal s.port
