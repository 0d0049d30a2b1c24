-- ===== src/Tests/Folders.antt =====
-- Requests for folders.
use pcopy.Prelude.{ℕ, ◌≢◌, arith, List, [], ◌∷◌, replicate}
use pcopy.Rust.Path.{slash}
use pcopy.Relay.Stream.{Delivery}
use pcopy.Server.Reader.{tcp_stream}
use pcopy.Server.Session.{Session}
use pcopy.Tests.Instances.{list_order, ascii_paths, sum, good_disk}

-- "/r"
abbrev pub root : List ℕ
root = slash ∷ b'r' ∷ []

-- "a/b"
abbrev pub inside : List ℕ
inside = b'a' ∷ slash ∷ b'b' ∷ []

-- A request for "a/b" with a checksum of one byte.
abbrev asks : ℕ → Session (List Delivery)
asks k = record {
  socket = [];
  buf = 1 ∷ 0 ∷ 3 ∷ b'a' ∷ slash ∷ b'b' ∷ 0 ∷ 0 ∷ 0 ∷ k ∷ replicate 4 0;
  effects = [];
}

pub sum_differs : sum.finalize (sum.update sum.new inside) ≢ 7
unfolding pcopy.Tests.Instances.total
sum_differs = omega arith
