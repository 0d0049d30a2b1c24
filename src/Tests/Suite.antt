-- ===== src/Tests/Suite.antt =====
-- The source's own tests of the server, with short texts.
use pcopy.Prelude.{ℕ, List, [], ◌∷◌}
use pcopy.Rust.Path.{slash}
use pcopy.Server.Suite.{Texts}
use pcopy.Tests.Instances.{list_order, ascii_paths}
use pcopy.Tests.Transfers.{greeting}

-- "/a/#", with a checksum of one ASCII byte.
abbrev texts : Texts
texts = record {
  get_folder_name = slash ∷ 1 ∷ slash ∷ 2 ∷ [];
  get_file_name = slash ∷ b'a' ∷ slash ∷ b'b' ∷ [];
  get_file_data = greeting;
}
