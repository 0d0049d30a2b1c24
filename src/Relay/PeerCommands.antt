-- ===== src/Relay/PeerCommands.antt =====
-- relay/frame.rs: `PeerCommands`, what the relay tells a peer to do.
use pcopy.Prelude.{ℕ, List, [], ◌∷◌, ◌++◌}
use pcopy.Rust.IpAddr.{IpAddr, octets}

abbrev pub sync_code : ℕ
sync_code = 100

abbrev pub doconnect_code : ℕ
doconnect_code = 101

pub data PeerCommands : Type 0 where
  sync : PeerCommands
  doconnect : IpAddr → PeerCommands

unfoldable pub to_be_bytes : PeerCommands → List ℕ
to_be_bytes sync = sync_code ∷ []
to_be_bytes (doconnect source_ip) = (doconnect_code ∷ []) ++ octets source_ip
