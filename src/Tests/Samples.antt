-- ===== src/Tests/Samples.antt =====
-- Peers, addresses and a host.
use pcopy.Prelude.{ℕ, [], replicate, some}
use pcopy.Prelude.Outcome.{ok}
use pcopy.Rust.IpAddr.{IpAddr, v4}
use pcopy.Rust.Duration.{from_millis}
use pcopy.Relay.PeerId.{PeerId}
use pcopy.Relay.PeerInfo.{PeerInfo}
use pcopy.Relay.PeerFrames.{PeerFrames, probe_result}
use pcopy.Relay.Sender.{Host}
use pcopy.Relay.Connection.Exchange.{quiet}

abbrev pub alice : PeerId
alice = record { bytes = replicate 64 7 }

abbrev pub bob : PeerId
bob = record { bytes = replicate 64 9 }

abbrev pub address : IpAddr
address = v4 10 0 0 1

abbrev pub alice_found : PeerInfo
alice_found = record { peer_id = alice; ip = address; ping_rtt = from_millis 25 }

abbrev pub found : PeerFrames
found = probe_result (some alice_found)

abbrev pub host : Host ℕ
host = record { local_ip = ok address; connect = λ ip port. ok (quiet []) }
