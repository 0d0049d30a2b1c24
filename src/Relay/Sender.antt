-- ===== src/Relay/Sender.antt =====
-- relay/sender.rs: a peer that asks the relay for a connection to another peer.
pub mod Outcomes
use pcopy.Prelude.{ℕ, zero, suc, Option, none, some}
use pcopy.Prelude.Outcome.{Outcome, ok, err, panic, stuck, map_err}
use pcopy.Prelude.Exec.{Exec, lift, continue, ◌>>=◌, ◌>>◌}
use pcopy.Rust.IoError.{IoError, invalid_data, other, connection_reset}
use pcopy.Rust.IpAddr.{IpAddr}
use pcopy.Crates.Bytes.{Bytes}
use pcopy.Crates.ByteOrder.{ByteOrder}
use pcopy.Relay.PeerId.{PeerId}
use pcopy.Relay.PeerInfo.{PeerInfo}
use pcopy.Relay.StatusCodes.{StatusCodes, success, failure}
use pcopy.Relay.RelayFrames.{RelayFrames, register, probe}
use pcopy.Relay.PeerFrames.{PeerFrames, register_result, probe_result}
use pcopy.Relay.Stream.{Stream}
use pcopy.Relay.Connection.{Connection, peer_read, peer_write}

-- What the host answers: the crate `local_ip_address`, whose errors are of its own type, and
-- `TcpStream::connect`.
pub record Host (E : Type 0) : Type 0 where
  pub local_ip : Outcome E IpAddr
  pub connect : IpAddr → ℕ → Outcome IoError Stream

-- One answer in the loop that waits for the result of Register. `more` is the next round.
unfoldable pub on_register :
    Outcome IoError (Option PeerFrames)
    → Outcome IoError (Unit {0}) × Connection
    → Exec Connection IoError (Unit {0})
on_register (ok (some (register_result success))) more c = (ok tt, c)
on_register (ok (some (register_result failure))) more c = (err other, c)
on_register (ok (some f)) more c = (err invalid_data, c)
on_register (ok none) more c = more
on_register (err e) more c = (err connection_reset, c)
on_register panic more c = (panic, c)
on_register stuck more c = (stuck, c)

-- The same in the loop that waits for the result of Probe.
unfoldable pub on_probe :
    Outcome IoError (Option PeerFrames)
    → Outcome IoError PeerInfo × Connection
    → Exec Connection IoError PeerInfo
on_probe (ok (some (probe_result (some pi)))) more c = (ok pi, c)
on_probe (ok (some (probe_result none))) more c = (err other, c)
on_probe (ok (some f)) more c = (err invalid_data, c)
on_probe (ok none) more c = more
on_probe (err e) more c = (err connection_reset, c)
on_probe panic more c = (panic, c)
on_probe stuck more c = (stuck, c)

module _ ⦃b : Bytes⦄ ⦃order : ByteOrder⦄ where
  -- `loop` on fuel; a round that reads the end of the stream goes on.
  unfoldable pub wait_registered : ℕ → Exec Connection IoError (Unit {0})
  unfolding on_register
  wait_registered zero c = (stuck, c)
  wait_registered (suc fuel) c =
      let (r, c') = peer_read c in let more = wait_registered fuel c' in on_register r more c'

  unfoldable pub wait_probed : ℕ → Exec Connection IoError PeerInfo
  unfolding on_probe
  wait_probed zero c = (stuck, c)
  wait_probed (suc fuel) c =
      let (r, c') = peer_read c in let more = wait_probed fuel c' in on_probe r more c'

  -- The answer to Probe is kept in a variable that nothing reads.
  unfoldable pub connect_to_peer :
      {E : Type 0} → Host E → ℕ → PeerId → PeerId → Exec Connection IoError Stream
  connect_to_peer host fuel source_peer_id destination_peer_id = do
    peer_write (register source_peer_id)
    wait_registered fuel
    peer_write (probe destination_peer_id)
    peer_info ← wait_probed fuel
    ip ← lift (map_err (λ e. other) host.local_ip)
    lift (host.connect ip 8080)
