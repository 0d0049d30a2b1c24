-- ===== src/Relay/Server/Served.antt =====
-- The connections of the relay, as their own loops serve them by turns.
use pcopy.Prelude.{ℕ, List}
use pcopy.Rust.IpAddr.{IpAddr}
use pcopy.Rust.Duration.{Duration}
use pcopy.Crates.Bytes.{Bytes}
use pcopy.Crates.ByteOrder.{ByteOrder}
use pcopy.Crates.DashMap.{DashMap}
use pcopy.Relay.PeerId.{PeerId}
use pcopy.Relay.Stream.{Delivery}
use pcopy.Relay.Server.{PeerConnectionMetadata, World, process_connection, set_stream}

module _ ⦃b : Bytes⦄ ⦃order : ByteOrder⦄ (dash : DashMap PeerId PeerConnectionMetadata)
    (ips : ℕ → IpAddr) where
  -- What becomes of a world. `serves`: the loop of connection `i`, which comes from the address `ips i`,
  -- handles some frames, as many as the fuel lets it, and no other task takes part meanwhile. `arrives`:
  -- the network changes what a stream has to deliver.
  pub data Served (w : World dash) : World dash → Type 0 where
    idle : Served w w
    serves :
        {v : World dash} (i fuel : ℕ) (elapsed : ℕ → Duration) (buffer : List ℕ)
        → Served w v
        → Served w (process_connection dash fuel i (ips i) elapsed buffer v).1
    arrives :
        {v : World dash} (j : ℕ) (incoming : List Delivery)
        → Served w v
        → Served w (set_stream dash v j (record (v.streams j) { incoming = incoming }))
