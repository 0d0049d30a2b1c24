-- ===== src/Relay/Server/Cached.antt =====
-- What Register does to the cache.
use pcopy.Prelude.{ℕ, ◌≡◌, ◌≢◌, refl, ◌∙◌, Option, none, some}
use pcopy.Prelude.Outcome.{Outcome, ok, panic, or_panic}
use pcopy.Rust.IoError.{IoError}
use pcopy.Rust.IpAddr.{IpAddr}
use pcopy.Crates.Bytes.{Bytes}
use pcopy.Crates.ByteOrder.{ByteOrder}
use pcopy.Crates.DashMap.{DashMap}
use pcopy.Relay.PeerId.{PeerId}
use pcopy.Relay.Cache
use pcopy.Relay.Server.{PeerConnectionMetadata, World, register_peer, process_register_frame}
use pcopy.Prelude.Exec.{continue, pure}

-- Register has an answer for a peer that is known, and panics otherwise.
abbrev outcome : Option PeerConnectionMetadata → Outcome IoError (Unit {0})
outcome none = panic
outcome (some m) = ok tt

settle :
    {W : Type 0} (o : Option PeerConnectionMetadata) (w : W)
    → continue {S = W} {E = IoError} (or_panic o) (λ _. pure tt) w ≡ (outcome o, w)
settle none w = refl
settle (some m) w = refl

module _ (dash : DashMap PeerId PeerConnectionMetadata) where
  -- What the cache has of a peer.
  abbrev pub known : World dash → PeerId → Option PeerConnectionMetadata
  known w p = Cache.get dash w.conn_cache p

  -- The world with the peer's stream and address in the cache.
  abbrev pub registered : World dash → PeerId → IpAddr → ℕ → World dash
  registered w p source_ip id = record w {
    conn_cache = (Cache.insert dash w.conn_cache p (record { stream = id; ip_addr = source_ip })).1;
  }

  module _ (p : PeerId) (source_ip : IpAddr) (id : ℕ) (w : World dash) where
    pub known-registered_self :
        known (registered w p source_ip id) p ≡ some (record { stream = id; ip_addr = source_ip })
    unfolding Cache.get Cache.insert
    known-registered_self = dash.get-insert_self _ _ _

    pub known-registered_ne :
        (j : PeerId) → p ≢ j → known (registered w p source_ip id) j ≡ known w j
    unfolding Cache.get Cache.insert
    known-registered_ne j h = dash.get-insert_ne _ _ _ _ h

    pub register_peer_lem :
        register_peer dash p source_ip id w ≡ (outcome (known w p), registered w p source_ip id)
    unfolding register_peer Cache.get Cache.insert
    register_peer_lem =
        settle _ _
        ∙ rw (dash.insert_old w.conn_cache.inner p (record { stream = id; ip_addr = source_ip }))

    module _ ⦃b : Bytes⦄ ⦃order : ByteOrder⦄ where
      -- The first Register of a peer panics and answers nothing on any stream, while the cache has the
      -- peer from then on.
      pub process_register_frame_first :
          known w p ≡ none
          → (process_register_frame dash id source_ip p w ≡ (panic, registered w p source_ip id))
            × (known (registered w p source_ip id) p
                ≡ some (record { stream = id; ip_addr = source_ip }))
      unfolding process_register_frame
      process_register_frame_first unknown =
          (rw (register_peer_lem, unknown), known-registered_self)
