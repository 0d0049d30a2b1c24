-- ===== src/Relay/Server/Address.antt =====
-- The addresses that the cache of the relay has.
use pcopy.Prelude.{ℕ, some, ◌≡◌, ◌≢◌, refl, sym, ◌∙◌, ap, inl, inr, ◌⊎◌}
use mathlib.Core.Path.{subst}
use native.Mathlib.Decide.{ℕ_discrete}
use mathlib.Core.List.{List, List-discrete}
use pcopy.Rust.IpAddr.{IpAddr}
use pcopy.Crates.Bytes.{Bytes}
use pcopy.Crates.ByteOrder.{ByteOrder}
use pcopy.Crates.DashMap.{DashMap}
use pcopy.Relay.Cache
use pcopy.Relay.PeerId.{PeerId}
use pcopy.Relay.Stream.{Stream}
use pcopy.Relay.Server.{PeerConnectionMetadata, World, init, write_to, set_stream}
use pcopy.Relay.Server.Cached.{
  known, registered, register_peer_lem, known-registered_self, known-registered_ne,
}
use pcopy.Relay.Server.Acts.{
  read_from-world, Act, waits, reads, writes, registers, Reach, here, later, Only,
  process_connection-Reach,
}
use pcopy.Relay.Server.Served.{Served, idle, serves, arrives}

same_peer : (p q : PeerId) → (p ≡ q) ⊎ (p ≢ q)
same_peer p q = elim (List-discrete ℕ_discrete p.bytes q.bytes) [
  | yes e ↦ inl (λ i. record { bytes = e i })
  | no ne ↦ inr (λ e. ne (ap (λ (r : PeerId). r.bytes) e))
]

module _ ⦃b : Bytes⦄ ⦃order : ByteOrder⦄ (dash : DashMap PeerId PeerConnectionMetadata)
    (ips : ℕ → IpAddr) where
  -- Every address in the cache is the one from which the connection of its stream comes.
  abbrev OwnAddresses : World dash → Type 0
  OwnAddresses w =
      (p : PeerId) (m : PeerConnectionMetadata) → known dash w p ≡ some m → m.ip_addr ≡ ips m.stream

  registered-OwnAddresses :
      (i : ℕ) (p : PeerId) (w : World dash)
      → OwnAddresses w
      → OwnAddresses (registered dash w p (ips i) i)
  registered-OwnAddresses i p w own q m e = elim (same_peer p q) [
    | inl same ↦
        let entry : PeerConnectionMetadata = record { stream = i; ip_addr = ips i } in
        let new : some entry ≡ some m =
          sym (known-registered_self dash p (ips i) i w)
          ∙ ap (λ q. known dash (registered dash w p (ips i) i) q) same
          ∙ e in
        let it : entry ≡ m = cc in
        subst (λ (x : PeerConnectionMetadata). x.ip_addr ≡ ips x.stream) it refl
    | inr differ ↦ own q m (sym (known-registered_ne dash p (ips i) i w q differ) ∙ e)
  ]

  Act-OwnAddresses :
      (i : ℕ) (w v : World dash) → OwnAddresses w → Act dash ips i w v → OwnAddresses v
  Act-OwnAddresses i w _ own (waits j incoming) = unfold set_stream in own
  Act-OwnAddresses i w _ own (reads j buffer) =
      rw (read_from-world dash ips j buffer w) (unfold set_stream in own)
  Act-OwnAddresses i w _ own (writes j f) = unfold write_to set_stream in own
  Act-OwnAddresses i w _ own (registers p) =
      rw (register_peer_lem dash p (ips i) i w) (registered-OwnAddresses i p w own)

  Reach-OwnAddresses :
      (Runs : ℕ → Type 0) (w v : World dash)
      → OwnAddresses w
      → Reach dash ips Runs w v
      → OwnAddresses v
  Reach-OwnAddresses Runs w v own here = own
  Reach-OwnAddresses Runs w v own (later {v = u} i runs r a) =
      Act-OwnAddresses i u v (Reach-OwnAddresses Runs w u own r) a

  Served-OwnAddresses : (w v : World dash) → OwnAddresses w → Served dash ips w v → OwnAddresses v
  Served-OwnAddresses w _ own idle = own
  Served-OwnAddresses w _ own (serves {v = v} i fuel elapsed buffer r) =
      Reach-OwnAddresses (Only i) v _ (Served-OwnAddresses w v own r)
        (process_connection-Reach dash ips i fuel elapsed buffer v)
  Served-OwnAddresses w _ own (arrives {v = v} j incoming r) =
      Act-OwnAddresses 0 v _ (Served-OwnAddresses w v own r) (waits j incoming)

  -- From the start of the relay on, whatever its connections receive and in whatever order their loops
  -- run, each for any number of frames without another in between, an address in the cache is the one
  -- from which the connection of its stream comes.
  pub own_address :
      (ip : List ℕ) (port : ℕ) (streams : ℕ → Stream) (w : World dash) (p : PeerId)
      (m : PeerConnectionMetadata)
      → Served dash ips (init dash ip port streams) w
      → known dash w p ≡ some m
      → m.ip_addr ≡ ips m.stream
  unfolding init Cache.new Cache.get
  own_address ip port streams w p m r e =
      Served-OwnAddresses (init dash ip port streams) w nobody r p m e
    where
      nobody : OwnAddresses (init dash ip port streams)
      nobody q n e = cc (dash.get-with_capacity 1024 q)
