-- ===== src/Relay/Server/Rendezvous.antt =====
-- Two peers that find each other by the relay: what each of them reads of it.
use pcopy.Prelude.{
  ℕ, List, [], ◌∷◌, ◌++◌, ◌≡◌, ◌≢◌, refl, sym, ap, ◌∙◌, append-nil, ◌==◌, ==_of_eq, false, arith,
  some,
}
use mathlib.Core.List.{append_cancel_left}
use pcopy.Prelude.Outcome.{ok}
use pcopy.Rust.IpAddr.{IpAddr}
use pcopy.Rust.Duration.{Duration}
use pcopy.Crates.Bytes.{Bytes}
use pcopy.Crates.ByteOrder.{ByteOrder}
use pcopy.Crates.DashMap.{DashMap}
use pcopy.Relay.PeerId.{PeerId}
use pcopy.Relay.PeerInfo
use pcopy.Relay.PeerInfo.{PeerInfo}
use pcopy.Relay.StatusCodes.{success}
use pcopy.Relay.PeerCommands.{doconnect}
use pcopy.Relay.Stream.{Stream, Delivery}
use pcopy.Relay.FrameHelper.Reading.{deliveries, delivered, read_all}
use pcopy.Relay.Connection.{new, read_frame, peer_read}
use pcopy.Relay.Connection.Exchange.{quiet}
use pcopy.Relay.RelayFrames.{do_connect, probe, probe_ack}
use pcopy.Relay.RelayFrames.Trait.{relay_frame}
use pcopy.Relay.PeerFrames.{
  PeerFrames, IsPeerFrame, received, probe_result, do_connect_result, command,
}
use pcopy.Relay.PeerFrames.Trait.{peer_frame, peer_frame_laws}
use pcopy.Relay.Server.{PeerConnectionMetadata, World, init, process_frame}
use pcopy.Relay.Server.Cached.{known}
use pcopy.Relay.Server.Served.{Served}
use pcopy.Relay.Server.Address.{own_address}
use pcopy.Relay.Server.Answers.{bytes_on}
use pcopy.Relay.Server.Handled.{process_frame-Sends}
use pcopy.Relay.Server.Peers.{verdict, process_probe_frame_known}

module _ ⦃b : Bytes⦄ ⦃order : ByteOrder⦄ where
  -- A frame that was all that went out on a stream is what a fresh connection reads of it.
  peer_reads :
      (g : PeerFrames) (old out : List ℕ) (cs : List (ℕ × List ℕ)) (later : List Delivery)
      → IsPeerFrame g
      → out ≡ old ++ peer_frame.to_be_bytes g
      → out ≡ old ++ delivered cs
      → (peer_read (new (quiet (deliveries cs later)))).0 ≡ ok (some (received g))
  unfolding peer_read read_frame new
  peer_reads g old out cs later valid wrote came =
      let bytes : delivered cs ≡ peer_frame.to_be_bytes g ++ [] =
        append_cancel_left old (delivered cs) (peer_frame.to_be_bytes g) (sym came ∙ wrote)
        ∙ sym (append-nil (peer_frame.to_be_bytes g)) in
      let (r, left, result, same) =
        read_all peer_frame peer_frame_laws cs later [] g [] valid bytes in
      rw result

  module _ (dash : DashMap PeerId PeerConnectionMetadata) (p : PeerId) (id : ℕ) (w : World dash)
      (m : PeerConnectionMetadata) (cached : known dash w p ≡ some m) (others : id ≢ m.stream) where
    bytes_on_first :
        (i j : ℕ) (f g : PeerFrames)
        → i ≢ j
        → bytes_on j ((j, f) ∷ (i, g) ∷ []) ≡ peer_frame.to_be_bytes f
    unfolding bytes_on
    bytes_on_first i j f g differ =
        let other : (j == i) ≡ false = ground arith in
        rw (==_of_eq j j refl, other) (append-nil (peer_frame.to_be_bytes f))

    bytes_on_second :
        (i j : ℕ) (f g : PeerFrames)
        → i ≢ j
        → bytes_on i ((j, f) ∷ (i, g) ∷ []) ≡ peer_frame.to_be_bytes g
    unfolding bytes_on
    bytes_on_second i j f g differ =
        let other : (i == j) ≡ false = ground arith in
        rw (other, ==_of_eq i i refl) (append-nil (peer_frame.to_be_bytes g))

    -- DoConnect of a peer that the cache has on another stream, where writing works: the peer reads the
    -- command to connect to the address of the asker, and the asker reads a success, in whatever pieces
    -- what the relay has sent arrives and whatever comes later. The address is four bytes, no other task
    -- takes part meanwhile, and each of the two reads with a buffer that is empty yet.
    pub do_connect_delivered :
        (source_ip : IpAddr) (elapsed : Duration) (cs cs' : List (ℕ × List ℕ))
        (later later' : List Delivery)
        → ((j : ℕ) → (w.streams j).sendings ≡ [])
        → IsPeerFrame (command (doconnect source_ip))
        → ((process_frame dash (do_connect p) id source_ip elapsed w).1.streams m.stream).outgoing
          ≡ (w.streams m.stream).outgoing ++ delivered cs
        → ((process_frame dash (do_connect p) id source_ip elapsed w).1.streams id).outgoing
          ≡ (w.streams id).outgoing ++ delivered cs'
        → ((process_frame dash (do_connect p) id source_ip elapsed w).0 ≡ ok tt)
          × ((peer_read (new (quiet (deliveries cs later)))).0
              ≡ ok (some (command (doconnect source_ip))))
          × ((peer_read (new (quiet (deliveries cs' later')))).0
              ≡ ok (some (do_connect_result success)))
    unfolding received
    do_connect_delivered source_ip elapsed cs cs' later later' works valid came came' =
        let (done, wrote) =
          rw cached at (process_frame-Sends dash id source_ip elapsed w works (do_connect p)) in
        let order_to = command (doconnect source_ip) in
        let reply = do_connect_result success in
        (
          done,
          peer_reads order_to _ _ cs later valid
              (wrote.bytes m.stream
                ∙ ap (λ bs. (w.streams m.stream).outgoing ++ bs)
                    (bytes_on_first id m.stream order_to reply others))
              came,
          peer_reads reply _ _ cs' later' tt
              (wrote.bytes id
                ∙ ap (λ bs. (w.streams id).outgoing ++ bs)
                    (bytes_on_second id m.stream order_to reply others))
              came',
        )

    -- Probe of a peer that the cache has on another stream, in a world to which the relay came by serving
    -- its connections, where writing works on both streams and the peer answers with ProbeAck next: the
    -- asker reads the address from which the connection of that peer's stream comes, and the time that
    -- the probe took as a frame keeps it, in whatever pieces what the relay has sent arrives and whatever
    -- comes later. No other task takes part during the probe, the address and the time are some that a
    -- frame can hold, and the asker reads with a buffer that is empty yet.
    pub probe_delivered :
        (ips : ℕ → IpAddr) (ip : List ℕ) (port : ℕ) (streams : ℕ → Stream) (elapsed : Duration)
        (acks cs : List (ℕ × List ℕ)) (later later' : List Delivery) (rest : List ℕ)
        → Served dash ips (init dash ip port streams) w
        → (w.streams id).sendings ≡ []
        → (w.streams m.stream).sendings ≡ []
        → (w.streams m.stream).incoming ≡ deliveries acks later
        → delivered acks ≡ relay_frame.to_be_bytes probe_ack ++ rest
        → PeerInfo.IsPeerInfo (record { peer_id = p; ip = ips m.stream; ping_rtt = elapsed })
        → ((process_frame dash (probe p) id (ips id) elapsed w).1.streams id).outgoing
          ≡ (w.streams id).outgoing ++ delivered cs
        → ((process_frame dash (probe p) id (ips id) elapsed w).0 ≡ ok tt)
          × ((peer_read (new (quiet (deliveries cs later')))).0
              ≡ ok (
                  some (
                    probe_result (
                      some (
                        PeerInfo.received
                          (record { peer_id = p; ip = ips m.stream; ping_rtt = elapsed }))))))
    unfolding process_frame received verdict
    probe_delivered ips ip port streams elapsed acks cs later later' rest served works works'
          incoming acked valid came =
        let (done, answered, lost, left, kept, split) =
          process_probe_frame_known dash p id w m cached others works works' probe_ack elapsed acks
            later rest tt incoming acked in
        let own : m.ip_addr ≡ ips m.stream =
          own_address dash ips ip port streams w p m served cached in
        let reply : PeerFrames =
          probe_result (some (record { peer_id = p; ip = ips m.stream; ping_rtt = elapsed })) in
        (
          done,
          peer_reads reply _ _ cs later' valid
              (ap (λ (s : Stream). s.outgoing) answered
                ∙ ap
                    (λ a.
                      (w.streams id).outgoing
                      ++ peer_frame.to_be_bytes (
                          probe_result (some (record { peer_id = p; ip = a; ping_rtt = elapsed }))))
                    own)
              came,
        )
