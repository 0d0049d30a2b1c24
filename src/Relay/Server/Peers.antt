-- ===== src/Relay/Server/Peers.antt =====
-- A probe of a peer that the cache has.
use pcopy.Prelude.{
  arith, ℕ, List, [], ◌++◌, ◌≡◌, ◌≢◌, refl, sym, ap, ◌∙◌, ◌==◌, ==_of_eq, some, none, false,
}
use pcopy.Prelude.Outcome.{ok, Outcome}
use pcopy.Prelude.Exec.{>>=-run}
use pcopy.Rust.IoError.{IoError}
use pcopy.Rust.Duration.{Duration}
use pcopy.Crates.Bytes.{Bytes}
use pcopy.Crates.ByteOrder.{ByteOrder}
use pcopy.Crates.DashMap.{DashMap}
use pcopy.Relay.PeerId.{PeerId}
use pcopy.Relay.PeerInfo.{PeerInfo}
use pcopy.Relay.PeerCommands.{sync}
use pcopy.Relay.Stream
use pcopy.Relay.Stream.{Stream, Delivery}
use pcopy.Relay.FrameHelper.{write_frame_given_stream}
use pcopy.Relay.FrameHelper.Reading.{deliveries, delivered, read_all}
use pcopy.Relay.RelayFrames.{
  probe_ack, RelayFrames, IsRelayFrame, register, probe, do_connect, ping,
}
use pcopy.Relay.RelayFrames.Trait.{relay_frame, relay_frame_laws}
use pcopy.Relay.PeerFrames.{PeerFrames, command, probe_result}
use pcopy.Relay.PeerFrames.Trait.{peer_frame}
use pcopy.Relay.Server.{
  PeerConnectionMetadata, World, write_to, set_stream, read_from, read_ack, probe_found, answer,
  probe_answer, process_probe_frame, probe_peer,
}
use pcopy.Relay.Server.Cached.{known}

-- What the probe makes of the frame that the peer sends: an answer for the asker if it is ProbeAck.
unfoldable pub verdict : RelayFrames → PeerInfo → PeerFrames
verdict probe_ack info = probe_result (some info)
verdict _ info = probe_result none

module _ ⦃b : Bytes⦄ ⦃order : ByteOrder⦄ where
  -- A stream behind a frame that is written without an error.
  abbrev pub sent : Stream → PeerFrames → Stream
  sent s f = record {
    incoming = s.incoming;
    sendings = [];
    outgoing = s.outgoing ++ peer_frame.to_be_bytes f;
  }

module _ ⦃b : Bytes⦄ ⦃order : ByteOrder⦄ (dash : DashMap PeerId PeerConnectionMetadata) where
  pub write_ok :
      (j : ℕ) (w : World dash) (f : PeerFrames)
      → (w.streams j).sendings ≡ []
      → write_to dash j f w ≡ (ok tt, set_stream dash w j (sent (w.streams j) f))
  unfolding write_to write_frame_given_stream Stream.write_all
  write_ok j w f e = rw e

  pub stream_self : (w : World dash) (j : ℕ) (s : Stream) → (set_stream dash w j s).streams j ≡ s
  unfolding set_stream
  stream_self w j s = rw (==_of_eq j j refl)

  pub stream_ne :
      (w : World dash) (i j : ℕ) (s : Stream)
      → i ≢ j
      → (set_stream dash w j s).streams i ≡ w.streams i
  unfolding set_stream
  stream_ne w i j s differ = let t : (i == j) ≡ false = ground arith in rw t

  -- A read of a frame that the peer has sent, as the probe makes it.
  record Acked (j : ℕ) (w : World dash) (f : RelayFrames) (later : List Delivery) (rest : List ℕ)
      : Type 0 where
    lost : List ℕ
    left : List (ℕ × List ℕ)
    buffer : List ℕ
    split : lost ++ delivered left ≡ rest
    read : read_ack dash j w ≡ (
      ok (some f, buffer),
      set_stream dash w j (record (w.streams j) { incoming = deliveries left later }),
    )

  read_ack-Acked :
      (j : ℕ) (w : World dash) (f : RelayFrames) (cs : List (ℕ × List ℕ)) (later : List Delivery)
      (rest : List ℕ)
      → IsRelayFrame f
      → (w.streams j).incoming ≡ deliveries cs later
      → delivered cs ≡ relay_frame.to_be_bytes f ++ rest
      → Acked j w f later rest
  unfolding read_ack read_from
  read_ack-Acked j w f cs later rest valid incoming bytes =
      let (r, left, result, kept) =
        read_all relay_frame relay_frame_laws cs later [] f rest valid bytes in
      record {
        lost = r;
        left = left;
        buffer = relay_frame.to_be_bytes f ++ r;
        split = kept;
        read = rw (incoming, result);
      }

  module _ (p : PeerId) (id : ℕ) (w : World dash) (m : PeerConnectionMetadata)
      (cached : known dash w p ≡ some m) (others : id ≢ m.stream)
      (quiet : (w.streams id).sendings ≡ []) (quiet' : (w.streams m.stream).sendings ≡ []) where
    probe_found_lem :
        (f : RelayFrames) (elapsed : Duration) (buffer : List ℕ) (w1 w2 : World dash)
        → write_to dash m.stream (command sync) w ≡ (ok tt, w1)
        → read_ack dash m.stream w1 ≡ (ok (some f, buffer), w2)
        → probe_found dash (some m) p elapsed w
          ≡ (probe_answer dash (some f) p m.ip_addr elapsed, w2)
    unfolding probe_found
    probe_found_lem f elapsed buffer w1 w2 asks acks =
        >>=-run (write_to dash m.stream (command sync)) _ w w1 asks
        ∙ >>=-run (read_ack dash m.stream) _ w1 w2 acks

    -- A probe, up to its answer.
    probe_answered :
        (f : RelayFrames) (elapsed : Duration) (buffer : List ℕ) (w1 w2 : World dash)
        → write_to dash m.stream (command sync) w ≡ (ok tt, w1)
        → read_ack dash m.stream w1 ≡ (ok (some f, buffer), w2)
        → process_probe_frame dash id p elapsed w
          ≡ write_to dash id
              (verdict f (record { peer_id = p; ip = m.ip_addr; ping_rtt = elapsed }))
              w2
    unfolding process_probe_frame probe_peer answer probe_answer verdict
    probe_answered f elapsed buffer w1 w2 asks acks =
        ap
          (λ (run : Outcome IoError PeerInfo × World dash).
            answer dash run.0 (λ info. probe_result (some info)) (probe_result none) id run.1)
          (ap (λ o. probe_found dash o p elapsed w) cached
            ∙ probe_found_lem f elapsed buffer w1 w2 asks acks)
        ∙ settled f
      where
        settled :
            (f : RelayFrames)
            → answer dash
                (probe_answer dash (some f) p m.ip_addr elapsed)
                (λ info. probe_result (some info))
                (probe_result none)
                id
                w2
              ≡ write_to dash id
                  (verdict f (record { peer_id = p; ip = m.ip_addr; ping_rtt = elapsed }))
                  w2
        settled (register q) = refl
        settled (probe q) = refl
        settled (do_connect q) = refl
        settled ping = refl
        settled probe_ack = refl

    pub process_probe_frame_known :
        (f : RelayFrames) (elapsed : Duration) (cs : List (ℕ × List ℕ)) (later : List Delivery)
        (rest : List ℕ)
        → IsRelayFrame f
        → (w.streams m.stream).incoming ≡ deliveries cs later
        → delivered cs ≡ relay_frame.to_be_bytes f ++ rest
        → ((process_probe_frame dash id p elapsed w).0 ≡ ok tt)
          × ((process_probe_frame dash id p elapsed w).1.streams id
              ≡ sent
                  (w.streams id)
                  (verdict f (record { peer_id = p; ip = m.ip_addr; ping_rtt = elapsed })))
          × (lost : List ℕ) × (left : List (ℕ × List ℕ)) × ((process_probe_frame dash id p elapsed
                  w).1.streams
                m.stream
              ≡ record (sent (w.streams m.stream) (command sync)) {
                incoming = deliveries left later;
              })
          × (lost ++ delivered left ≡ rest)
    process_probe_frame_known f elapsed cs later rest valid incoming bytes =
        let s : Stream = sent (w.streams m.stream) (command sync) in
        let w1 : World dash = set_stream dash w m.stream s in
        let same : w1.streams m.stream ≡ s = stream_self w m.stream s in
        let a : Acked m.stream w1 f later rest =
          read_ack-Acked m.stream w1 f cs later rest valid
            (ap (λ (t : Stream). t.incoming) same ∙ incoming) bytes in
        let s' : Stream = record (w1.streams m.stream) { incoming = deliveries a.left later } in
        let w2 : World dash = set_stream dash w1 m.stream s' in
        let kept : w2.streams id ≡ w.streams id =
          stream_ne w1 id m.stream s' others ∙ stream_ne w id m.stream s others in
        let reply : PeerFrames =
          verdict f (record { peer_id = p; ip = m.ip_addr; ping_rtt = elapsed }) in
        let run : process_probe_frame dash id p elapsed w
            ≡ (ok tt, set_stream dash w2 id (sent (w2.streams id) reply)) =
          probe_answered f elapsed a.buffer w1 w2 (write_ok m.stream w (command sync) quiet') a.read
          ∙ write_ok id w2 reply (ap (λ (t : Stream). t.sendings) kept ∙ quiet) in
        (
          ap (λ (r : Outcome IoError (Unit {0}) × World dash). r.0) run,
          ap (λ (r : Outcome IoError (Unit {0}) × World dash). r.1.streams id) run
              ∙ stream_self w2 id (sent (w2.streams id) reply)
              ∙ ap (λ (t : Stream). sent t reply) kept,
          a.lost,
          a.left,
          ap (λ (r : Outcome IoError (Unit {0}) × World dash). r.1.streams m.stream) run
              ∙ stream_ne w2 m.stream id (sent (w2.streams id) reply) (λ e. others (sym e))
              ∙ stream_self w1 m.stream s'
              ∙ ap (λ (t : Stream). record t { incoming = deliveries a.left later }) same,
          a.split,
        )
