-- ===== src/Relay/Server/Loop.antt =====
-- The loop of a connection: what it does with the frame that it has read.
use pcopy.Prelude.{
  ℕ, zero, suc, ◌≡◌, refl, sym, ap, ◌∙◌, List, [], ◌++◌, some, ==_of_eq, append-nil, append_assoc,
}
use pcopy.Prelude.Outcome.{Outcome, ok, stuck}
use pcopy.Rust.IpAddr.{IpAddr}
use pcopy.Rust.Duration.{Duration}
use pcopy.Crates.Bytes.{Bytes}
use pcopy.Crates.ByteOrder.{ByteOrder}
use pcopy.Crates.DashMap.{DashMap}
use pcopy.Relay.PeerId.{PeerId}
use pcopy.Relay.HealthStatus.{HealthStatus}
use pcopy.Relay.RelayFrames.{RelayFrames, ping}
use pcopy.Relay.RelayFrames.Trait.{relay_frame, relay_frame_laws}
use pcopy.Relay.PeerFrames.{ping_result, PeerFrames}
use pcopy.Relay.PeerFrames.Trait.{peer_frame}
use pcopy.Relay.Stream.{Stream, Delivery, write_all}
use pcopy.Relay.FrameHelper.{parse_frame, write_frame_given_stream}
use pcopy.Relay.FrameHelper.Reading.{
  read-parsed, parse_frame-whole, read_all, deliveries, delivered,
}
use pcopy.Relay.Server.{
  PeerConnectionMetadata, World, read_from, process_ping_frame, process_connection, set_stream,
  write_to, process_frame,
}
use mathlib.Core.Path.{ap₂, subst}
use pcopy.Rust.IoError.{IoError}

-- The bytes of `n` equal answers.
unfoldable pub copies : ℕ → List ℕ → List ℕ
copies zero bytes = []
copies (suc n) bytes = bytes ++ copies n bytes

module _ ⦃b : Bytes⦄ ⦃order : ByteOrder⦄ (dash : DashMap PeerId PeerConnectionMetadata) (id : ℕ)
    (source_ip : IpAddr) (elapsed : ℕ → Duration) where
  set_stream_self : (w : World dash) (s : Stream) → (set_stream dash w id s).streams id ≡ s
  unfolding set_stream
  set_stream_self w s = rw (==_of_eq id id refl)

  -- A read that finds a frame in the buffer changes nothing on the stream.
  read_found :
      (buffer : List ℕ) (w : World dash) (f : RelayFrames)
      → parse_frame relay_frame buffer ≡ ok (some f)
      → read_from dash id buffer w ≡ (ok (some f, buffer), set_stream dash w id (w.streams id))
  unfolding read_from
  read_found buffer w f e = rw (read-parsed relay_frame buffer (w.streams id).incoming f e)

  -- The stream behind an answer that is written without an error.
  abbrev answered : World dash → PeerFrames → World dash
  answered w f = set_stream dash w id (record {
    incoming = (w.streams id).incoming;
    sendings = [];
    outgoing = (w.streams id).outgoing ++ peer_frame.to_be_bytes f;
  })

  write_ok :
      (w : World dash) (f : PeerFrames)
      → (w.streams id).sendings ≡ []
      → write_to dash id f w ≡ (ok tt, answered w f)
  unfolding write_to write_frame_given_stream write_all
  write_ok w f e = rw e

  ping_round :
      (fuel : ℕ) (buffer buffer' : List ℕ) (w w1 : World dash)
      → read_from dash id buffer w ≡ (ok (some ping, buffer'), w1)
      → (w1.streams id).sendings ≡ []
      → process_connection dash (suc fuel) id source_ip elapsed buffer w
        ≡ process_connection dash fuel id source_ip elapsed buffer'
            (answered w1 (ping_result w1.health_status))
  unfolding process_connection process_frame process_ping_frame
  ping_round fuel buffer buffer' w w1 read quiet =
      rw (read, write_ok w1 (ping_result w1.health_status) quiet)

  -- What the stream has sent at the end of a run.
  abbrev sent_by : ℕ → List ℕ → World dash → List ℕ
  sent_by fuel buffer w =
      ((process_connection dash fuel id source_ip elapsed buffer w).1.streams id).outgoing

  abbrev pong : World dash → List ℕ
  pong w = peer_frame.to_be_bytes (ping_result w.health_status)

  health-set_stream :
      (w : World dash) (s : Stream) → (set_stream dash w id s).health_status ≡ w.health_status
  unfolding set_stream
  health-set_stream w s = refl

  sendings-answered : (w : World dash) (f : PeerFrames) → ((answered w f).streams id).sendings ≡ []
  sendings-answered w f = ap (λ (s : Stream). s.sendings) (set_stream_self w _)

  outgoing-answered :
      (w : World dash) (f : PeerFrames)
      → ((answered w f).streams id).outgoing ≡ (w.streams id).outgoing ++ peer_frame.to_be_bytes f
  outgoing-answered w f = ap (λ (s : Stream). s.outgoing) (set_stream_self w _)

  pong-answered : (w : World dash) (f : PeerFrames) → pong (answered w f) ≡ pong w
  pong-answered w f =
      ap (λ (h : HealthStatus). peer_frame.to_be_bytes (ping_result h)) (health-set_stream w _)

  -- The same answer `n` times behind what `w` has sent, when it was given once.
  one_more :
      (fuel : ℕ) (w : World dash)
      → ((answered w (ping_result w.health_status)).streams id).outgoing
          ++ copies fuel (pong (answered w (ping_result w.health_status)))
        ≡ (w.streams id).outgoing ++ copies (suc fuel) (pong w)
  unfolding copies
  one_more fuel w =
      ap₂ (λ (xs ys : List ℕ). xs ++ copies fuel ys)
        (outgoing-answered w (ping_result w.health_status))
        (pong-answered w (ping_result w.health_status))
      ∙ append_assoc (w.streams id).outgoing (pong w) (copies fuel (pong w))

  -- Every round answers, and none is the last.
  abbrev Answers : ℕ → World dash → Outcome IoError (Unit {0}) × World dash → Type 0
  Answers n w run =
      (run.0 ≡ stuck) × ((run.1.streams id).outgoing ≡ (w.streams id).outgoing ++ copies n (pong w))

  first_round :
      (fuel : ℕ) (buffer buffer' : List ℕ) (w w1 : World dash)
      → read_from dash id buffer w ≡ (ok (some ping, buffer'), w1)
      → (w1.streams id).sendings ≡ []
      → Answers fuel (answered w1 (ping_result w1.health_status)) (
          process_connection dash fuel id source_ip elapsed buffer'
            (answered w1 (ping_result w1.health_status)))
      → (w1.streams id).outgoing ≡ (w.streams id).outgoing
      → w1.health_status ≡ w.health_status
      → Answers (suc fuel) w (process_connection dash (suc fuel) id source_ip elapsed buffer w)
  first_round fuel buffer buffer' w w1 read quiet (hang, sent) out health =
      subst (Answers (suc fuel) w) (sym (ping_round fuel buffer buffer' w w1 read quiet)) (
        hang,
        sent
            ∙ one_more fuel w1
            ∙ ap₂
                (λ (xs : List ℕ) (h : HealthStatus).
                  xs ++ copies (suc fuel) (peer_frame.to_be_bytes (ping_result h)))
                out health,
      )

  pings :
      (fuel : ℕ) (buffer : List ℕ) (w : World dash)
      → parse_frame relay_frame buffer ≡ ok (some ping)
      → (w.streams id).sendings ≡ []
      → Answers fuel w (process_connection dash fuel id source_ip elapsed buffer w)
  pings zero buffer w found quiet = unfold process_connection copies in (refl, sym (append-nil _))
  pings (suc fuel) buffer w found quiet =
      let w1 = set_stream dash w id (w.streams id) in
      let same : w1.streams id ≡ w.streams id = set_stream_self w (w.streams id) in
      let quiet1 : (w1.streams id).sendings ≡ [] = ap (λ (s : Stream). s.sendings) same ∙ quiet in
      let w2 = answered w1 (ping_result w1.health_status) in
      let rest = pings fuel buffer w2 found (sendings-answered w1 _) in
      let read = read_found buffer w ping found in
      first_round fuel buffer buffer w w1 read quiet1 rest (ap (λ (s : Stream). s.outgoing) same)
        (health-set_stream w _)

  -- A peer that sends one Ping on a fresh connection is answered in every round of the loop, and the
  -- loop never ends: after any number of rounds the stream has sent that many equal answers. This
  -- holds where writing works, with the Ping in chunks of any size and anything behind it.
  pub ping_forever :
      (fuel : ℕ) (w : World dash) (cs : List (ℕ × List ℕ)) (rest : List ℕ) (later : List Delivery)
      (out : List ℕ)
      → w.streams id ≡ record { incoming = deliveries cs later; sendings = []; outgoing = out }
      → delivered cs ≡ relay_frame.to_be_bytes ping ++ rest
      → ((process_connection dash (suc fuel) id source_ip elapsed [] w).0 ≡ stuck)
        × (sent_by (suc fuel) [] w ≡ out ++ copies (suc fuel) (pong w))
  unfolding read_from
  ping_forever fuel w cs rest later out stream bytes =
      let (r, left, result, kept) =
        read_all relay_frame relay_frame_laws cs later [] ping rest tt bytes in
      let buffer = relay_frame.to_be_bytes ping ++ r in
      let s : Stream = record { incoming = deliveries left later; sendings = []; outgoing = out } in
      let w1 = set_stream dash w id s in
      let same : w1.streams id ≡ s = set_stream_self w s in
      let read : read_from dash id [] w ≡ (ok (some ping, buffer), w1) = rw (stream, result) in
      let found : parse_frame relay_frame buffer ≡ ok (some ping) =
        parse_frame-whole relay_frame relay_frame_laws ping buffer r tt refl in
      let rest =
        pings fuel buffer (answered w1 (ping_result w1.health_status)) found
          (sendings-answered w1 _) in
      let quiet : (w1.streams id).sendings ≡ [] = ap (λ (t : Stream). t.sendings) same in
      let sent : (w1.streams id).outgoing ≡ (w.streams id).outgoing =
        ap (λ (t : Stream). t.outgoing) same ∙ sym (ap (λ (t : Stream). t.outgoing) stream) in
      let (hang, all) =
        first_round fuel [] buffer w w1 read quiet rest sent (health-set_stream w s) in
      (
        hang,
        all
            ∙ ap (λ (xs : List ℕ). xs ++ copies (suc fuel) (pong w))
                (ap (λ (t : Stream). t.outgoing) stream),
      )
