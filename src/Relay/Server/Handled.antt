-- ===== src/Relay/Server/Handled.antt =====
-- What the handlers of the relay send, where writing works.
use pcopy.Prelude.{ℕ, List, [], ◌∷◌, ◌++◌, ◌≡◌, refl, ap, ◌∙◌, Option, none, some}
use pcopy.Prelude.Outcome.{Outcome, ok, err, panic, stuck}
use pcopy.Prelude.Exec.{continue}
use pcopy.Rust.IoError.{IoError}
use pcopy.Rust.IpAddr.{IpAddr}
use pcopy.Rust.Duration.{Duration}
use pcopy.Crates.Bytes.{Bytes}
use pcopy.Crates.ByteOrder.{ByteOrder}
use pcopy.Crates.DashMap.{DashMap}
use pcopy.Relay.PeerId.{PeerId}
use pcopy.Relay.PeerInfo.{PeerInfo}
use pcopy.Relay.StatusCodes.{success, failure}
use pcopy.Relay.PeerCommands.{sync, doconnect}
use pcopy.Relay.Stream.{Stream}
use pcopy.Relay.FrameHelper.{read_frame_given_stream}
use pcopy.Relay.RelayFrames.{RelayFrames, register, probe, do_connect, ping, probe_ack}
use pcopy.Relay.RelayFrames.Trait.{relay_frame}
use pcopy.Relay.PeerFrames.{register_result, probe_result, do_connect_result, command}
use pcopy.Relay.Server.{
  PeerConnectionMetadata, World, write_to, set_stream, read_from, read_ack, doconnect_found,
  probe_found, answer, probe_answer, process_sync_frame, process_probe_frame, probe_peer,
  doconnect_peer, process_frame, process_register_frame, process_ping_frame,
}
use pcopy.Relay.Server.Cached.{known, registered, register_peer_lem}
use pcopy.Relay.Server.Peers.{sent, write_ok, stream_self}
use pcopy.Prelude.Exec.{>>=-run, lift}
use pcopy.Relay.FrameHelper.{Inbox}
use pcopy.Relay.Server.Answers.{
  Log, asked, handled, subject, Wrote, nothing, Sends, one_write, write_to-run, read_from-Wrote,
}

-- What a probe has of a read.
abbrev acked :
    Outcome IoError (Option RelayFrames) → List ℕ → Outcome IoError (Option RelayFrames × List ℕ)
acked (ok o) buffer = ok (o, buffer)
acked (err e) buffer = panic
acked panic buffer = panic
acked stuck buffer = stuck

module _ ⦃b : Bytes⦄ ⦃order : ByteOrder⦄ (dash : DashMap PeerId PeerConnectionMetadata) where
  read_ack_lem :
      (j : ℕ) (v : World dash) (r : Outcome IoError (Option RelayFrames)) (inbox : Inbox)
      → read_frame_given_stream relay_frame [] (v.streams j).incoming ≡ (r, inbox)
      → read_ack dash j v ≡ (
        acked r inbox.buffer,
        set_stream dash v j (record (v.streams j) { incoming = inbox.incoming }),
      )
  unfolding read_ack read_from
  read_ack_lem j v (ok o) inbox e = rw e
  read_ack_lem j v (err x) inbox e = rw e
  read_ack_lem j v panic inbox e = rw e
  read_ack_lem j v stuck inbox e = rw e

  -- What a probe makes of a read.
  abbrev probed :
      PeerId → IpAddr → Duration → Outcome IoError (Option RelayFrames) → Outcome IoError PeerInfo
  probed p ip elapsed (ok o) = probe_answer dash o p ip elapsed
  probed p ip elapsed (err e) = panic
  probed p ip elapsed panic = panic
  probed p ip elapsed stuck = stuck

  module _ (p : PeerId) (m : PeerConnectionMetadata) (elapsed : Duration) where
    -- The world behind SYNC and the read.
    abbrev synced : World dash → World dash
    synced w = set_stream dash w m.stream (sent (w.streams m.stream) (command sync))

    abbrev read_after : World dash → World dash
    read_after v = set_stream dash v m.stream (record (v.streams m.stream) {
      incoming = (read_frame_given_stream relay_frame [] (v.streams m.stream).incoming).1.incoming;
    })

    read_goes_on :
        (r : Outcome IoError (Option RelayFrames)) (buffer : List ℕ) (v : World dash)
        → continue
            (acked r buffer)
            (λ (x : Option RelayFrames × List ℕ). lift (probe_answer dash x.0 p m.ip_addr elapsed))
            v
          ≡ (probed p m.ip_addr elapsed r, v)
    read_goes_on (ok o) buffer v = refl
    read_goes_on (err e) buffer v = refl
    read_goes_on panic buffer v = refl
    read_goes_on stuck buffer v = refl

    probe_found_run :
        (w : World dash)
        → (w.streams m.stream).sendings ≡ []
        → probe_found dash (some m) p elapsed w ≡ (
          probed p m.ip_addr elapsed
              (read_frame_given_stream relay_frame [] (w.streams m.stream).incoming).0,
          read_after (synced w),
        )
    unfolding probe_found
    probe_found_run w quiet =
        let next = read_frame_given_stream relay_frame [] ((synced w).streams m.stream).incoming in
        >>=-run (write_to dash m.stream (command sync)) _ w (synced w)
          (write_ok dash m.stream w (command sync) quiet)
        ∙ ap
            (λ (x : Outcome IoError (Option RelayFrames × List ℕ) × World dash).
              continue x.0
                (λ (x : Option RelayFrames × List ℕ).
                  lift (probe_answer dash x.0 p m.ip_addr elapsed))
                x.1)
            (read_ack_lem m.stream (synced w) next.0 next.1 refl)
        ∙ read_goes_on next.0 next.1.buffer (read_after (synced w))
        ∙ ap
            (λ (s : Stream). (
              probed p m.ip_addr elapsed (read_frame_given_stream relay_frame [] s.incoming).0,
              read_after (synced w),
            ))
            (stream_self dash w m.stream (sent (w.streams m.stream) (command sync)))

    last_write :
        (id : ℕ) (r : Outcome IoError (Option RelayFrames)) (w v : World dash)
        → Wrote dash w ((m.stream, command sync) ∷ []) v
        → Sends dash w
            (asked id (record { peer_id = p; ip = m.ip_addr; ping_rtt = elapsed }) m.stream r)
            (answer dash
              (probed p m.ip_addr elapsed r)
              (λ info. probe_result (some info))
              (probe_result none)
              id
              v)
    unfolding answer probe_answer
    last_write id (ok none) w v s = one_write dash id (probe_result none) w v _ s
    last_write id (ok (some probe_ack)) w v s = one_write dash id _ w v _ s
    last_write id (ok (some (register q))) w v s = one_write dash id (probe_result none) w v _ s
    last_write id (ok (some (probe q))) w v s = one_write dash id (probe_result none) w v _ s
    last_write id (ok (some (do_connect q))) w v s = one_write dash id (probe_result none) w v _ s
    last_write id (ok (some ping)) w v s = one_write dash id (probe_result none) w v _ s
    last_write id (err e) w v s = (refl, s)
    last_write id panic w v s = (refl, s)
    last_write id stuck w v s = (refl, s)

  module _ (id : ℕ) (source_ip : IpAddr) (elapsed : Duration) (w : World dash)
      (quiet : (j : ℕ) → (w.streams j).sendings ≡ []) where
    -- What comes next on a stream.
    abbrev next : ℕ → Outcome IoError (Option RelayFrames)
    next j = (read_frame_given_stream relay_frame [] (w.streams j).incoming).0

    abbrev about : RelayFrames → Option PeerConnectionMetadata → Outcome IoError (Unit {0}) × Log
    about f o = handled next w.health_status elapsed id source_ip f o

    register-Sends :
        (p : PeerId) (o : Option PeerConnectionMetadata)
        → known dash w p ≡ o
        → Sends dash w (about (register p) o) (process_register_frame dash id source_ip p w)
    unfolding process_register_frame answer
    register-Sends p none e =
        rw (register_peer_lem dash p source_ip id w, e)
          (refl, record { works = quiet; bytes = (nothing dash w quiet).bytes })
    register-Sends p (some m) e =
        rw (register_peer_lem dash p source_ip id w, e)
          (one_write dash id (register_result success) w (registered dash w p source_ip id) []
            (record { works = quiet; bytes = (nothing dash w quiet).bytes }))

    probe-Sends :
        (p : PeerId) (o : Option PeerConnectionMetadata)
        → known dash w p ≡ o
        → Sends dash w (about (probe p) o) (process_probe_frame dash id p elapsed w)
    unfolding process_probe_frame probe_peer
    probe-Sends p none e = rw e (
        unfold probe_found answer in
        one_write dash id (probe_result none) w w [] (nothing dash w quiet))
    probe-Sends p (some m) e =
        let (run, s) = write_to-run dash m.stream (command sync) w w [] (nothing dash w quiet) in
        rw (e, probe_found_run p m elapsed w (quiet m.stream))
          (last_write p m elapsed id (next m.stream) w _ (read_from-Wrote dash m.stream [] w _ _ s))

    doconnect_found_run :
        (m : PeerConnectionMetadata)
        → doconnect_found dash (some m) source_ip w ≡ (
          ok tt,
          set_stream dash w m.stream (sent (w.streams m.stream) (command (doconnect source_ip))),
        )
    unfolding doconnect_found
    doconnect_found_run m =
        write_ok dash m.stream w (command (doconnect source_ip)) (quiet m.stream)

    answer_connected :
        (l : Log) (v : World dash) (run : Outcome IoError (Unit {0}) × World dash)
        → run ≡ (ok tt, v)
        → Wrote dash w l v
        → Sends dash w
            (ok tt, l ++ (id, do_connect_result success) ∷ [])
            (answer dash run.0
              (λ _. do_connect_result success)
              (do_connect_result failure)
              id
              run.1)
    unfolding answer
    answer_connected l v run e s = rw e (one_write dash id (do_connect_result success) w v l s)

    do_connect-Sends :
        (p : PeerId) (o : Option PeerConnectionMetadata)
        → known dash w p ≡ o
        → Sends dash w (about (do_connect p) o) (process_sync_frame dash id source_ip p w)
    unfolding process_sync_frame doconnect_peer answer
    do_connect-Sends p none e = rw e (
        unfold doconnect_found in
        one_write dash id (do_connect_result failure) w w [] (nothing dash w quiet))
    do_connect-Sends p (some m) e =
        let (run, s) =
          write_to-run dash m.stream (command (doconnect source_ip)) w w []
            (nothing dash w quiet) in
        rw e (answer_connected _ _ _ (doconnect_found_run m) s)

    -- What the cache has of the peer that a frame is about.
    abbrev looked_up : Option PeerId → Option PeerConnectionMetadata
    looked_up none = none
    looked_up (some p) = known dash w p

    -- For every frame, whatever the cache has and the streams deliver, where writing works on all streams
    -- and no other task takes part: the handler ends as `handled` says, and what went out on each stream
    -- is the bytes of the frames that it lists for the stream, in this order, and nothing else. A frame
    -- is answered once and last, on the stream of its connection; a peer in the cache gets SYNC before the
    -- answer to a Probe, and the address of the asker before the answer to a DoConnect. A peer that is not
    -- in the cache leads to a failure and gets nothing, but its Register panics; the read of a Probe
    -- that fails panics behind SYNC, and ProbeAck is an error.
    pub process_frame-Sends :
        (f : RelayFrames)
        → Sends dash w
            (about f (looked_up (subject f)))
            (process_frame dash f id source_ip elapsed w)
    unfolding process_frame process_ping_frame
    process_frame-Sends (register p) = register-Sends p (known dash w p) refl
    process_frame-Sends (probe p) = probe-Sends p (known dash w p) refl
    process_frame-Sends (do_connect p) = do_connect-Sends p (known dash w p) refl
    process_frame-Sends ping = one_write dash id _ w w [] (nothing dash w quiet)
    process_frame-Sends probe_ack = (refl, nothing dash w quiet)
