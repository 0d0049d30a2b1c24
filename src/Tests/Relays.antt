-- ===== src/Tests/Relays.antt =====
-- Two peers on one relay.
use pcopy.Prelude.{ℕ, ◌≡◌, refl, arith, List, [], ◌∷◌, ◌++◌, replicate, ◌==◌, if◌then◌else◌, some}
use pcopy.Prelude.Outcome.{ok}
use pcopy.Rust.IpAddr.{IpAddr, v4}
use pcopy.Rust.Duration.{from_millis}
use pcopy.Relay.Cache
use pcopy.Relay.HealthStatus
use pcopy.Relay.StatusCodes.{success}
use pcopy.Relay.PeerCommands.{doconnect}
use pcopy.Relay.RelayFrames.{do_connect, probe}
use pcopy.Relay.PeerFrames.{command, probe_result, do_connect_result}
use pcopy.Relay.Stream.{Stream}
use pcopy.Relay.FrameHelper.Reading.{deliveries}
use pcopy.Relay.PeerInfo
use pcopy.Relay.Connection.{new, peer_read}
use pcopy.Relay.Connection.Exchange.{quiet}
use pcopy.Relay.Server.{
  PeerConnectionMetadata, World, init, set_stream, process_frame, process_probe_frame,
  process_connection,
}
use pcopy.Relay.Server.Acts.{Reach, Only, process_connection-Reach}
use pcopy.Relay.Server.Served.{idle, serves, arrives}
use pcopy.Relay.Server.Answers.{Sends}
use pcopy.Relay.Server.Handled.{process_frame-Sends}
use pcopy.Relay.Server.Rendezvous.{do_connect_delivered, probe_delivered}
use pcopy.Relay.Server.Address.{own_address}
use pcopy.Tests.Instances.{list_bytes, list_order}
use pcopy.Tests.Maps.{pairs}
use pcopy.Tests.Samples.{alice, bob, address}

-- The address of connection `i`.
abbrev origin : ℕ → IpAddr
origin i = v4 10 0 0 i

-- Bob is on stream 1, where he sends ProbeAck and one more byte.
abbrev two_peers : World pairs
two_peers = record {
  server_address = b'h' ∷ [];
  conn_cache = record { inner = (bob, record { stream = 1; ip_addr = address }) ∷ [] };
  health_status = HealthStatus.healthy;
  streams = λ j. quiet (deliveries ((5, 4 ∷ []) ∷ []) []);
}

abbrev bob_entry : PeerConnectionMetadata
bob_entry = record { stream = 1; ip_addr = address }

process_connection-Reach_example :
    Reach pairs origin
      (Only 0)
      two_peers
      (process_connection pairs 3 0 (origin 0) (λ k. from_millis k) [] two_peers).1
process_connection-Reach_example =
    process_connection-Reach pairs origin 0 3 (λ k. from_millis k) [] two_peers

-- Connection 7 has a frame of alice.
abbrev registering : ℕ → Stream
registering i = quiet (if i == 7 then deliveries ((1, replicate 64 7) ∷ []) [] else [])

abbrev begun : World pairs
begun = init pairs (b'h' ∷ []) 80 registering

abbrev alice_entry : PeerConnectionMetadata
alice_entry = record { stream = 7; ip_addr = origin 7 }

-- The relay behind the frame of alice on connection 7.
abbrev served : World pairs
served = (process_connection pairs 1 7 (origin 7) (λ k. from_millis k) [] begun).1

alice_served : Cache.get pairs served.conn_cache alice ≡ some alice_entry
unfolding Cache.get pcopy.Tests.Maps.lookup process_connection pcopy.Relay.Server.read_from
    pcopy.Relay.FrameHelper.read_frame_given_stream init pcopy.Relay.FrameHelper.parse_frame
    pcopy.Relay.RelayFrames.parse pcopy.Relay.RelayFrames.read_operation pcopy.Rust.Cursor.unread
    pcopy.Tests.Instances.byte_of pcopy.Relay.RelayOperations.try_from
    pcopy.Relay.RelayFrames.parse_body pcopy.Relay.PeerId.try_from pcopy.Rust.Cursor.forward
    pcopy.Prelude.slice pcopy.Tests.Instances.step Cache.insert Cache.new
    pcopy.Relay.FrameHelper.attempt pcopy.Relay.FrameHelper.parsed process_frame
    pcopy.Relay.Server.process_register_frame pcopy.Relay.Server.register_peer
    pcopy.Relay.Server.answer pcopy.Rust.Cursor.read_exact pcopy.Tests.Maps.same set_stream
    pcopy.Relay.PeerId.new
alice_served = refl

own_address_example : alice_entry.ip_addr ≡ origin alice_entry.stream
own_address_example =
    own_address pairs origin (b'h' ∷ []) 80 registering served alice alice_entry
      (serves 7 1 (λ k. from_millis k) [] idle) alice_served

process_frame-Sends_example :
    Sends pairs two_peers
      (ok tt, (1, command (doconnect (origin 0))) ∷ (0, do_connect_result success) ∷ [])
      (process_frame pairs (do_connect bob) 0 (origin 0) (from_millis 3) two_peers)
unfolding pcopy.Relay.Cache.get pcopy.Tests.Maps.lookup pcopy.Tests.Maps.same
process_frame-Sends_example =
    process_frame-Sends pairs 0 (origin 0) (from_millis 3) two_peers (λ j. refl) (do_connect bob)

-- The command that bob gets, and the answer to the asker.
abbrev order_pieces : List (ℕ × List ℕ)
order_pieces = (25, 101 ∷ 10 ∷ []) ∷ (0, 0 ∷ 0 ∷ []) ∷ []

abbrev success_pieces : List (ℕ × List ℕ)
success_pieces = (23, []) ∷ (200, []) ∷ []

do_connect_delivered_example :
    ((process_frame pairs (do_connect bob) 0 (origin 0) (from_millis 3) two_peers).0 ≡ ok tt)
    × ((peer_read (new (quiet (deliveries order_pieces [])))).0
        ≡ ok (some (command (doconnect (origin 0)))))
    × ((peer_read (new (quiet (deliveries success_pieces [])))).0
        ≡ ok (some (do_connect_result success)))
unfolding process_frame pcopy.Relay.Server.process_sync_frame pcopy.Relay.Server.doconnect_peer
    pcopy.Relay.Server.doconnect_found pcopy.Relay.Server.answer pcopy.Relay.Server.write_to
    set_stream pcopy.Relay.FrameHelper.write_frame_given_stream pcopy.Relay.Stream.write_all
    pcopy.Relay.Cache.get pcopy.Tests.Maps.lookup pcopy.Tests.Maps.same
    pcopy.Relay.PeerFrames.to_be_bytes pcopy.Relay.PeerOperations.to_u8
    pcopy.Relay.PeerCommands.to_be_bytes pcopy.Rust.IpAddr.octets pcopy.Relay.StatusCodes.into_u8
do_connect_delivered_example =
    do_connect_delivered pairs bob 0 two_peers bob_entry refl (omega arith) (origin 0)
      (from_millis 3) order_pieces success_pieces [] [] (λ j. refl)
      (omega arith, omega arith, omega arith, omega arith) refl refl

-- Alice's stream has ProbeAck.
abbrev acknowledging : World pairs
acknowledging =
    set_stream pairs served 7
      (record (served.streams 7) { incoming = deliveries ((5, []) ∷ []) [] })

-- The address of alice, and three milliseconds.
abbrev found_pieces : List (ℕ × List ℕ)
found_pieces =
    (22, 200 ∷ 0 ∷ 10 ∷ []) ∷ (0, 0 ∷ 7 ∷ replicate 12 0) ∷ (0, replicate 14 0 ++ 3 ∷ []) ∷ []

probe_delivered_example :
    ((process_frame pairs (probe alice) 0 (origin 0) (from_millis 3) acknowledging).0 ≡ ok tt)
    × ((peer_read (new (quiet (deliveries found_pieces [])))).0
        ≡ ok (
            some (
              probe_result (
                some (
                  PeerInfo.received
                    (record { peer_id = alice; ip = origin 7; ping_rtt = from_millis 3 }))))))
unfolding process_frame pcopy.Relay.Server.process_sync_frame pcopy.Relay.Server.doconnect_peer
    pcopy.Relay.Server.doconnect_found pcopy.Relay.Server.answer pcopy.Relay.Server.write_to
    set_stream pcopy.Relay.FrameHelper.write_frame_given_stream pcopy.Relay.Stream.write_all
    pcopy.Relay.Cache.get pcopy.Tests.Maps.lookup pcopy.Tests.Maps.same
    pcopy.Relay.PeerFrames.to_be_bytes pcopy.Relay.PeerOperations.to_u8
    pcopy.Relay.PeerCommands.to_be_bytes pcopy.Rust.IpAddr.octets pcopy.Relay.StatusCodes.into_u8
    process_connection pcopy.Relay.Server.read_from pcopy.Relay.FrameHelper.read_frame_given_stream
    init pcopy.Relay.FrameHelper.parse_frame pcopy.Relay.RelayFrames.parse
    pcopy.Relay.RelayFrames.read_operation pcopy.Rust.Cursor.unread pcopy.Tests.Instances.byte_of
    pcopy.Relay.RelayOperations.try_from pcopy.Relay.RelayFrames.parse_body
    pcopy.Relay.PeerId.try_from pcopy.Rust.Cursor.forward pcopy.Prelude.slice
    pcopy.Tests.Instances.step Cache.insert Cache.new pcopy.Relay.FrameHelper.attempt
    pcopy.Relay.FrameHelper.parsed pcopy.Relay.Server.process_register_frame
    pcopy.Relay.Server.register_peer pcopy.Rust.Cursor.read_exact pcopy.Relay.PeerId.new
    pcopy.Relay.Server.process_probe_frame pcopy.Relay.Server.probe_peer
    pcopy.Relay.Server.probe_found pcopy.Relay.Server.read_ack pcopy.Relay.Server.probe_answer
    pcopy.Relay.PeerInfo.to_be_bytes pcopy.Relay.PeerInfo.ip_tag pcopy.Relay.PeerInfo.padded
    pcopy.Prelude.BigEndian.to_be pcopy.Rust.Duration.as_millis pcopy.Rust.Duration.from_millis
    pcopy.Relay.RelayFrames.to_be_bytes pcopy.Relay.RelayOperations.to_u8
probe_delivered_example =
    probe_delivered pairs alice 0 acknowledging alice_entry refl (omega arith) origin (b'h' ∷ []) 80
      registering (from_millis 3) ((5, []) ∷ []) found_pieces [] [] []
      (arrives 7 (deliveries ((5, []) ∷ []) []) (serves 7 1 (λ k. from_millis k) [] idle)) refl refl
      refl refl
      (record { address = (omega arith, omega arith, omega arith, omega arith); rtt = omega arith })
      refl
