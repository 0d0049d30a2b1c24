-- ===== src/Tests/Peers.antt =====
-- A peer that asks the relay, and the relay's handlers.
use pcopy.Prelude.{◌≡◌, ◌≢◌, refl, [], ◌∷◌, ◌++◌, some}
use pcopy.Prelude.Outcome.{ok, err, panic, stuck}
use pcopy.Rust.IoError.{invalid_data}
use pcopy.Rust.Duration.{from_millis}
use pcopy.Relay.HealthStatus
use pcopy.Relay.StatusCodes.{success, failure}
use pcopy.Relay.RelayFrames.{ping}
use pcopy.Relay.PeerFrames.{register_result, probe_result, do_connect_result, ping_result}
use pcopy.Relay.PeerFrames.Trait.{peer_frame}
use pcopy.Relay.FrameHelper.Reading.{deliveries}
use pcopy.Relay.Connection.{new}
use pcopy.Relay.Connection.Exchange.{quiet}
use pcopy.Relay.Sender.{connect_to_peer}
use pcopy.Relay.Sender.Outcomes.{
  connect_to_peer-ne-ok, connect_to_peer_answered, connect_to_peer_hangs,
}
use pcopy.Relay.Server.{World, process_register_frame, process_connection}
use pcopy.Relay.Server.Cached.{known, registered, process_register_frame_first}
use pcopy.Relay.Server.Loop.{ping_forever, copies}
use pcopy.Tests.Instances.{list_bytes, list_order}
use pcopy.Tests.Maps.{pairs}
use pcopy.Tests.Samples.{alice, bob, address, host}

connect_to_peer-ne-ok_example :
    (connect_to_peer host 3 alice bob (new (quiet []))).0 ≢ ok (quiet [])
connect_to_peer-ne-ok_example = connect_to_peer-ne-ok host alice bob 3 (new (quiet [])) (quiet [])

connect_to_peer_answered_example :
    (connect_to_peer host 4 alice bob (new (quiet (deliveries ((21, 200 ∷ []) ∷ []) [])))).0
    ≡ err invalid_data
unfolding pcopy.Relay.PeerFrames.to_be_bytes pcopy.Relay.PeerOperations.to_u8
    pcopy.Relay.StatusCodes.into_u8
connect_to_peer_answered_example =
    connect_to_peer_answered host alice bob 3 ((21, 200 ∷ []) ∷ []) [] [] success refl

connect_to_peer_hangs_example : (connect_to_peer host 5 alice bob (new (quiet []))).0 ≡ stuck
connect_to_peer_hangs_example = connect_to_peer_hangs host alice bob 5

abbrev empty : World pairs
empty = record {
  server_address = [];
  conn_cache = record { inner = [] };
  health_status = HealthStatus.healthy;
  streams = λ j. quiet [];
}

process_register_frame_first_example :
    (process_register_frame pairs 0 address alice empty
      ≡ (panic, registered pairs empty alice address 0))
    × (known pairs (registered pairs empty alice address 0) alice
        ≡ some (record { stream = 0; ip_addr = address }))
unfolding pcopy.Relay.Cache.get pcopy.Tests.Maps.lookup
process_register_frame_first_example = process_register_frame_first pairs alice address 0 empty refl

abbrev pinged : World pairs
pinged = record {
  server_address = [];
  conn_cache = record { inner = [] };
  health_status = HealthStatus.healthy;
  streams = λ j. quiet (deliveries ((4, []) ∷ []) []);
}

ping_forever_example :
    ((process_connection pairs 3 0 address (λ k. from_millis k) [] pinged).0 ≡ stuck)
    × (((process_connection pairs 3 0 address (λ k. from_millis k) [] pinged).1.streams 0).outgoing
        ≡ [] ++ copies 3 (peer_frame.to_be_bytes (ping_result HealthStatus.healthy)))
unfolding pcopy.Relay.RelayFrames.to_be_bytes pcopy.Relay.RelayOperations.to_u8
ping_forever_example =
    ping_forever pairs 0 address (λ k. from_millis k) 2 pinged ((4, []) ∷ []) [] [] [] refl refl
