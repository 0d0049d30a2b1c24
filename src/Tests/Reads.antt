-- ===== src/Tests/Reads.antt =====
-- Reads on streams that deliver in pieces, stop and go on.
use pcopy.Prelude.{ℕ, ◌≡◌, refl, List, [], ◌∷◌, ◌++◌, replicate, some}
use pcopy.Prelude.Outcome.{ok, Returns}
use pcopy.Relay.Stream.{chunk}
use pcopy.Relay.StatusCodes.{failure}
use pcopy.Relay.RelayFrames.{register, ping}
use pcopy.Relay.RelayFrames.Trait.{relay_frame, relay_frame_laws}
use pcopy.Relay.PeerFrames.{register_result, received}
use pcopy.Relay.FrameHelper.{read_frame_given_stream}
use pcopy.Relay.FrameHelper.Reading.{deliveries, delivered, read_all}
use pcopy.Relay.FrameHelper.Again.{read_again}
use pcopy.Relay.FrameHelper.Closing.{read-Returns}
use pcopy.Relay.Connection.{new, relay_read, peer_read}
use pcopy.Relay.Connection.Exchange.{quiet, relay_read-peer_write, peer_read-relay_write}
use pcopy.Tests.Instances.{list_bytes, list_order}
use pcopy.Tests.Samples.{alice}

-- The bytes of Register, in two chunks.
abbrev two_chunks : List (ℕ × List ℕ)
two_chunks = (1, replicate 20 7) ∷ (7, replicate 43 7) ∷ []

relay_read-peer_write_example :
    (relay_read (new (quiet (deliveries two_chunks [])))).0 ≡ ok (some (register alice))
unfolding pcopy.Relay.Connection.peer_write pcopy.Relay.FrameHelper.write_frame_given_stream
    pcopy.Relay.Stream.write_all new pcopy.Relay.RelayFrames.to_be_bytes
    pcopy.Relay.RelayOperations.to_u8 pcopy.Relay.PeerId.as_bytes
relay_read-peer_write_example = relay_read-peer_write (register alice) two_chunks [] [] refl refl

peer_read-relay_write_example :
    (peer_read (new (quiet (deliveries ((21, []) ∷ (111, []) ∷ []) [])))).0
    ≡ ok (some (received (register_result failure)))
unfolding pcopy.Relay.Connection.relay_write pcopy.Relay.FrameHelper.write_frame_given_stream
    pcopy.Relay.Stream.write_all new pcopy.Relay.PeerFrames.to_be_bytes
    pcopy.Relay.PeerOperations.to_u8 pcopy.Relay.StatusCodes.into_u8
peer_read-relay_write_example =
    peer_read-relay_write (register_result failure) ((21, []) ∷ (111, []) ∷ []) [] [] tt refl

read_all_example :
    (r : List ℕ) × (left : List (ℕ × List ℕ)) × (read_frame_given_stream relay_frame []
        (deliveries ((4, 5 ∷ []) ∷ []) [])
      ≡ (
        ok (some ping),
        record { buffer = relay_frame.to_be_bytes ping ++ r; incoming = deliveries left [] },
      ))
    × (r ++ delivered left ≡ 5 ∷ [])
unfolding pcopy.Relay.RelayFrames.to_be_bytes pcopy.Relay.RelayOperations.to_u8
read_all_example =
    read_all relay_frame relay_frame_laws ((4, 5 ∷ []) ∷ []) [] [] ping (5 ∷ []) tt refl

read_again_example :
    read_frame_given_stream relay_frame (4 ∷ []) (chunk (5 ∷ []) ∷ [])
    ≡ (ok (some ping), record { buffer = 4 ∷ []; incoming = chunk (5 ∷ []) ∷ [] })
unfolding read_frame_given_stream pcopy.Relay.FrameHelper.parse_frame pcopy.Relay.RelayFrames.parse
    pcopy.Relay.RelayFrames.read_operation pcopy.Rust.Cursor.unread pcopy.Tests.Instances.byte_of
    pcopy.Relay.RelayOperations.try_from pcopy.Relay.RelayFrames.parse_body
read_again_example =
    read_again relay_frame [] (chunk (4 ∷ []) ∷ []) (chunk (5 ∷ []) ∷ []) ping
      (record { buffer = 4 ∷ []; incoming = [] }) refl

read-Returns_example : Returns (read_frame_given_stream relay_frame [] (chunk (9 ∷ 9 ∷ []) ∷ [])).0
read-Returns_example = read-Returns relay_frame relay_frame_laws [] (chunk (9 ∷ 9 ∷ []) ∷ [])
