-- ===== src/Tests/Frames.antt =====
-- Frames of both kinds, read and cut off.
use pcopy.Prelude.{ℕ, ◌≡◌, refl, arith, List, [], ◌∷◌, ◌++◌, length, replicate}
use pcopy.Prelude.Outcome.{ok, err}
use pcopy.Rust.Cursor.{new, unread, forward, unread-new}
use pcopy.Rust.IpAddr.{v6, v4}
use pcopy.Relay.FrameError.{incomplete}
use pcopy.Relay.StatusCodes.{success}
use pcopy.Relay.PeerCommands.{doconnect}
use pcopy.Relay.RelayFrames
use pcopy.Relay.RelayFrames.{register, ping, IsRelayFrame}
use pcopy.Relay.RelayFrames.RoundTrip.{parse-to_be_bytes}
use pcopy.Relay.RelayFrames.Canonical.{parse_canonical}
use pcopy.Relay.RelayFrames.Prefix.{parse_incomplete}
use pcopy.Relay.PeerFrames
use pcopy.Relay.PeerFrames.{register_result, command, received, IsPeerFrame}
use pcopy.Relay.PeerFrames.RoundTrip.{peer_parse-to_be_bytes, parse_doconnect_v6}
use pcopy.Relay.PeerFrames.Prefix.{peer_parse_incomplete}
use pcopy.Tests.Instances.{list_bytes, list_order}
use pcopy.Tests.Samples.{alice, found}

abbrev register_bytes : List ℕ
register_bytes = RelayFrames.to_be_bytes (register alice) ++ 4 ∷ []

parse-to_be_bytes_example :
    RelayFrames.parse (new register_bytes)
    ≡ ok (
      register alice,
      forward (new register_bytes) (length (RelayFrames.to_be_bytes (register alice))),
    )
parse-to_be_bytes_example =
    parse-to_be_bytes (new register_bytes) (register alice) (4 ∷ []) refl
      (unread-new register_bytes)

parse_canonical_example :
    IsRelayFrame ping
    × (unread (new (4 ∷ 5 ∷ []))
        ≡ RelayFrames.to_be_bytes ping ++ unread (forward (new (4 ∷ 5 ∷ [])) 1))
    × (forward (new (4 ∷ 5 ∷ [])) 1
        ≡ forward (new (4 ∷ 5 ∷ [])) (length (RelayFrames.to_be_bytes ping)))
unfolding RelayFrames.parse unread forward RelayFrames.read_operation pcopy.Tests.Instances.byte_of
    pcopy.Relay.RelayOperations.try_from RelayFrames.parse_body
parse_canonical_example =
    parse_canonical (new (4 ∷ 5 ∷ [])) ping (forward (new (4 ∷ 5 ∷ [])) 1) refl

parse_incomplete_example : RelayFrames.parse (new (1 ∷ 7 ∷ 7 ∷ [])) ≡ err incomplete
unfolding RelayFrames.to_be_bytes unread pcopy.Relay.RelayOperations.to_u8
    pcopy.Relay.PeerId.as_bytes
parse_incomplete_example =
    parse_incomplete (new (1 ∷ 7 ∷ 7 ∷ [])) (register alice) 7 (replicate 61 7) refl refl

abbrev found_bytes : List ℕ
found_bytes = PeerFrames.to_be_bytes found ++ 24 ∷ []

found-IsPeerFrame : IsPeerFrame found
unfolding pcopy.Rust.Duration.from_millis
found-IsPeerFrame = record {
  address = (omega arith, omega arith, omega arith, omega arith);
  rtt = omega arith;
}

peer_parse-to_be_bytes_example :
    PeerFrames.parse (new found_bytes)
    ≡ ok (received found, forward (new found_bytes) (length (PeerFrames.to_be_bytes found)))
peer_parse-to_be_bytes_example =
    peer_parse-to_be_bytes (new found_bytes) found (24 ∷ []) found-IsPeerFrame
      (unread-new found_bytes)

peer_parse_incomplete_example : PeerFrames.parse (new (21 ∷ [])) ≡ err incomplete
unfolding PeerFrames.to_be_bytes unread pcopy.Relay.PeerOperations.to_u8
    pcopy.Relay.StatusCodes.into_u8
peer_parse_incomplete_example =
    peer_parse_incomplete (new (21 ∷ [])) (register_result success) 200 [] tt refl

abbrev v6_tail : List ℕ
v6_tail = replicate 12 1

abbrev v6_bytes : List ℕ
v6_bytes = PeerFrames.to_be_bytes (command (doconnect (v6 (32 ∷ 1 ∷ 13 ∷ 184 ∷ v6_tail)))) ++ []

parse_doconnect_v6_example :
    (PeerFrames.parse (new v6_bytes)
      ≡ ok (command (doconnect (v4 32 1 13 184)), forward (new v6_bytes) 6))
    × (unread (forward (new v6_bytes) 6) ≡ v6_tail ++ [])
parse_doconnect_v6_example =
    parse_doconnect_v6 (new v6_bytes) 32 1 13 184 v6_tail [] (omega arith) (omega arith)
      (omega arith) (omega arith) refl (unread-new v6_bytes)
