-- ===== src/Relay/Suite/Reads.antt =====
-- relay/framehelper.rs, `mod Tests`.
use pcopy.Prelude.{
  ℕ, List, [], ◌∷◌, ◌++◌, Bool, true, false, not, length, take, replicate, ltb, ◌==◌, Option, none,
  some,
}
use pcopy.Prelude.Outcome.{Outcome, ok, ◌>>=◌, unwrap, unwrap_err, panic}
use pcopy.Rust.Text.{same_text}
use pcopy.Rust.Assert.{assert, index}
use pcopy.Rust.IoError.{IoError}
use pcopy.Crates.Bytes.{Bytes}
use pcopy.Crates.ByteOrder.{ByteOrder}
use pcopy.Relay.PeerId
use pcopy.Relay.PeerId.{PeerId}
use pcopy.Relay.StatusCodes
use pcopy.Relay.StatusCodes.{success}
use pcopy.Relay.RelayOperations
use pcopy.Relay.PeerOperations
use pcopy.Relay.RelayFrames.{RelayFrames, register, probe, do_connect, ping, probe_ack}
use pcopy.Relay.RelayFrames.Trait.{relay_frame}
use pcopy.Relay.PeerFrames.{register_result}
use pcopy.Relay.PeerFrames.Trait.{peer_frame}
use pcopy.Relay.Stream.{Stream, chunk}
use pcopy.Relay.FrameHelper.{parse_frame, read_frame_given_stream, write_frame_given_stream}

-- `if let Some(RelayFrames::Register(peer_id)) = result`, and otherwise a panic.
unfoldable pub expect_register : Option RelayFrames → Outcome IoError PeerId
expect_register (some (register peer_id)) = ok peer_id
expect_register (some (probe peer_id)) = panic
expect_register (some (do_connect peer_id)) = panic
expect_register (some ping) = panic
expect_register (some probe_ack) = panic
expect_register none = panic

unfoldable pub expect_probe : Option RelayFrames → Outcome IoError PeerId
expect_probe (some (probe peer_id)) = ok peer_id
expect_probe (some (register peer_id)) = panic
expect_probe (some (do_connect peer_id)) = panic
expect_probe (some ping) = panic
expect_probe (some probe_ack) = panic
expect_probe none = panic

unfoldable pub expect_ping : Option RelayFrames → Outcome IoError (Unit {0})
expect_ping (some ping) = ok tt
expect_ping (some (register peer_id)) = panic
expect_ping (some (probe peer_id)) = panic
expect_ping (some (do_connect peer_id)) = panic
expect_ping (some probe_ack) = panic
expect_ping none = panic

-- `result.unwrap().is_none()`
unfoldable pub is_none : Option RelayFrames → Bool
is_none none = true
is_none (some f) = false

-- What the other end of a new stream has been sent by `write`.
abbrev pub fresh : Stream
fresh = record { incoming = []; sendings = []; outgoing = [] }

module _ ⦃b : Bytes⦄ where
  -- The other end reads up to eight bytes.
  unfoldable pub test_write_frame_to_stream : ⦃order : ByteOrder⦄ → Outcome IoError (Unit {0})
  test_write_frame_to_stream =
      let (r, stream) = write_frame_given_stream peer_frame (register_result success) fresh in
      do
        _ ← unwrap r
        let read = take 8 stream.outgoing
        let buf = read ++ replicate 8 0
        _ ← assert (ltb 0 (length read))
        x ← index buf 0
        _ ← assert (x == PeerOperations.to_u8 PeerOperations.register_result)
        y ← index buf 1
        assert (y == StatusCodes.into_u8 success)

  -- The text of the identifier is an argument.
  unfoldable pub test_read_frame_from_stream_register : List ℕ → Outcome IoError (Unit {0})
  unfolding expect_register same_text
  test_read_frame_from_stream_register peer_id_bytes = do
    let register_bytes = RelayOperations.to_u8 RelayOperations.register ∷ peer_id_bytes
    result ← unwrap (read_frame_given_stream relay_frame [] (chunk register_bytes ∷ [])).0
    peer_id ← expect_register result
    expected ← PeerId.new peer_id_bytes 0
    assert (same_text (PeerId.as_bytes peer_id) (PeerId.as_bytes expected))

  unfoldable pub test_parse_frame_success : Outcome IoError (Unit {0})
  unfolding expect_ping
  test_parse_frame_success = do
    frame ← unwrap (parse_frame relay_frame (RelayOperations.to_u8 RelayOperations.ping ∷ []))
    expect_ping frame

  unfoldable pub test_parse_frame_incomplete : Outcome IoError (Unit {0})
  unfolding is_none
  test_parse_frame_incomplete = do
    result ← unwrap (parse_frame relay_frame [])
    assert (is_none result)

  unfoldable pub test_parse_frame_invalid_operation : Outcome IoError (Unit {0})
  test_parse_frame_invalid_operation = do
    e ← unwrap_err (parse_frame relay_frame (0xff ∷ []))
    ok tt

  -- `PeerId::default` fills its bytes by the crate `rand`.
  unfoldable pub test_parse_frame_valid_register : (List ℕ → List ℕ) → Outcome IoError (Unit {0})
  unfolding expect_register
  test_parse_frame_valid_register fill_bytes = do
    let peer_id = PeerId.default fill_bytes
    let buffer = RelayOperations.to_u8 RelayOperations.register ∷ PeerId.as_bytes peer_id
    _ ← assert (not (ltb (length buffer) 65))
    result ← unwrap (parse_frame relay_frame buffer)
    _peer_id ← expect_register result
    ok tt

  unfoldable pub test_parse_frame_valid_probe : (List ℕ → List ℕ) → Outcome IoError (Unit {0})
  unfolding expect_probe
  test_parse_frame_valid_probe fill_bytes = do
    let peer_id = PeerId.default fill_bytes
    let buffer = RelayOperations.to_u8 RelayOperations.probe ∷ PeerId.as_bytes peer_id
    _ ← assert (not (ltb (length buffer) 65))
    result ← unwrap (parse_frame relay_frame buffer)
    _peer_id ← expect_probe result
    ok tt
