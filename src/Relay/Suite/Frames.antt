-- ===== src/Relay/Suite/Frames.antt =====
-- relay/frame.rs, `mod Tests`.
use pcopy.Prelude.{ℕ, List, [], ◌∷◌, length, slice, ◌==◌, none, some}
use pcopy.Prelude.Outcome.{Outcome, ok, ◌>>=◌, unwrap, unwrap_err, or_panic}
use pcopy.Rust.Text.{same_text}
use pcopy.Rust.Assert.{assert, index}
use pcopy.Rust.Cursor
use pcopy.Crates.Bytes.{Bytes}
use pcopy.Relay.FrameError.{FrameError}
use pcopy.Relay.PeerInfo
use pcopy.Relay.StatusCodes
use pcopy.Relay.StatusCodes.{success, failure}
use pcopy.Relay.HealthStatus
use pcopy.Relay.HealthStatus.{healthy}
use pcopy.Relay.PeerCommands.{sync, sync_code}
use pcopy.Relay.RelayOperations
use pcopy.Relay.RelayOperations.{RelayOperations}
use pcopy.Relay.PeerOperations
use pcopy.Relay.PeerOperations.{PeerOperations, commands}
use pcopy.Relay.RelayFrames
use pcopy.Relay.PeerFrames
use pcopy.Relay.PeerFrames.{PeerFrames, command}

-- The operation byte and the byte behind it.
unfoldable pub starts_with : List ℕ → ℕ → ℕ → Outcome FrameError (Unit {0})
starts_with bytes first second = do
  x ← index bytes 0
  _ ← assert (x == first)
  y ← index bytes 1
  assert (y == second)

module _ ⦃b : Bytes⦄ where
  -- Each byte is read as its operation.
  unfoldable pub relay_operations : List (ℕ × RelayOperations) → Outcome FrameError (Unit {0})
  relay_operations [] = ok tt
  relay_operations ((byte, expected_op) ∷ ops) = do
    (op, buf) ← unwrap (RelayFrames.read_operation (Cursor.new (byte ∷ [])))
    _ ← assert (RelayOperations.to_u8 op == RelayOperations.to_u8 expected_op)
    relay_operations ops

  unfoldable pub test_read_operation_receiving_frame : Outcome FrameError (Unit {0})
  unfolding relay_operations
  test_read_operation_receiving_frame = do
    _ ← relay_operations (
        (1, RelayOperations.register)
        ∷ (2, RelayOperations.probe)
        ∷ (3, RelayOperations.do_connect)
        ∷ (4, RelayOperations.ping)
        ∷ [])
    _ ← unwrap_err (RelayFrames.read_operation (Cursor.new []))
    _ ← unwrap_err (RelayFrames.read_operation (Cursor.new (0xff ∷ [])))
    ok tt

  unfoldable pub peer_operations : List (ℕ × PeerOperations) → Outcome FrameError (Unit {0})
  peer_operations [] = ok tt
  peer_operations ((byte, expected_op) ∷ ops) = do
    (op, buf) ← unwrap (PeerFrames.read_operation (Cursor.new (byte ∷ [])))
    _ ← assert (PeerOperations.to_u8 op == PeerOperations.to_u8 expected_op)
    peer_operations ops

  unfoldable pub test_read_operation_sending_frame : Outcome FrameError (Unit {0})
  unfolding peer_operations
  test_read_operation_sending_frame = do
    _ ← peer_operations (
        (21, PeerOperations.register_result)
        ∷ (22, PeerOperations.probe_result)
        ∷ (23, PeerOperations.do_connect_result)
        ∷ (24, PeerOperations.ping_result)
        ∷ (25, commands)
        ∷ [])
    _ ← unwrap_err (PeerFrames.read_operation (Cursor.new []))
    _ ← unwrap_err (PeerFrames.read_operation (Cursor.new (0xff ∷ [])))
    ok tt

  unfoldable pub test_to_be_bytes_sending_frame : Outcome FrameError (Unit {0})
  unfolding starts_with same_text
  test_to_be_bytes_sending_frame = do
    _ ←
        starts_with (PeerFrames.to_be_bytes (PeerFrames.register_result success))
          (PeerOperations.to_u8 PeerOperations.register_result) (StatusCodes.into_u8 success)
    _ ←
        starts_with (PeerFrames.to_be_bytes (PeerFrames.ping_result healthy))
          (PeerOperations.to_u8 PeerOperations.ping_result) (HealthStatus.to_u8 healthy)
    _ ←
        starts_with (PeerFrames.to_be_bytes (command sync)) (PeerOperations.to_u8 commands)
          sync_code
    _ ←
        starts_with (PeerFrames.to_be_bytes (PeerFrames.do_connect_result failure))
          (PeerOperations.to_u8 PeerOperations.do_connect_result) (StatusCodes.into_u8 failure)
    let no_peer = PeerFrames.to_be_bytes (PeerFrames.probe_result none)
    _ ←
        starts_with no_peer (PeerOperations.to_u8 PeerOperations.probe_result)
          (StatusCodes.into_u8 failure)
    _ ← assert (length no_peer == 2)
    let bytes = PeerFrames.to_be_bytes (PeerFrames.probe_result (some PeerInfo.default))
    _ ←
        starts_with bytes (PeerOperations.to_u8 PeerOperations.probe_result)
          (StatusCodes.into_u8 success)
    behind ← or_panic (slice bytes 2 (length bytes))
    assert (same_text behind (PeerInfo.to_be_bytes PeerInfo.default))
