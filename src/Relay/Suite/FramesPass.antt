-- ===== src/Relay/Suite/FramesPass.antt =====
-- The tests of the frames pass.
use pcopy.Prelude.{
  ℕ, suc, ◌≡◌, refl, arith, List, [], ◌∷◌, length, ◌+◌, sym, some, slice, slice_at, append-nil,
}
use pcopy.Prelude.Outcome.{ok, err, ◌>>=◌}
use pcopy.Rust.Assert.{index, same_text_refl}
use pcopy.Rust.Cursor
use pcopy.Rust.Cursor.{unread-new, forward}
use pcopy.Crates.Bytes.{Bytes}
use pcopy.Relay.FrameError.{incomplete}
use pcopy.Relay.RelayOperations
use pcopy.Relay.PeerOperations
use pcopy.Relay.StatusCodes
use pcopy.Relay.StatusCodes.{success}
use pcopy.Relay.HealthStatus
use pcopy.Relay.PeerCommands
use pcopy.Relay.PeerInfo
use pcopy.Relay.RelayFrames
use pcopy.Relay.PeerFrames
use pcopy.Relay.Suite.Frames.{
  test_read_operation_receiving_frame, test_read_operation_sending_frame,
  test_to_be_bytes_sending_frame,
}

module _ ⦃b : Bytes⦄ where
  read_relay :
      (byte : ℕ)
      → RelayFrames.read_operation (Cursor.new (byte ∷ []))
        ≡ (RelayOperations.try_from byte >>= λ op. ok (op, forward (Cursor.new (byte ∷ [])) 1))
  unfolding RelayFrames.read_operation
  read_relay byte =
      let c = Cursor.new (byte ∷ []) in
      let e = unread-new (byte ∷ []) in rw (b.has_remaining_lem c, e, b.get_u8_lem c byte [] e)

  read_relay_nothing : RelayFrames.read_operation (Cursor.new []) ≡ err incomplete
  unfolding RelayFrames.read_operation
  read_relay_nothing = rw (b.has_remaining_lem (Cursor.new []), unread-new [])

  read_peer :
      (byte : ℕ)
      → PeerFrames.read_operation (Cursor.new (byte ∷ []))
        ≡ (PeerOperations.try_from byte >>= λ op. ok (op, forward (Cursor.new (byte ∷ [])) 1))
  unfolding PeerFrames.read_operation
  read_peer byte =
      let c = Cursor.new (byte ∷ []) in
      let e = unread-new (byte ∷ []) in rw (b.has_remaining_lem c, e, b.get_u8_lem c byte [] e)

  read_peer_nothing : PeerFrames.read_operation (Cursor.new []) ≡ err incomplete
  unfolding PeerFrames.read_operation
  read_peer_nothing = rw (b.has_remaining_lem (Cursor.new []), unread-new [])

  test_read_operation_receiving_frame_lem : test_read_operation_receiving_frame ≡ ok tt
  unfolding test_read_operation_receiving_frame RelayOperations.try_from RelayOperations.to_u8
  test_read_operation_receiving_frame_lem =
      rw (
        read_relay 1,
        read_relay 2,
        read_relay 3,
        read_relay 4,
        read_relay_nothing,
        read_relay 0xff,
      )

  test_read_operation_sending_frame_lem : test_read_operation_sending_frame ≡ ok tt
  unfolding test_read_operation_sending_frame PeerOperations.try_from PeerOperations.to_u8
  test_read_operation_sending_frame_lem = rw (
    read_peer 21,
    read_peer 22,
    read_peer 23,
    read_peer 24,
    read_peer 25,
    read_peer_nothing,
    read_peer 0xff,
  )

  behind_two :
      (x y : ℕ) (info : List ℕ) → slice (x ∷ y ∷ info) 2 (suc (suc (length info))) ≡ some info
  behind_two x y info =
      let end : 2 + length info ≡ suc (suc (length info)) = omega arith in
      rw (← end)
        (slice_at (x ∷ y ∷ info) 2 (length info) info [] (sym (append-nil info)) refl (omega arith))

  test_to_be_bytes_sending_frame_lem : test_to_be_bytes_sending_frame ≡ ok tt
  unfolding test_to_be_bytes_sending_frame PeerFrames.to_be_bytes index PeerOperations.to_u8
      StatusCodes.into_u8 HealthStatus.to_u8 PeerCommands.to_be_bytes
  test_to_be_bytes_sending_frame_lem =
      let info : List ℕ = PeerInfo.to_be_bytes PeerInfo.default in
      simp (b.put_u8_lem, b.extend_from_slice_lem)
        (rw (behind_two 22 200 info, same_text_refl info))
