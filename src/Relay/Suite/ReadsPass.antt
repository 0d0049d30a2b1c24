-- ===== src/Relay/Suite/ReadsPass.antt =====
-- The tests of reading and writing frames pass.
use pcopy.Prelude.{
  ℕ, ◌≤◌, ◌≡◌, ◌∙◌, sym, ap, arith, List, [], ◌∷◌, ◌++◌, length, take, drop, replicate, some, slice,
  slice_at, take-append-drop, length-take, append-nil,
}
use pcopy.Prelude.Outcome.{ok}
use pcopy.Rust.Assert.{index, same_text_refl}
use pcopy.Rust.Cursor
use pcopy.Rust.Cursor.{unread-new}
use pcopy.Crates.Bytes.{Bytes}
use pcopy.Crates.ByteOrder.{ByteOrder}
use pcopy.Relay.PeerId
use pcopy.Relay.PeerId.{PeerId}
use pcopy.Relay.StatusCodes
use pcopy.Relay.RelayOperations
use pcopy.Relay.PeerOperations
use pcopy.Relay.RelayFrames
use pcopy.Relay.RelayFrames.{RelayFrames, IsRelayFrame, register, probe, ping}
use pcopy.Relay.RelayFrames.Reading.{to_be_bytes-wire, parse-nil, parse-cons}
use pcopy.Relay.RelayFrames.Trait.{relay_frame, relay_frame_laws}
use pcopy.Relay.PeerFrames
use pcopy.Relay.Stream.{write_all}
use pcopy.Relay.FrameHelper.{parse_frame, write_frame_given_stream}
use pcopy.Relay.FrameHelper.Reading.{parse_frame-whole, read_all}
use pcopy.Relay.Suite.Reads.{
  test_write_frame_to_stream, test_read_frame_from_stream_register, test_parse_frame_success,
  test_parse_frame_incomplete, test_parse_frame_invalid_operation, test_parse_frame_valid_register,
  test_parse_frame_valid_probe,
}

module _ ⦃b : Bytes⦄ where
  test_write_frame_to_stream_lem : ⦃order : ByteOrder⦄ → test_write_frame_to_stream ≡ ok tt
  unfolding test_write_frame_to_stream write_frame_given_stream write_all PeerFrames.to_be_bytes
      index PeerOperations.to_u8 StatusCodes.into_u8
  test_write_frame_to_stream_lem = simp (b.put_u8_lem)

  -- A whole frame is parsed.
  parse_whole :
      (f : RelayFrames) (buffer : List ℕ)
      → IsRelayFrame f
      → buffer ≡ RelayFrames.to_be_bytes f
      → parse_frame relay_frame buffer ≡ ok (some f)
  parse_whole f buffer v e =
      parse_frame-whole relay_frame relay_frame_laws f buffer [] v
        (e ∙ sym (append-nil (RelayFrames.to_be_bytes f)))

  test_parse_frame_success_lem : test_parse_frame_success ≡ ok tt
  unfolding test_parse_frame_success RelayOperations.to_u8
  test_parse_frame_success_lem = rw (parse_whole ping (4 ∷ []) tt (sym (to_be_bytes-wire ping)))

  test_parse_frame_incomplete_lem : test_parse_frame_incomplete ≡ ok tt
  unfolding test_parse_frame_incomplete parse_frame
  test_parse_frame_incomplete_lem = rw (parse-nil (Cursor.new []) (unread-new []))

  test_parse_frame_invalid_operation_lem : test_parse_frame_invalid_operation ≡ ok tt
  unfolding test_parse_frame_invalid_operation parse_frame RelayOperations.try_from
  test_parse_frame_invalid_operation_lem =
      rw (parse-cons (Cursor.new (0xff ∷ [])) 0xff [] (unread-new (0xff ∷ [])))

  -- A register frame and a probe frame of an identifier of the right length are parsed.
  parse_register :
      (p : PeerId)
      → length p.bytes ≡ 64
      → parse_frame relay_frame (1 ∷ p.bytes) ≡ ok (some (register p))
  parse_register p v =
      parse_whole (register p) (1 ∷ p.bytes) v (sym (to_be_bytes-wire (register p)))

  parse_probe :
      (p : PeerId)
      → length p.bytes ≡ 64
      → parse_frame relay_frame (2 ∷ p.bytes) ≡ ok (some (probe p))
  parse_probe p v = parse_whole (probe p) (2 ∷ p.bytes) v (sym (to_be_bytes-wire (probe p)))

  module _ (fill_bytes : List ℕ → List ℕ)
      (fills : (xs : List ℕ) → length (fill_bytes xs) ≡ length xs) where
    abbrev random : List ℕ
    random = fill_bytes (replicate 64 0)

    test_parse_frame_valid_register_lem : test_parse_frame_valid_register fill_bytes ≡ ok tt
    unfolding test_parse_frame_valid_register PeerId.default PeerId.as_bytes RelayOperations.to_u8
    test_parse_frame_valid_register_lem =
        let size : length random ≡ 64 = fills (replicate 64 0) in
        rw (size, parse_register (record { bytes = random }) size)

    test_parse_frame_valid_probe_lem : test_parse_frame_valid_probe fill_bytes ≡ ok tt
    unfolding test_parse_frame_valid_probe PeerId.default PeerId.as_bytes RelayOperations.to_u8
    test_parse_frame_valid_probe_lem =
        let size : length random ≡ 64 = fills (replicate 64 0) in
        rw (size, parse_probe (record { bytes = random }) size)

  test_read_frame_from_stream_register_lem :
      (peer_id_bytes : List ℕ)
      → 64 ≤ length peer_id_bytes
      → test_read_frame_from_stream_register peer_id_bytes ≡ ok tt
  unfolding test_read_frame_from_stream_register PeerId.new PeerId.as_bytes RelayOperations.to_u8
  test_read_frame_from_stream_register_lem peer_id_bytes long =
      let p : List ℕ = take 64 peer_id_bytes in
      let rest : List ℕ = drop 64 peer_id_bytes in
      let whole : peer_id_bytes ≡ p ++ rest = sym (take-append-drop 64 peer_id_bytes) in
      let size : length p ≡ 64 = omega (arith, length-take 64 peer_id_bytes) in
      let cut : slice peer_id_bytes 0 64 ≡ some p =
        slice_at peer_id_bytes 0 64 p rest whole size (omega arith) in
      let f : RelayFrames = register (record { bytes = p }) in
      let (r, left, run, same) =
        read_all relay_frame relay_frame_laws ((1, peer_id_bytes) ∷ []) [] [] f rest size
          (rw (append-nil peer_id_bytes, to_be_bytes-wire f) (ap (λ t. 1 ∷ t) whole)) in
      rw (run, cut, size, same_text_refl p)

  -- The tests of reading and writing frames pass, for every identifier of at least 64 bytes and a crate
  -- `rand` that keeps the length of what it fills.
  frame_helper_tests :
      ⦃order : ByteOrder⦄ (peer_id_bytes : List ℕ) (fill_bytes : List ℕ → List ℕ)
      → 64 ≤ length peer_id_bytes
      → ((xs : List ℕ) → length (fill_bytes xs) ≡ length xs)
      → (test_write_frame_to_stream ≡ ok tt)
        × (test_read_frame_from_stream_register peer_id_bytes ≡ ok tt)
        × (test_parse_frame_success ≡ ok tt)
        × (test_parse_frame_incomplete ≡ ok tt)
        × (test_parse_frame_invalid_operation ≡ ok tt)
        × (test_parse_frame_valid_register fill_bytes ≡ ok tt)
        × (test_parse_frame_valid_probe fill_bytes ≡ ok tt)
  frame_helper_tests peer_id_bytes fill_bytes long fills = (
    test_write_frame_to_stream_lem,
    test_read_frame_from_stream_register_lem peer_id_bytes long,
    test_parse_frame_success_lem,
    test_parse_frame_incomplete_lem,
    test_parse_frame_invalid_operation_lem,
    test_parse_frame_valid_register_lem fill_bytes fills,
    test_parse_frame_valid_probe_lem fill_bytes fills,
  )
