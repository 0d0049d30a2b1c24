-- ===== src/Relay/RelayFrames.antt =====
-- relay/frame.rs: `RelayFrames`, what peers send to the relay.
pub mod Reading
pub mod RoundTrip
pub mod Canonical
pub mod Prefix
pub mod Trait
use pcopy.Prelude.{ℕ, List, [], not, if◌then◌else◌}
use pcopy.Prelude.Outcome.{Outcome, ok, err, ◌>>=◌, or_panic}
use pcopy.Rust.Cursor.{Cursor}
use pcopy.Crates.Bytes.{Bytes}
use pcopy.Relay.FrameError.{FrameError, incomplete}
use pcopy.Relay.PeerId
use pcopy.Relay.PeerId.{PeerId, IsPeerId}
use pcopy.Relay.RelayOperations
use pcopy.Relay.RelayOperations.{RelayOperations}

pub data RelayFrames : Type 0 where
  register probe do_connect : PeerId → RelayFrames
  ping probe_ack : RelayFrames

abbrev pub IsRelayFrame : RelayFrames → Type 0
IsRelayFrame (register p) = IsPeerId p
IsRelayFrame (probe p) = IsPeerId p
IsRelayFrame (do_connect p) = IsPeerId p
IsRelayFrame _ = Unit

module _ ⦃b : Bytes⦄ where
  open b use {has_remaining, get_u8, put_u8, extend_from_slice}

  unfoldable pub read_operation : Cursor → Outcome FrameError (RelayOperations × Cursor)
  read_operation buf = if not (has_remaining buf) then err incomplete else do
    (value, buf') ← or_panic (get_u8 buf)
    op ← RelayOperations.try_from value
    ok (op, buf')

  -- The cases of `parse`, behind the operation.
  unfoldable pub parse_body : RelayOperations → Cursor → Outcome FrameError (RelayFrames × Cursor)
  parse_body RelayOperations.register buf = do
    (p, buf') ← PeerId.try_from buf
    ok (register p, buf')
  parse_body RelayOperations.probe buf = do (p, buf') ← PeerId.try_from buf; ok (probe p, buf')
  parse_body RelayOperations.do_connect buf = do
    (p, buf') ← PeerId.try_from buf
    ok (do_connect p, buf')
  parse_body RelayOperations.ping buf = ok (ping, buf)
  parse_body RelayOperations.probe_ack buf = ok (probe_ack, buf)

  unfoldable pub parse : Cursor → Outcome FrameError (RelayFrames × Cursor)
  parse buf = do (op, buf') ← read_operation buf; parse_body op buf'

  unfoldable pub to_be_bytes : RelayFrames → List ℕ
  to_be_bytes (register peer_id) =
      extend_from_slice (put_u8 [] (RelayOperations.to_u8 RelayOperations.register))
        (PeerId.as_bytes peer_id)
  to_be_bytes (probe peer_id) =
      extend_from_slice (put_u8 [] (RelayOperations.to_u8 RelayOperations.probe))
        (PeerId.as_bytes peer_id)
  to_be_bytes (do_connect peer_id) =
      extend_from_slice (put_u8 [] (RelayOperations.to_u8 RelayOperations.do_connect))
        (PeerId.as_bytes peer_id)
  to_be_bytes ping = put_u8 [] (RelayOperations.to_u8 RelayOperations.ping)
  to_be_bytes probe_ack = put_u8 [] (RelayOperations.to_u8 RelayOperations.probe_ack)
