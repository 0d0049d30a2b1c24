-- ===== src/Relay/PeerFrames.antt =====
-- relay/frame.rs: `PeerFrames`, what the relay sends to peers.
pub mod Reading
pub mod RoundTrip
pub mod Prefix
pub mod Trait
pub mod Total
use pcopy.Prelude.{
  ◌<◌, ℕ, ◌/◌, ◌%◌, ◌^◌, List, [], not, ltb, ◌==◌, if◌then◌else◌, Option, none, some,
}
use pcopy.Prelude.Outcome.{Outcome, ok, err, ◌>>=◌, or_panic, map_err}
use pcopy.Rust.IoError.{invalid_input}
use pcopy.Rust.Cursor.{Cursor}
use pcopy.Rust.IpAddr.{IpAddr, v4, v6}
use pcopy.Crates.Bytes.{Bytes}
use pcopy.Crates.ByteOrder.{ByteOrder}
use pcopy.Relay.FrameError.{FrameError, incomplete, other, from_io}
use pcopy.Relay.PeerInfo
use pcopy.Relay.PeerInfo.{PeerInfo}
use pcopy.Relay.StatusCodes
use pcopy.Relay.StatusCodes.{StatusCodes, success, failure}
use pcopy.Relay.HealthStatus
use pcopy.Relay.HealthStatus.{HealthStatus}
use pcopy.Relay.PeerCommands
use pcopy.Relay.PeerCommands.{PeerCommands, sync, doconnect, sync_code, doconnect_code}
use pcopy.Relay.PeerOperations
use pcopy.Relay.PeerOperations.{PeerOperations, commands}

pub data PeerFrames : Type 0 where
  register_result : StatusCodes → PeerFrames
  probe_result : Option PeerInfo → PeerFrames
  do_connect_result : StatusCodes → PeerFrames
  ping_result : HealthStatus → PeerFrames
  command : PeerCommands → PeerFrames

-- What a peer gets of a frame: of a `PeerInfo`, what is sent.
unfoldable pub received : PeerFrames → PeerFrames
received (probe_result (some p)) = probe_result (some (PeerInfo.received p))
received f = f

-- The frames whose bytes `parse` reads back: those that tell a peer to connect to a V6 address are not
-- among them.
abbrev pub IsPeerFrame : PeerFrames → Type 0
IsPeerFrame (probe_result (some p)) = PeerInfo.IsPeerInfo p
IsPeerFrame (command (doconnect (v4 w x y z))) = (w < 256) × (x < 256) × (y < 256) × (z < 256)
IsPeerFrame (command (doconnect (v6 bs))) = ⊥
IsPeerFrame _ = Unit

-- `Ipv4Addr::new` of the four bytes of a u32, by shifts and masks.
unfoldable pub v4_of_u32 : ℕ → IpAddr
v4_of_u32 n = v4 (n / 2 ^ 24 % 256) (n / 2 ^ 16 % 256) (n / 2 ^ 8 % 256) (n % 256)

module _ ⦃b : Bytes⦄ where
  open b use {remaining, has_remaining, get_u8, get_u32, put_u8, extend_from_slice}

  unfoldable pub read_operation : Cursor → Outcome FrameError (PeerOperations × Cursor)
  read_operation buf = if not (has_remaining buf) then err incomplete else do
    (value, buf') ← or_panic (get_u8 buf)
    op ← PeerOperations.try_from value
    ok (op, buf')

  -- `if !buf.has_remaining() { return Err(Incomplete) }` and the byte that follows.
  unfoldable pub next_byte : Cursor → Outcome FrameError (ℕ × Cursor)
  next_byte buf = if not (has_remaining buf) then err incomplete else or_panic (get_u8 buf)

  unfoldable pub parse_command : ℕ → Cursor → Outcome FrameError (PeerFrames × Cursor)
  unfolding v4_of_u32
  parse_command command_code buf =
      if command_code == sync_code
      then ok (command sync, buf)
      else if command_code == doconnect_code
      then (if ltb (remaining buf) 4 then err incomplete else do
        (ip_bytes, buf') ← or_panic (get_u32 buf)
        ok (command (doconnect (v4_of_u32 ip_bytes)), buf'))
      else err (other invalid_input)

  unfoldable pub to_be_bytes : PeerFrames → List ℕ
  to_be_bytes (register_result status_codes) =
      put_u8 (put_u8 [] (PeerOperations.to_u8 PeerOperations.register_result))
        (StatusCodes.into_u8 status_codes)
  to_be_bytes (probe_result none) =
      put_u8 (put_u8 [] (PeerOperations.to_u8 PeerOperations.probe_result))
        (StatusCodes.into_u8 failure)
  to_be_bytes (probe_result (some peer_info)) =
      extend_from_slice
        (put_u8 (put_u8 [] (PeerOperations.to_u8 PeerOperations.probe_result))
          (StatusCodes.into_u8 success))
        (PeerInfo.to_be_bytes peer_info)
  to_be_bytes (command peer_commands) =
      extend_from_slice (put_u8 [] (PeerOperations.to_u8 commands))
        (PeerCommands.to_be_bytes peer_commands)
  to_be_bytes (do_connect_result status_codes) =
      put_u8 (put_u8 [] (PeerOperations.to_u8 PeerOperations.do_connect_result))
        (StatusCodes.into_u8 status_codes)
  to_be_bytes (ping_result health_status) =
      put_u8 (put_u8 [] (PeerOperations.to_u8 PeerOperations.ping_result))
        (HealthStatus.to_u8 health_status)

module _ ⦃b : Bytes⦄ ⦃order : ByteOrder⦄ where
  -- A failed probe has no body; a successful one has the `PeerInfo`.
  unfoldable pub parse_probe : StatusCodes → Cursor → Outcome FrameError (PeerFrames × Cursor)
  parse_probe failure buf = ok (probe_result none, buf)
  parse_probe success buf = do
    (peer_info, buf') ← PeerInfo.try_from buf
    ok (probe_result (some peer_info), buf')

  -- The cases of `parse`, behind the operation.
  unfoldable pub parse_body : PeerOperations → Cursor → Outcome FrameError (PeerFrames × Cursor)
  parse_body PeerOperations.register_result buf = do
    (value, buf') ← next_byte buf
    status ← StatusCodes.try_from value
    ok (register_result status, buf')
  parse_body PeerOperations.probe_result buf = do
    (value, buf') ← next_byte buf
    status ← StatusCodes.try_from value
    parse_probe status buf'
  parse_body PeerOperations.do_connect_result buf = do
    (value, buf') ← next_byte buf
    status ← StatusCodes.try_from value
    ok (do_connect_result status, buf')
  parse_body PeerOperations.ping_result buf = do
    (value, buf') ← next_byte buf
    health ← map_err from_io (HealthStatus.try_from value)
    ok (ping_result health, buf')
  parse_body commands buf = do (command_code, buf') ← next_byte buf; parse_command command_code buf'

  unfoldable pub parse : Cursor → Outcome FrameError (PeerFrames × Cursor)
  parse buf = do (op, buf') ← read_operation buf; parse_body op buf'
