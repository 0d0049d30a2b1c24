-- ===== src/Relay/PeerFrames/RoundTrip.antt =====
-- `PeerFrames::parse` reads back what `to_be_bytes` writes.
use pcopy.Prelude.{ℕ, ◌<◌, ◌≡◌, List, ◌∷◌, ◌++◌, length, none, some}
use pcopy.Prelude.Outcome.{ok}
use pcopy.Rust.Cursor.{Cursor, unread, forward, unread-step, forward-forward, unread-forward}
use pcopy.Rust.IpAddr.{v4, v6, octets}
use pcopy.Crates.Bytes.{Bytes}
use pcopy.Crates.ByteOrder.{ByteOrder}
use pcopy.Relay.PeerInfo.Reading.{try_from-to_be_bytes, length-to_be_bytes}
use pcopy.Relay.StatusCodes
use pcopy.Relay.HealthStatus
use pcopy.Relay.PeerCommands.{sync, doconnect}
use pcopy.Relay.PeerOperations
use pcopy.Relay.PeerFrames.{
  PeerFrames, IsPeerFrame, register_result, probe_result, do_connect_result, ping_result, command,
  received, parse_body, parse_probe, parse, to_be_bytes, next_byte,
}
use pcopy.Relay.PeerFrames.Reading.{
  wire, to_be_bytes-wire, parse-cons, next_byte-cons, parse_command-sync, parse_command-v4,
  success_code, failure_code,
}

module _ ⦃b : Bytes⦄ ⦃order : ByteOrder⦄ (c : Cursor) where
  -- The operation and the byte behind it.
  pub second_byte :
      (v w : ℕ) (bs : List ℕ)
      → unread c ≡ v ∷ w ∷ bs
      → next_byte (forward c 1) ≡ ok (w, forward c 2)
  second_byte v w bs e =
      rw (next_byte-cons (forward c 1) w bs (unread-step c v (w ∷ bs) e), forward-forward c 1 1)

  behind_two : (v w : ℕ) (bs : List ℕ) → unread c ≡ v ∷ w ∷ bs → unread (forward c 2) ≡ bs
  behind_two v w bs e = rw (unread-forward, e)

  parse-wire :
      (f : PeerFrames) (rest : List ℕ)
      → IsPeerFrame f
      → unread c ≡ wire f ++ rest
      → parse c ≡ ok (received f, forward c (length (wire f)))
  unfolding PeerOperations.try_from parse_body received parse_probe octets
  parse-wire (register_result s) rest v e = rw (
    parse-cons c 21 _ e,
    second_byte 21 (StatusCodes.into_u8 s) rest e,
    StatusCodes.try_from-into_u8,
  )
  parse-wire (probe_result none) rest v e =
      rw (parse-cons c 22 _ e, second_byte 22 111 rest e, failure_code)
  parse-wire (probe_result (some p)) rest v e = rw (
    parse-cons c 22 _ e,
    second_byte 22 200 _ e,
    success_code,
    try_from-to_be_bytes (forward c 2) p rest v (behind_two 22 200 _ e),
    forward-forward c 2 33,
    length-to_be_bytes p v,
  )
  parse-wire (do_connect_result s) rest v e = rw (
    parse-cons c 23 _ e,
    second_byte 23 (StatusCodes.into_u8 s) rest e,
    StatusCodes.try_from-into_u8,
  )
  parse-wire (ping_result h) rest v e = rw (
    parse-cons c 24 _ e,
    second_byte 24 (HealthStatus.to_u8 h) rest e,
    HealthStatus.try_from-to_u8,
  )
  parse-wire (command sync) rest v e =
      rw (parse-cons c 25 _ e, second_byte 25 100 rest e, parse_command-sync (forward c 2))
  parse-wire (command (doconnect (v4 w x y z))) rest (hw, hx, hy, hz) e = rw (
    parse-cons c 25 _ e,
    second_byte 25 101 _ e,
    parse_command-v4 (forward c 2) w x y z rest (behind_two 25 101 _ e) hw hx hy hz,
    forward-forward c 2 4,
  )
  parse-wire (command (doconnect (v6 bs))) rest v e = absurd v

  -- A frame that `to_be_bytes` wrote is read back by `parse`, whatever follows it, and the cursor steps
  -- over exactly its bytes. Of a `PeerInfo` the reader gets `received`: no identifier, and whole
  -- milliseconds. This holds of every frame but the command to connect to a V6 address, where the
  -- octets of an address are bytes and a duration is one that Rust can hold.
  pub peer_parse-to_be_bytes :
      (f : PeerFrames) (rest : List ℕ)
      → IsPeerFrame f
      → unread c ≡ to_be_bytes f ++ rest
      → parse c ≡ ok (received f, forward c (length (to_be_bytes f)))
  peer_parse-to_be_bytes f rest v e =
      rw to_be_bytes-wire (parse-wire f rest v (rw (to_be_bytes-wire f) at e))

  -- The command to connect to a V6 address is read as one to connect to the V4 address of its first
  -- four octets, and the other twelve stay unread, where the next frame should begin.
  pub parse_doconnect_v6 :
      (w x y z : ℕ) (tail rest : List ℕ)
      → w < 256
      → x < 256
      → y < 256
      → z < 256
      → length tail ≡ 12
      → unread c ≡ to_be_bytes (command (doconnect (v6 (w ∷ x ∷ y ∷ z ∷ tail)))) ++ rest
      → (parse c ≡ ok (command (doconnect (v4 w x y z)), forward c 6))
        × (unread (forward c 6) ≡ tail ++ rest)
  unfolding octets received
  parse_doconnect_v6 w x y z tail rest hw hx hy hz twelve e =
      let sent : unread c ≡ wire (command (doconnect (v4 w x y z))) ++ (tail ++ rest) =
        rw to_be_bytes-wire at e in
      (
        parse-wire (command (doconnect (v4 w x y z))) (tail ++ rest) (hw, hx, hy, hz) sent,
        rw (unread-forward, sent),
      )
