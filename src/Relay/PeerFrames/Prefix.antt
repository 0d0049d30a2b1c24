-- ===== src/Relay/PeerFrames/Prefix.antt =====
-- `PeerFrames::parse` asks for more on the beginning of a frame.
use pcopy.Prelude.{
  ℕ, ◌<◌, ◌≡◌, refl, ap, arith, List, [], ◌∷◌, ◌++◌, length, length-append, none, some,
}
use pcopy.Prelude.Outcome.{err}
use pcopy.Rust.Cursor.{Cursor, unread, forward, unread-step, unread-forward}
use pcopy.Rust.IpAddr.{v4, v6, octets}
use pcopy.Crates.Bytes.{Bytes}
use pcopy.Crates.ByteOrder.{ByteOrder}
use pcopy.Relay.FrameError.{incomplete}
use pcopy.Relay.PeerInfo
use pcopy.Relay.PeerInfo.{PeerInfo, IsPeerInfo}
use pcopy.Relay.PeerInfo.Reading.{try_from-short, length-to_be_bytes}
use pcopy.Relay.PeerCommands.{sync, doconnect}
use pcopy.Relay.PeerOperations
use pcopy.Relay.PeerOperations.{PeerOperations}
use pcopy.Relay.PeerFrames.{
  PeerFrames, IsPeerFrame, register_result, probe_result, do_connect_result, ping_result, command,
  parse_body, parse_probe, parse, to_be_bytes,
}
use pcopy.Relay.PeerFrames.Reading.{
  wire, to_be_bytes-wire, parse-cons, parse-nil, next_byte-nil, parse_command-short, success_code,
}
use pcopy.Relay.PeerFrames.RoundTrip.{second_byte}

no_room : (bs : List ℕ) (x : ℕ) (more : List ℕ) → [] ≡ bs ++ x ∷ more → ⊥
no_room bs x more e = omega (arith, ap length e, length-append bs (x ∷ more))

module _ ⦃b : Bytes⦄ ⦃order : ByteOrder⦄ (c : Cursor) where
  parse_body-nil :
      (op : PeerOperations) (d : Cursor) → unread d ≡ [] → parse_body op d ≡ err incomplete
  unfolding parse_body
  parse_body-nil PeerOperations.register_result d e = rw (next_byte-nil d e)
  parse_body-nil PeerOperations.probe_result d e = rw (next_byte-nil d e)
  parse_body-nil PeerOperations.do_connect_result d e = rw (next_byte-nil d e)
  parse_body-nil PeerOperations.ping_result d e = rw (next_byte-nil d e)
  parse_body-nil PeerOperations.commands d e = rw (next_byte-nil d e)

  -- Only the operation is there.
  parse_alone :
      (op : PeerOperations) → unread c ≡ PeerOperations.to_u8 op ∷ [] → parse c ≡ err incomplete
  parse_alone op e = rw (
    parse-cons c (PeerOperations.to_u8 op) [] e,
    PeerOperations.try_from-to_u8 op,
    parse_body-nil op (forward c 1) (unread-step c (PeerOperations.to_u8 op) [] e),
  )

  -- A `PeerInfo` and an address that are cut off.
  cut_info :
      (p : PeerInfo) (bs : List ℕ) (x : ℕ) (more : List ℕ)
      → unread c ≡ 22 ∷ 200 ∷ bs
      → IsPeerInfo p
      → PeerInfo.to_be_bytes p ≡ bs ++ x ∷ more
      → parse c ≡ err incomplete
  unfolding PeerOperations.try_from parse_body parse_probe
  cut_info p bs x more u v e =
      let rest : unread (forward c 2) ≡ bs = rw (unread-forward, u) in
      let cut : length bs < 33 =
        omega (arith, ap length e, length-append bs (x ∷ more), length-to_be_bytes p v) in
      rw (
        parse-cons c 22 _ u,
        second_byte c 22 200 bs u,
        success_code,
        try_from-short (forward c 2) (rw rest cut),
      )

  cut_ip : (bs : List ℕ) → unread c ≡ 25 ∷ 101 ∷ bs → length bs < 4 → parse c ≡ err incomplete
  unfolding PeerOperations.try_from parse_body
  cut_ip bs u cut =
      let rest : unread (forward c 2) ≡ bs = rw (unread-forward, u) in
      rw (
        parse-cons c 25 _ u,
        second_byte c 25 101 bs u,
        parse_command-short (forward c 2) (rw rest cut),
      )

  parse-prefix :
      (f : PeerFrames) (bs : List ℕ) (x : ℕ) (more : List ℕ)
      → unread c ≡ bs
      → IsPeerFrame f
      → wire f ≡ bs ++ x ∷ more
      → parse c ≡ err incomplete
  unfolding PeerOperations.to_u8 octets
  parse-prefix f [] x more u valid e = parse-nil c u
  parse-prefix (register_result s) (v ∷ []) x more u valid e =
      let op : v ≡ 21 = cc in parse_alone PeerOperations.register_result (rw op at u)
  parse-prefix (register_result s) (v ∷ w ∷ bs) x more u valid e = absurd (no_room bs x more (cc))
  parse-prefix (probe_result none) (v ∷ []) x more u valid e =
      let op : v ≡ 22 = cc in parse_alone PeerOperations.probe_result (rw op at u)
  parse-prefix (probe_result none) (v ∷ w ∷ bs) x more u valid e = absurd (no_room bs x more (cc))
  parse-prefix (probe_result (some p)) (v ∷ []) x more u valid e =
      let op : v ≡ 22 = cc in parse_alone PeerOperations.probe_result (rw op at u)
  parse-prefix (probe_result (some p)) (v ∷ w ∷ bs) x more u valid e =
      let op : v ≡ 22 = cc in
      let code : w ≡ 200 = cc in cut_info p bs x more (rw (op, code) at u) valid (cc)
  parse-prefix (do_connect_result s) (v ∷ []) x more u valid e =
      let op : v ≡ 23 = cc in parse_alone PeerOperations.do_connect_result (rw op at u)
  parse-prefix (do_connect_result s) (v ∷ w ∷ bs) x more u valid e = absurd (no_room bs x more (cc))
  parse-prefix (ping_result h) (v ∷ []) x more u valid e =
      let op : v ≡ 24 = cc in parse_alone PeerOperations.ping_result (rw op at u)
  parse-prefix (ping_result h) (v ∷ w ∷ bs) x more u valid e = absurd (no_room bs x more (cc))
  parse-prefix (command sync) (v ∷ []) x more u valid e =
      let op : v ≡ 25 = cc in parse_alone PeerOperations.commands (rw op at u)
  parse-prefix (command sync) (v ∷ w ∷ bs) x more u valid e = absurd (no_room bs x more (cc))
  parse-prefix (command (doconnect (v4 i j k l))) (v ∷ []) x more u valid e =
      let op : v ≡ 25 = cc in parse_alone PeerOperations.commands (rw op at u)
  parse-prefix (command (doconnect (v4 i j k l))) (v ∷ w ∷ bs) x more u valid e =
      let op : v ≡ 25 = cc in
      let code : w ≡ 101 = cc in
      let left : i ∷ j ∷ k ∷ l ∷ [] ≡ bs ++ x ∷ more = cc in
      cut_ip bs (rw (op, code) at u) (omega (arith, ap length left, length-append bs (x ∷ more)))
  parse-prefix (command (doconnect (v6 is))) (v ∷ bs) x more u valid e = absurd valid

  -- On every proper prefix of a frame's bytes `parse` answers `Incomplete`, never another error and
  -- never a frame. This holds of every frame but the command to connect to a V6 address, where the
  -- octets of an address are bytes and a duration is one that Rust can hold.
  pub peer_parse_incomplete :
      (f : PeerFrames) (x : ℕ) (more : List ℕ)
      → IsPeerFrame f
      → to_be_bytes f ≡ unread c ++ x ∷ more
      → parse c ≡ err incomplete
  peer_parse_incomplete f x more valid e =
      parse-prefix f (unread c) x more refl valid (rw (to_be_bytes-wire f) at e)
