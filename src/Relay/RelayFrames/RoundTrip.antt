-- ===== src/Relay/RelayFrames/RoundTrip.antt =====
-- `RelayFrames::parse` reads back what `to_be_bytes` writes, and nothing else.
use pcopy.Prelude.{ℕ, suc, ◌∷◌, ◌≡◌, List, ◌++◌, length}
use pcopy.Prelude.Outcome.{ok}
use pcopy.Rust.Cursor.{Cursor, unread, forward, unread-step, forward-forward}
use pcopy.Crates.Bytes.{Bytes}
use pcopy.Relay.PeerId
use pcopy.Relay.PeerId.{PeerId, IsPeerId}
use pcopy.Relay.PeerId.Reading.{try_from-bytes}
use pcopy.Relay.RelayOperations
use pcopy.Relay.RelayOperations.{RelayOperations}
use pcopy.Relay.RelayFrames.{
  RelayFrames, IsRelayFrame, register, probe, do_connect, ping, probe_ack, parse_body, parse,
  to_be_bytes,
}
use pcopy.Relay.RelayFrames.Reading.{wire, to_be_bytes-wire, parse-cons}

module _ ⦃b : Bytes⦄ (c : Cursor) where
  read_id :
      (v : ℕ) (p : PeerId) (rest : List ℕ)
      → IsPeerId p
      → unread c ≡ v ∷ p.bytes ++ rest
      → PeerId.try_from (forward c 1) ≡ ok (p, forward c (suc (length p.bytes)))
  read_id v p rest h e =
      rw (try_from-bytes (forward c 1) p rest h (unread-step c v _ e), forward-forward c 1 64, h)

  parse-wire :
      (f : RelayFrames) (rest : List ℕ)
      → IsRelayFrame f
      → unread c ≡ wire f ++ rest
      → parse c ≡ ok (f, forward c (length (wire f)))
  unfolding RelayOperations.try_from parse_body
  parse-wire (register p) rest v e = rw (parse-cons c 1 _ e, read_id 1 p rest v e)
  parse-wire (probe p) rest v e = rw (parse-cons c 2 _ e, read_id 2 p rest v e)
  parse-wire (do_connect p) rest v e = rw (parse-cons c 3 _ e, read_id 3 p rest v e)
  parse-wire ping rest v e = rw (parse-cons c 4 rest e)
  parse-wire probe_ack rest v e = rw (parse-cons c 5 rest e)

  -- A frame that `to_be_bytes` wrote is read back by `parse`, whatever follows it, and the cursor
  -- steps over exactly its bytes; the identifier in it has 64 bytes.
  pub parse-to_be_bytes :
      (f : RelayFrames) (rest : List ℕ)
      → IsRelayFrame f
      → unread c ≡ to_be_bytes f ++ rest
      → parse c ≡ ok (f, forward c (length (to_be_bytes f)))
  parse-to_be_bytes f rest v e =
      rw to_be_bytes-wire (parse-wire f rest v (rw (to_be_bytes-wire f) at e))
