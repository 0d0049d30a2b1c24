-- ===== src/Relay/Sender/Outcomes.antt =====
-- How `connect_to_peer` ends.
use pcopy.Prelude.{ℕ, zero, suc, ◌≡◌, ◌≢◌, refl, ◌⊎◌, inl, inr, [], Option, none, some, List, ◌++◌}
use pcopy.Prelude.Outcome.{Outcome, ok, err, stuck}
use pcopy.Prelude.Exec.{>>=-eq-ok, >>=-err, >>=-stuck}
use pcopy.Rust.IoError.{IoError, invalid_data, other}
use pcopy.Rust.Cursor.{new, unread-new}
use pcopy.Crates.Bytes.{Bytes}
use pcopy.Crates.ByteOrder.{ByteOrder}
use pcopy.Relay.PeerId.{PeerId}
use pcopy.Relay.StatusCodes.{success, failure, StatusCodes}
use pcopy.Relay.RelayFrames.{RelayFrames, register, probe}
use pcopy.Relay.PeerFrames.{PeerFrames, register_result, received}
use pcopy.Relay.PeerFrames.Trait.{peer_frame, peer_frame_laws}
use pcopy.Relay.PeerFrames.Reading.{parse-nil}
use pcopy.Relay.Stream.{Stream, write_all, Delivery}
use pcopy.Relay.FrameHelper.{
  Inbox, parse_frame, read_frame_given_stream, write_frame_given_stream, attempt,
}
use pcopy.Relay.FrameHelper.Reading.{read-parsed, deliveries, delivered, read_all}
use pcopy.Relay.FrameHelper.Again.{still_there}
use pcopy.Relay.Connection.{Connection, peer_read, peer_write, new as fresh}
use pcopy.Relay.Sender.{Host, on_register, on_probe, wait_registered, wait_probed, connect_to_peer}
use pcopy.Relay.PeerInfo.{PeerInfo}
use pcopy.Relay.Connection.Exchange.{quiet}
use pcopy.Relay.RelayFrames.Trait.{relay_frame}

abbrev registered : Outcome IoError (Option PeerFrames)
registered = ok (some (register_result success))

on_register_ok :
    (r : Outcome IoError (Option PeerFrames)) (more : Outcome IoError (Unit {0}) × Connection)
    (c : Connection)
    → (on_register r more c).0 ≡ ok tt
    → ((r ≡ registered) × (on_register r more c ≡ (ok tt, c))) ⊎ (on_register r more c ≡ more)
unfolding on_register
on_register_ok (ok (some (register_result success))) more c e = inl (refl, refl)
on_register_ok (ok none) more c e = inr refl
on_register_ok _ more c e = cc

module _ ⦃b : Bytes⦄ ⦃order : ByteOrder⦄ where
  -- The connection still holds the relay's answer to Register.
  abbrev HoldsAnswer : Connection → Type 0
  HoldsAnswer c = parse_frame peer_frame c.buffer ≡ registered

  peer_read-HoldsAnswer :
      (c : Connection) → (peer_read c).0 ≡ registered → HoldsAnswer (peer_read c).1
  unfolding peer_read
  peer_read-HoldsAnswer c e =
      let after : Inbox = (read_frame_given_stream peer_frame c.buffer c.stream.incoming).1 in
      still_there peer_frame c.buffer c.stream.incoming (register_result success) after
        (λ i. (e i, after))

  wait_registered-HoldsAnswer :
      (fuel : ℕ) (c : Connection)
      → (wait_registered fuel c).0 ≡ ok tt
      → HoldsAnswer (wait_registered fuel c).1
  unfolding wait_registered
  wait_registered-HoldsAnswer zero c e = cc
  wait_registered-HoldsAnswer (suc fuel) c e =
      elim (on_register_ok (peer_read c).0 (wait_registered fuel (peer_read c).1) (peer_read c).1
        e) [
          | inl (r, stop) ↦ rw stop (peer_read-HoldsAnswer c r)
          | inr go ↦ rw go (wait_registered-HoldsAnswer fuel (peer_read c).1 (rw go at e))
        ]

  peer_write-HoldsAnswer :
      (f : RelayFrames) (c : Connection) → HoldsAnswer c → HoldsAnswer (peer_write f c).1
  unfolding peer_write
  peer_write-HoldsAnswer f c h = h

  wait_probed-HoldsAnswer :
      (fuel : ℕ) (c : Connection) → HoldsAnswer c → (wait_probed (suc fuel) c).0 ≡ err invalid_data
  unfolding wait_probed peer_read
  wait_probed-HoldsAnswer fuel c h =
      rw (read-parsed peer_frame c.buffer c.stream.incoming (register_result success) h, on_probe)

  probed-ne-ok :
      (fuel : ℕ) (c : Connection) (info : PeerInfo)
      → HoldsAnswer c
      → (wait_probed fuel c).0 ≢ ok info
  probed-ne-ok zero c info h e = unfold wait_probed in cc
  probed-ne-ok (suc fuel) c info h e = cc (e, wait_probed-HoldsAnswer fuel c h)

  module _ {E : Type 0} (host : Host E) (source destination : PeerId) where
    -- `connect_to_peer` never returns a stream, whatever the relay and the network do, whatever the host
    -- answers and however long it waits.
    pub connect_to_peer-ne-ok :
        (fuel : ℕ) (c : Connection) (s : Stream)
        → (connect_to_peer host fuel source destination c).0 ≢ ok s
    unfolding connect_to_peer
    connect_to_peer-ne-ok fuel c s e =
        let (_, _, after_write) = >>=-eq-ok (peer_write (register source)) _ c e in
        let c1 = (peer_write (register source) c).1 in
        let (_, waited, after_wait) = >>=-eq-ok (wait_registered fuel) _ c1 after_write in
        let c2 = (wait_registered fuel c1).1 in
        let (_, _, after_probe) = >>=-eq-ok (peer_write (probe destination)) _ c2 after_wait in
        let c3 = (peer_write (probe destination) c2).1 in
        let (info, probed, _) = >>=-eq-ok (wait_probed fuel) _ c3 after_probe in
        probed-ne-ok fuel c3 info
          (peer_write-HoldsAnswer (probe destination) c2
            (wait_registered-HoldsAnswer fuel c1 waited))
          probed

  peer_write-ok :
      (f : RelayFrames) (c : Connection) → c.stream.sendings ≡ [] → (peer_write f c).0 ≡ ok tt
  unfolding peer_write write_frame_given_stream write_all
  peer_write-ok f c e = rw e

  sendings-peer_read : (c : Connection) → (peer_read c).1.stream.sendings ≡ c.stream.sendings
  unfolding peer_read
  sendings-peer_read c = refl

  registering :
      (f : RelayFrames) (incoming : List Delivery)
      → peer_write f (fresh (quiet incoming)) ≡ (
        ok tt,
        record {
          stream = record {
            incoming = incoming;
            sendings = [];
            outgoing = relay_frame.to_be_bytes f;
          };
          buffer = [];
        },
      )
  unfolding peer_write write_frame_given_stream write_all fresh
  registering f incoming = refl

  -- A connection that the first answer of the relay reaches in chunks, behind what was sent.
  module _ (status : StatusCodes) (cs : List (ℕ × List ℕ)) (later : List Delivery)
      (out : List ℕ) where
    abbrev answered : Connection
    answered = record {
      stream = record { incoming = deliveries cs later; sendings = []; outgoing = out };
      buffer = [];
    }

    peer_read-answered :
        (rest : List ℕ)
        → delivered cs ≡ peer_frame.to_be_bytes (register_result status) ++ rest
        → (peer_read answered).0 ≡ ok (some (register_result status))
    unfolding peer_read received
    peer_read-answered rest bytes =
        let (r, left, result, same) =
          read_all peer_frame peer_frame_laws cs later [] (register_result status) rest tt bytes in
        rw result

  accepted :
      (cs : List (ℕ × List ℕ)) (rest : List ℕ) (later : List Delivery) (out : List ℕ) (fuel : ℕ)
      → delivered cs ≡ peer_frame.to_be_bytes (register_result success) ++ rest
      → wait_registered (suc fuel) (answered success cs later out)
        ≡ (ok tt, (peer_read (answered success cs later out)).1)
  unfolding wait_registered
  accepted cs rest later out fuel bytes =
      rw (peer_read-answered success cs later out rest bytes, on_register)

  refused :
      (cs : List (ℕ × List ℕ)) (rest : List ℕ) (later : List Delivery) (out : List ℕ) (fuel : ℕ)
      → delivered cs ≡ peer_frame.to_be_bytes (register_result failure) ++ rest
      → (wait_registered (suc fuel) (answered failure cs later out)).0 ≡ err other
  unfolding wait_registered
  refused cs rest later out fuel bytes =
      rw (peer_read-answered failure cs later out rest bytes, on_register)

  -- What the caller gets by the relay's answer to Register.
  abbrev pub verdict : StatusCodes → IoError
  verdict success = invalid_data
  verdict failure = other

  module _ {E : Type 0} (host : Host E) (source destination : PeerId) (fuel : ℕ)
      (cs : List (ℕ × List ℕ)) (rest : List ℕ) (later : List Delivery) where
    -- A relay that accepts the registration makes `connect_to_peer` fail with `InvalidData`, since the
    -- answer to Register is read once more as the answer to Probe; a relay that refuses makes it fail
    -- with `Other`. This holds on a fresh connection where writing works, with the answer cut into
    -- chunks in any way and followed by anything, and for every number of rounds from one on.
    pub connect_to_peer_answered :
        (status : StatusCodes)
        → delivered cs ≡ peer_frame.to_be_bytes (register_result status) ++ rest
        → (connect_to_peer host
            (suc fuel)
            source
            destination
            (fresh (quiet (deliveries cs later)))).0
          ≡ err (verdict status)
    unfolding connect_to_peer
    connect_to_peer_answered success bytes =
        let out = relay_frame.to_be_bytes (register source) in
        let c = (peer_read (answered success cs later out)).1 in
        let holds : HoldsAnswer c =
          peer_read-HoldsAnswer (answered success cs later out)
            (peer_read-answered success cs later out rest bytes) in
        rw (
          registering (register source) (deliveries cs later),
          accepted cs rest later out fuel bytes,
          peer_write-ok (probe destination) c (sendings-peer_read (answered success cs later out)),
          wait_probed-HoldsAnswer fuel (peer_write (probe destination) c).1
              (peer_write-HoldsAnswer (probe destination) c holds),
        )
    connect_to_peer_answered failure bytes =
        rw (registering (register source) (deliveries cs later))
          (>>=-err (wait_registered (suc fuel)) _ _ (refused cs rest later _ fuel bytes))

  -- A connection that the relay has closed without an answer.
  abbrev hung_up : List ℕ → Connection
  hung_up out = record {
    stream = record { incoming = []; sendings = []; outgoing = out };
    buffer = [];
  }

  peer_read-hung_up : (out : List ℕ) → peer_read (hung_up out) ≡ (ok none, hung_up out)
  unfolding peer_read read_frame_given_stream parse_frame
  peer_read-hung_up out = rw (parse-nil (new []) (unread-new []), attempt)

  wait_registered-hung_up :
      (fuel : ℕ) (out : List ℕ) → (wait_registered fuel (hung_up out)).0 ≡ stuck
  unfolding wait_registered
  wait_registered-hung_up zero out = refl
  wait_registered-hung_up (suc fuel) out =
      rw (peer_read-hung_up out, on_register) (wait_registered-hung_up fuel out)

  -- If the relay closes the connection without an answer, `connect_to_peer` never comes back: no number
  -- of rounds of its loop is enough, on a fresh connection where writing works.
  pub connect_to_peer_hangs :
      {E : Type 0} (host : Host E) (source destination : PeerId) (fuel : ℕ)
      → (connect_to_peer host fuel source destination (fresh (quiet []))).0 ≡ stuck
  unfolding connect_to_peer
  connect_to_peer_hangs host source destination fuel =
      rw (registering (register source) [])
        (>>=-stuck (wait_registered fuel) _ _ (wait_registered-hung_up fuel _))
