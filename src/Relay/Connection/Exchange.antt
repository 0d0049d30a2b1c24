-- ===== src/Relay/Connection/Exchange.antt =====
-- What one side of a connection writes, the other side reads.
use pcopy.Prelude.{ℕ, ◌≡◌, List, [], append-nil, some, ◌∙◌, sym}
use pcopy.Prelude.Outcome.{ok}
use pcopy.Crates.Bytes.{Bytes}
use pcopy.Crates.ByteOrder.{ByteOrder}
use pcopy.Relay.Stream.{Stream, Delivery, write_all}
use pcopy.Relay.Frame.{Frame, FrameLaws}
use pcopy.Relay.FrameHelper.{write_frame_given_stream}
use pcopy.Relay.FrameHelper.Reading.{deliveries, delivered, read_all}
use pcopy.Relay.Connection.{
  new, read_frame, write_frame, peer_write, relay_read, relay_write, peer_read,
}
use pcopy.Relay.RelayFrames.{RelayFrames, IsRelayFrame}
use pcopy.Relay.RelayFrames.Trait.{relay_frame, relay_frame_laws}
use pcopy.Relay.PeerFrames.{PeerFrames, IsPeerFrame, received}
use pcopy.Relay.PeerFrames.Trait.{peer_frame, peer_frame_laws}

-- A stream on which nothing went wrong and nothing was sent yet.
abbrev pub quiet : List Delivery → Stream
quiet incoming = record { incoming = incoming; sendings = []; outgoing = [] }

module _ {F O : Type 0} (frame : Frame F O) {IsValid : F → Type 0} {received : F → F}
    (laws : FrameLaws frame IsValid received) where
  exchange :
      (f : F) (cs : List (ℕ × List ℕ)) (incoming later : List Delivery)
      → IsValid f
      → delivered cs ≡ (write_frame frame f (new (quiet incoming))).1.stream.outgoing
      → (read_frame frame (new (quiet (deliveries cs later)))).0 ≡ ok (some (received f))
  unfolding read_frame write_frame write_frame_given_stream write_all new
  exchange f cs incoming later v e =
      let (r, left, result, same) =
        read_all frame laws cs later [] f [] v (e ∙ sym (append-nil (frame.to_be_bytes f))) in
      rw result

-- What a peer writes on a fresh connection, the relay reads, however the network cuts it into chunks
-- and whatever is delivered later; an identifier in the frame has 64 bytes.
pub relay_read-peer_write :
    ⦃b : Bytes⦄ (f : RelayFrames) (cs : List (ℕ × List ℕ)) (incoming later : List Delivery)
    → IsRelayFrame f
    → delivered cs ≡ (peer_write f (new (quiet incoming))).1.stream.outgoing
    → (relay_read (new (quiet (deliveries cs later)))).0 ≡ ok (some f)
unfolding relay_read peer_write
relay_read-peer_write f cs incoming later v e =
    exchange relay_frame relay_frame_laws f cs incoming later v e

-- What the relay writes on a fresh connection, the peer reads as `received`, however the network cuts
-- it into chunks and whatever is delivered later. The frame is not the command to connect to a V6
-- address, the octets of an address are bytes and a duration is one that Rust can hold.
pub peer_read-relay_write :
    ⦃b : Bytes⦄ ⦃order : ByteOrder⦄ (f : PeerFrames) (cs : List (ℕ × List ℕ))
    (incoming later : List Delivery)
    → IsPeerFrame f
    → delivered cs ≡ (relay_write f (new (quiet incoming))).1.stream.outgoing
    → (peer_read (new (quiet (deliveries cs later)))).0 ≡ ok (some (received f))
unfolding peer_read relay_write
peer_read-relay_write f cs incoming later v e =
    exchange peer_frame peer_frame_laws f cs incoming later v e
