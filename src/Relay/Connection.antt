-- ===== src/Relay/Connection.antt =====
-- relay/connection.rs: a stream with the buffer of what was read from it. The relay's side reads
-- `RelayFrames` and writes `PeerFrames`, the peer's side the other way round.
pub mod Exchange
use pcopy.Prelude.{ℕ, List, [], Option}
use pcopy.Prelude.Exec.{Exec}
use pcopy.Rust.IoError.{IoError}
use pcopy.Crates.Bytes.{Bytes}
use pcopy.Crates.ByteOrder.{ByteOrder}
use pcopy.Relay.Stream.{Stream}
use pcopy.Relay.Frame.{Frame}
use pcopy.Relay.RelayFrames.{RelayFrames}
use pcopy.Relay.RelayFrames.Trait.{relay_frame}
use pcopy.Relay.PeerFrames.{PeerFrames}
use pcopy.Relay.PeerFrames.Trait.{peer_frame}
use pcopy.Relay.FrameHelper.{read_frame_given_stream, write_frame_given_stream}

pub record Connection : Type 0 where
  pub stream : Stream
  pub buffer : List ℕ

unfoldable pub new : Stream → Connection
new socket = record { stream = socket; buffer = [] }

module _ {F O : Type 0} (frame : Frame F O) where
  unfoldable pub read_frame : Exec Connection IoError (Option F)
  read_frame c =
      let (r, inbox) = read_frame_given_stream frame c.buffer c.stream.incoming in
      (
        r,
        record { stream = record (c.stream) { incoming = inbox.incoming }; buffer = inbox.buffer },
      )

  unfoldable pub write_frame : F → Exec Connection IoError (Unit {0})
  write_frame f c =
      let (r, s) = write_frame_given_stream frame f c.stream in (r, record c { stream = s })

module _ ⦃b : Bytes⦄ where
  -- `RelayConnection::read_frame` and `PeerConnection::write_frame`
  unfoldable pub relay_read : Exec Connection IoError (Option RelayFrames)
  unfolding read_frame
  relay_read = read_frame relay_frame

  unfoldable pub peer_write : RelayFrames → Exec Connection IoError (Unit {0})
  unfolding write_frame
  peer_write = write_frame relay_frame

module _ ⦃b : Bytes⦄ ⦃order : ByteOrder⦄ where
  -- `PeerConnection::read_frame` and `RelayConnection::write_frame`
  unfoldable pub peer_read : Exec Connection IoError (Option PeerFrames)
  unfolding read_frame
  peer_read = read_frame peer_frame

  unfoldable pub relay_write : PeerFrames → Exec Connection IoError (Unit {0})
  unfolding write_frame
  relay_write = write_frame peer_frame
