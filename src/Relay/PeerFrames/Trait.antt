-- ===== src/Relay/PeerFrames/Trait.antt =====
-- `impl Frame for PeerFrames`, with its laws.
use pcopy.Crates.Bytes.{Bytes}
use pcopy.Crates.ByteOrder.{ByteOrder}
use pcopy.Relay.Frame.{Frame, FrameLaws}
use pcopy.Relay.PeerOperations.{PeerOperations}
use pcopy.Relay.PeerFrames.{PeerFrames, IsPeerFrame, received, read_operation, parse, to_be_bytes}
use pcopy.Relay.PeerFrames.RoundTrip.{peer_parse-to_be_bytes}
use pcopy.Relay.PeerFrames.Prefix.{peer_parse_incomplete}
use pcopy.Relay.PeerFrames.Total.{peer_parse-Returns}

module _ ⦃b : Bytes⦄ ⦃order : ByteOrder⦄ where
  abbrev pub peer_frame : Frame PeerFrames PeerOperations
  peer_frame = record { read_operation = read_operation; parse = parse; to_be_bytes = to_be_bytes }

  pub peer_frame_laws : FrameLaws peer_frame IsPeerFrame received
  peer_frame_laws = record {
    parse-to_be_bytes = peer_parse-to_be_bytes;
    parse_incomplete = peer_parse_incomplete;
    parse-Returns = peer_parse-Returns;
  }
