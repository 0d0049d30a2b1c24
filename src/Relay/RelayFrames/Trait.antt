-- ===== src/Relay/RelayFrames/Trait.antt =====
-- `impl Frame for RelayFrames`, with its laws.
use pcopy.Crates.Bytes.{Bytes}
use pcopy.Relay.Frame.{Frame, FrameLaws}
use pcopy.Relay.RelayOperations.{RelayOperations}
use pcopy.Relay.RelayFrames.{RelayFrames, IsRelayFrame, read_operation, parse, to_be_bytes}
use pcopy.Relay.RelayFrames.RoundTrip.{parse-to_be_bytes}
use pcopy.Relay.RelayFrames.Prefix.{parse_incomplete}
use pcopy.Relay.RelayFrames.Canonical.{parse-Returns}

module _ ⦃b : Bytes⦄ where
  abbrev pub relay_frame : Frame RelayFrames RelayOperations
  relay_frame = record { read_operation = read_operation; parse = parse; to_be_bytes = to_be_bytes }

  -- The reader gets the frame itself.
  pub relay_frame_laws : FrameLaws relay_frame IsRelayFrame (λ f. f)
  relay_frame_laws = record {
    parse-to_be_bytes = parse-to_be_bytes;
    parse_incomplete = parse_incomplete;
    parse-Returns = parse-Returns;
  }
