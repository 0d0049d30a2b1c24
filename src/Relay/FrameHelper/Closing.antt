-- ===== src/Relay/FrameHelper/Closing.antt =====
-- Reads that find no whole frame: the stream ends, or the bytes are no frame.
use pcopy.Prelude.{ℕ, List, [], ◌∷◌, ◌++◌, Option, none, some}
use pcopy.Prelude.Outcome.{Outcome, ok, err, panic, stuck, Returns}
use pcopy.Rust.IoError.{IoError}
use pcopy.Rust.Cursor.{Cursor, new}
use pcopy.Relay.FrameError.{FrameError, incomplete, other}
use pcopy.Relay.Stream.{Delivery, chunk, broken}
use pcopy.Relay.Frame.{Frame, FrameLaws}
use pcopy.Relay.FrameHelper.{Inbox, parsed, parse_frame, closed, attempt, read_frame_given_stream}

module _ {F O : Type 0} (frame : Frame F O) {IsValid : F → Type 0} {received : F → F}
    (laws : FrameLaws frame IsValid received) where
  attempt-Returns :
      (r : Outcome IoError (Option F)) (inbox : Inbox) (more : Outcome IoError (Option F) × Inbox)
      → Returns r
      → Returns more.0
      → Returns (attempt frame r inbox more).0
  unfolding attempt
  attempt-Returns (ok none) inbox more h k = k
  attempt-Returns (ok (some f)) inbox more h k = tt
  attempt-Returns (err e) inbox more h k = tt
  attempt-Returns panic inbox more h k = h
  attempt-Returns stuck inbox more h k = h

  parsed-Returns : (r : Outcome FrameError (F × Cursor)) → Returns r → Returns (parsed frame r)
  unfolding parsed
  parsed-Returns (ok (f, c)) h = tt
  parsed-Returns (err incomplete) h = tt
  parsed-Returns (err (other e)) h = tt
  parsed-Returns panic h = h
  parsed-Returns stuck h = h

  parse_frame-Returns : (buffer : List ℕ) → Returns (parse_frame frame buffer)
  unfolding parse_frame
  parse_frame-Returns buffer = parsed-Returns _ (laws.parse-Returns (new buffer))

  closed-Returns : (buffer : List ℕ) → Returns (closed frame buffer)
  unfolding closed
  closed-Returns [] = tt
  closed-Returns (x ∷ buffer) = tt

  -- Once the network has delivered what it will deliver, a read comes back with a frame, with the end
  -- of the stream or with an error: it does not panic, whatever the bytes are.
  pub read-Returns :
      (buffer : List ℕ) (incoming : List Delivery)
      → Returns (read_frame_given_stream frame buffer incoming).0
  unfolding read_frame_given_stream
  read-Returns buffer [] =
      attempt-Returns _ _ _ (parse_frame-Returns buffer) (closed-Returns buffer)
  read-Returns buffer (broken e ∷ more) = attempt-Returns _ _ _ (parse_frame-Returns buffer) tt
  read-Returns buffer (chunk [] ∷ more) =
      attempt-Returns _ _ _ (parse_frame-Returns buffer) (closed-Returns buffer)
  read-Returns buffer (chunk (x ∷ bytes) ∷ more) =
      attempt-Returns _ _ _ (parse_frame-Returns buffer) (read-Returns (buffer ++ x ∷ bytes) more)
