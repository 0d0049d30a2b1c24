-- ===== src/Relay/FrameHelper.antt =====
-- relay/framehelper.rs: frames over a stream.
pub mod Reading
pub mod Again
pub mod Closing
use pcopy.Prelude.{ℕ, List, [], ◌∷◌, ◌++◌, Option, none, some}
use pcopy.Prelude.Outcome.{Outcome, ok, err, panic, stuck}
use pcopy.Prelude.Exec.{Exec}
use pcopy.Rust.IoError.{IoError, connection_reset}
use pcopy.Rust.Cursor
use pcopy.Rust.Cursor.{Cursor}
use pcopy.Relay.FrameError.{FrameError, incomplete, into_io}
use pcopy.Relay.Stream.{Stream, Delivery, chunk, broken, write_all}
use pcopy.Relay.Frame.{Frame}

-- A connection's own buffer, and what its stream has yet to deliver.
pub record Inbox : Type 0 where
  pub buffer : List ℕ
  pub incoming : List Delivery

module _ {F O : Type 0} (frame : Frame F O) where
  -- The result of `parse`, without the cursor, which is dropped.
  unfoldable pub parsed : Outcome FrameError (F × Cursor) → Outcome IoError (Option F)
  parsed (ok (f, buf)) = ok (some f)
  parsed (err incomplete) = ok none
  parsed (err e) = err (into_io e)
  parsed panic = panic
  parsed stuck = stuck

  unfoldable pub parse_frame : List ℕ → Outcome IoError (Option F)
  unfolding parsed
  parse_frame buffer = parsed (frame.parse (Cursor.new buffer))

  -- `read_buf` returned 0: the remote side closed the stream.
  unfoldable pub closed : List ℕ → Outcome IoError (Option F)
  closed [] = ok none
  closed (x ∷ buffer) = err connection_reset

  -- A round of the loop: a frame, an error or a panic leaves it, and `more` is the rest of the round.
  unfoldable pub attempt :
      Outcome IoError (Option F)
      → Inbox
      → Outcome IoError (Option F) × Inbox
      → Outcome IoError (Option F) × Inbox
  attempt (ok none) inbox more = more
  attempt r inbox more = (r, inbox)

  -- The loop, over what the stream delivers. The buffer is parsed from its front and never advanced.
  unfoldable pub read_frame_given_stream :
      List ℕ → List Delivery → Outcome IoError (Option F) × Inbox
  unfolding closed attempt
  read_frame_given_stream buffer [] =
      let inbox : Inbox = record { buffer = buffer; incoming = [] } in
      attempt (parse_frame buffer) inbox (closed buffer, inbox)
  read_frame_given_stream buffer (broken e ∷ more) =
      attempt (parse_frame buffer) (record { buffer = buffer; incoming = broken e ∷ more })
        (err e, record { buffer = buffer; incoming = more })
  read_frame_given_stream buffer (chunk [] ∷ more) =
      attempt (parse_frame buffer) (record { buffer = buffer; incoming = chunk [] ∷ more })
        (closed buffer, record { buffer = buffer; incoming = more })
  read_frame_given_stream buffer (chunk (x ∷ bytes) ∷ more) =
      let rest = read_frame_given_stream (buffer ++ x ∷ bytes) more in
      attempt (parse_frame buffer) (record { buffer = buffer; incoming = chunk (x ∷ bytes) ∷ more })
        rest

  unfoldable pub write_frame_given_stream : F → Exec Stream IoError (Unit {0})
  write_frame_given_stream f = write_all (frame.to_be_bytes f)
