-- ===== src/Relay/FrameHelper/Again.antt =====
-- What a second read finds: the buffer of a connection is never advanced past a frame.
use pcopy.Prelude.{ℕ, ◌≡◌, List, [], ◌∷◌, ◌++◌, ◌⊎◌, inl, inr, Option, none, some}
use pcopy.Prelude.Outcome.{Outcome, ok, err, panic, stuck}
use pcopy.Rust.IoError.{IoError}
use pcopy.Relay.Stream.{Delivery, chunk, broken}
use pcopy.Relay.Frame.{Frame}
use pcopy.Relay.FrameHelper.{Inbox, parse_frame, closed, attempt, read_frame_given_stream}
use pcopy.Relay.FrameHelper.Reading.{read-parsed}

module _ {F O : Type 0} (frame : Frame F O) where
  attempt_returned :
      (r : Outcome IoError (Option F)) (inbox : Inbox) (more : Outcome IoError (Option F) × Inbox)
      (g : F) (after : Inbox)
      → attempt frame r inbox more ≡ (ok (some g), after)
      → ((r ≡ ok (some g)) × (inbox ≡ after)) ⊎ (more ≡ (ok (some g), after))
  unfolding attempt
  attempt_returned (ok none) inbox more g after e = inr e
  attempt_returned (ok (some f)) inbox more g after e = inl (cc, cc)
  attempt_returned (err x) inbox more g after e = cc
  attempt_returned panic inbox more g after e = cc
  attempt_returned stuck inbox more g after e = cc

  closed-ne-frame :
      (buffer : List ℕ) (inbox : Inbox) (g : F) (after : Inbox)
      → ◌≡◌ {A = Outcome IoError (Option F) × Inbox}
          (closed frame buffer, inbox)
          (ok (some g), after)
      → ⊥
  unfolding closed
  closed-ne-frame [] inbox g after e = cc
  closed-ne-frame (x ∷ buffer) inbox g after e = cc

  pub still_there :
      (buffer : List ℕ) (incoming : List Delivery) (g : F) (after : Inbox)
      → read_frame_given_stream frame buffer incoming ≡ (ok (some g), after)
      → parse_frame frame after.buffer ≡ ok (some g)
  unfolding read_frame_given_stream
  still_there buffer [] g after e =
      elim (attempt_returned (parse_frame frame buffer) _ _ g after e) [
        | inl (found, same) ↦ rw (← same) found
        | inr end ↦ absurd (closed-ne-frame buffer _ g after end)
      ]
  still_there buffer (broken io ∷ more) g after e =
      elim (attempt_returned (parse_frame frame buffer) _ _ g after e) [
        | inl (found, same) ↦ rw (← same) found
        | inr end ↦ cc
      ]
  still_there buffer (chunk [] ∷ more) g after e =
      elim (attempt_returned (parse_frame frame buffer) _ _ g after e) [
        | inl (found, same) ↦ rw (← same) found
        | inr end ↦ absurd (closed-ne-frame buffer _ g after end)
      ]
  still_there buffer (chunk (x ∷ bytes) ∷ more) g after e =
      elim (attempt_returned (parse_frame frame buffer) _ _ g after e) [
        | inl (found, same) ↦ rw (← same) found
        | inr rest ↦ still_there (buffer ++ x ∷ bytes) more g after rest
      ]

  -- Once a read has returned a frame, every later read on the connection returns that frame again,
  -- whatever the stream has delivered or will deliver, and changes nothing: the bytes of a frame that
  -- was returned stay in front of the buffer.
  pub read_again :
      (buffer : List ℕ) (incoming later : List Delivery) (g : F) (after : Inbox)
      → read_frame_given_stream frame buffer incoming ≡ (ok (some g), after)
      → read_frame_given_stream frame after.buffer later
        ≡ (ok (some g), record { buffer = after.buffer; incoming = later })
  read_again buffer incoming later g after e =
      read-parsed frame after.buffer later g (still_there buffer incoming g after e)
