-- ===== src/Relay/FrameHelper/Reading.antt =====
-- What `read_frame_given_stream` makes of a stream, for every frame type that has the trait's laws.
use pcopy.Prelude.{
  ℕ, ◌≡◌, sym, ◌∙◌, List, [], ◌∷◌, ◌++◌, append_assoc, append-nil, append_overlap, inl, inr, none,
  some,
}
use pcopy.Prelude.Outcome.{ok}
use pcopy.Rust.Cursor.{new, unread-new}
use pcopy.Relay.Stream.{Delivery, chunk, broken}
use pcopy.Relay.Frame.{Frame, FrameLaws}
use pcopy.Relay.FrameHelper.{parse_frame, attempt, read_frame_given_stream}

-- Chunks that are not empty, as deliveries in front of others, and the bytes in them.
abbrev pub deliveries : List (ℕ × List ℕ) → List Delivery → List Delivery
deliveries [] later = later
deliveries ((x, bytes) ∷ cs) later = chunk (x ∷ bytes) ∷ deliveries cs later

abbrev pub delivered : List (ℕ × List ℕ) → List ℕ
delivered [] = []
delivered ((x, bytes) ∷ cs) = (x ∷ bytes) ++ delivered cs

module _ {F O : Type 0} (frame : Frame F O) where
  -- A frame that the buffer begins with is returned before the stream is asked, and nothing changes.
  pub read-parsed :
      (buffer : List ℕ) (incoming : List Delivery) (f : F)
      → parse_frame frame buffer ≡ ok (some f)
      → read_frame_given_stream frame buffer incoming
        ≡ (ok (some f), record { buffer = buffer; incoming = incoming })
  unfolding read_frame_given_stream
  read-parsed buffer [] f e = rw (e, attempt)
  read-parsed buffer (broken io ∷ more) f e = rw (e, attempt)
  read-parsed buffer (chunk [] ∷ more) f e = rw (e, attempt)
  read-parsed buffer (chunk (x ∷ bytes) ∷ more) f e = rw (e, attempt)

  pub read-more :
      (buffer : List ℕ) (x : ℕ) (bytes : List ℕ) (more : List Delivery)
      → parse_frame frame buffer ≡ ok none
      → read_frame_given_stream frame buffer (chunk (x ∷ bytes) ∷ more)
        ≡ read_frame_given_stream frame (buffer ++ x ∷ bytes) more
  unfolding read_frame_given_stream
  read-more buffer x bytes more e = rw (e, attempt)

module _ {F O : Type 0} (frame : Frame F O) {IsValid : F → Type 0} {received : F → F}
    (laws : FrameLaws frame IsValid received) where
  pub parse_frame-whole :
      (f : F) (buffer rest : List ℕ)
      → IsValid f
      → buffer ≡ frame.to_be_bytes f ++ rest
      → parse_frame frame buffer ≡ ok (some (received f))
  unfolding parse_frame
  parse_frame-whole f buffer rest v e =
      rw (laws.parse-to_be_bytes (new buffer) f rest v (unread-new buffer ∙ e))

  pub parse_frame-part :
      (f : F) (buffer : List ℕ) (x : ℕ) (more : List ℕ)
      → IsValid f
      → frame.to_be_bytes f ≡ buffer ++ x ∷ more
      → parse_frame frame buffer ≡ ok none
  unfolding parse_frame
  parse_frame-part f buffer x more v e =
      rw (laws.parse_incomplete (new buffer) f x more v (rw (unread-new buffer) e))

  -- However the network cuts the bytes of a frame into chunks, and whatever comes behind them, a read
  -- returns what the frame is for its reader. No byte is lost: the buffer is left with the frame's
  -- bytes still in front and then `r`, and `r` with the chunks that are left is what follows the
  -- frame. This holds of frames that can be sent.
  pub read_all :
      (cs : List (ℕ × List ℕ)) (later : List Delivery) (buffer : List ℕ) (f : F) (rest : List ℕ)
      → IsValid f
      → buffer ++ delivered cs ≡ frame.to_be_bytes f ++ rest
      → (r : List ℕ) × (left : List (ℕ × List ℕ)) × (read_frame_given_stream frame buffer
            (deliveries cs later)
          ≡ (
            ok (some (received f)),
            record { buffer = frame.to_be_bytes f ++ r; incoming = deliveries left later },
          ))
        × (r ++ delivered left ≡ rest)
  read_all [] later buffer f rest v e =
      let whole : buffer ≡ frame.to_be_bytes f ++ rest = sym (append-nil buffer) ∙ e in
      (
        rest,
        [],
        read-parsed frame buffer later (received f) (parse_frame-whole f buffer rest v whole)
            ∙ rw whole,
        append-nil rest,
      )
  read_all ((x, bytes) ∷ cs) later buffer f rest v e =
      elim (append_overlap buffer _ (frame.to_be_bytes f) rest e) [
        | inl (r, whole, same) ↦ (
          r,
          (x, bytes) ∷ cs,
          read-parsed frame buffer _ (received f) (parse_frame-whole f buffer r v whole) ∙ rw whole,
          same,
        )
        | inr (y, more, part, same) ↦
            rw
              (read-more frame buffer x bytes (deliveries cs later)
                (parse_frame-part f buffer y more v part))
              (read_all cs later (buffer ++ x ∷ bytes) f rest v
                (append_assoc buffer (x ∷ bytes) (delivered cs) ∙ e))
      ]
