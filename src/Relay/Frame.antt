-- ===== src/Relay/Frame.antt =====
-- relay/frame.rs: the trait `Frame` of what is sent and read, with its laws.
use pcopy.Prelude.{ℕ, List, ◌≡◌, ◌∷◌, ◌++◌, length}
use pcopy.Prelude.Outcome.{Outcome, ok, err, Returns}
use pcopy.Rust.Cursor.{Cursor, unread, forward}
use pcopy.Relay.FrameError.{FrameError, incomplete}

-- A reading function returns what it read with the cursor that it leaves.
pub record Frame (F O : Type 0) : Type 0 where
  pub read_operation : Cursor → Outcome FrameError (O × Cursor)
  pub parse : Cursor → Outcome FrameError (F × Cursor)
  pub to_be_bytes : F → List ℕ

-- What a client of the trait may rely on. `IsValid` is a condition on frames that are sent, and
-- `received f` is what the reader gets of `f`.
pub record FrameLaws {F O : Type 0} (frame : Frame F O) (IsValid : F → Type 0) (received : F → F)
    : Type 0 where
  pub parse-to_be_bytes :
      (c : Cursor) (f : F) (rest : List ℕ)
      → IsValid f
      → unread c ≡ frame.to_be_bytes f ++ rest
      → frame.parse c ≡ ok (received f, forward c (length (frame.to_be_bytes f)))
  -- A part of a frame is read as such.
  pub parse_incomplete :
      (c : Cursor) (f : F) (x : ℕ) (more : List ℕ)
      → IsValid f
      → frame.to_be_bytes f ≡ unread c ++ x ∷ more
      → frame.parse c ≡ err incomplete
  pub parse-Returns : (c : Cursor) → Returns (frame.parse c)
