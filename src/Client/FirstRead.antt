-- ===== src/Client/FirstRead.antt =====
-- What the client reads first, behind the header in the buffer.
use pcopy.Prelude.{
  ℕ, ◌+◌, ◌-◌, ◌≤◌, ◌<◌, ◌≡◌, ◌∙◌, refl, sym, ap, arith, min, List, [], ◌∷◌, ◌++◌, length, drop,
  replicate, length-append, length-replicate, take-append, false, ltb_of_le, ◌==◌, inl, inr,
  Bool-cases, ltb,
}
use mathlib.Core.Path.{ap₂}
use pcopy.Prelude.Outcome.{ok}
use pcopy.Crates.Crc32.{Crc32}
use pcopy.Relay.Stream
use pcopy.Relay.Stream.{Stream, Delivery, chunk}
use pcopy.Relay.FrameHelper.Reading.{deliveries, delivered}
use pcopy.Server.Reader.{tcp_read, overwrite, left_over}
use pcopy.Server.Arrival.{Taken, tcp_read-Taken, length-overwrite}
use pcopy.Client.{resize, write_all, buf_slice, set_buf, send_first}
use pcopy.Client.Whole.{slice_behind, slice_front}
use pcopy.Client.Rest.{uploading, read_file_at}

-- The first read, which brings what fits behind the header.
pub record FirstRead (front : List ℕ) (cs : List (ℕ × List ℕ)) : Type 0 where
  pub got : List ℕ
  pub behind : List ℕ
  pub left : List (ℕ × List ℕ)
  pub split : got ++ delivered left ≡ delivered cs
  pub same_length : length (front ++ (got ++ behind)) ≡ 1024
  pub read :
      tcp_read (deliveries cs []) (front ++ replicate (1024 - length front) 0) (length front)
      ≡ ok (length got, front ++ (got ++ behind), deliveries left [])

module _ (front : List ℕ) (low : length front ≤ 1024) where
  abbrev padded_front : List ℕ
  padded_front = front ++ replicate (1024 - length front) 0

  length-padded_front : length padded_front ≡ 1024
  length-padded_front = omega (
    arith,
    length-append front (replicate (1024 - length front) 0),
    length-replicate {A = ℕ} (1024 - length front) 0,
  )

  overwrite_front :
      (got : List ℕ)
      → overwrite padded_front (length front) got
        ≡ front ++ (got ++ drop (length front + length got) padded_front)
  unfolding overwrite
  overwrite_front got =
      rw (take-append (length front) front (replicate (1024 - length front) 0) refl)

  length-overwrite_front :
      (got : List ℕ)
      → length front + length got ≤ length padded_front
      → length (front ++ (got ++ drop (length front + length got) padded_front)) ≡ 1024
  length-overwrite_front got room =
      ap length (sym (overwrite_front got))
      ∙ length-overwrite padded_front (length front) got room
      ∙ length-padded_front

  read_no_room :
      (x : ℕ) (bytes : List ℕ) (more : List Delivery)
      → length front ≡ 1024
      → tcp_read (chunk (x ∷ bytes) ∷ more) padded_front (length front)
        ≡ ok (0, overwrite padded_front (length front) [], chunk (x ∷ bytes) ∷ more)
  unfolding tcp_read left_over
  read_no_room x bytes more full =
      let none_fits : min (length (x ∷ bytes)) (length padded_front - length front) ≡ 0 =
        omega (arith, length-padded_front) in
      let longer : (length (x ∷ bytes) == 0) ≡ false = ground arith in
      rw (
        ltb_of_le (length padded_front) (length front) (omega (arith, length-padded_front)),
        none_fits,
        longer,
      )

  -- The buffer has room behind the header: a part of the first piece comes in.
  read_behind_front :
      (x : ℕ) (bytes : List ℕ) (cs : List (ℕ × List ℕ))
      → length front < 1024
      → FirstRead front ((x, bytes) ∷ cs)
  read_behind_front x bytes cs space =
      let t : Taken padded_front (length front) ((x, bytes) ∷ cs) [] =
        tcp_read-Taken padded_front (length front) x bytes cs []
          (omega (arith, space, length-padded_front)) in
      let room : length front + length t.got ≤ length padded_front =
        omega (arith, t.fits, t.got-length) in
      record {
        got = t.got;
        behind = drop (length front + length t.got) padded_front;
        left = t.left;
        split = t.split;
        same_length = length-overwrite_front t.got room;
        read =
            t.read
            ∙ ap₂ (λ (n : ℕ) (b : List ℕ). ok (n, b, deliveries t.left [])) (sym t.got-length)
                (overwrite_front t.got);
      }

  -- The header fills the buffer: nothing comes in.
  read_behind_full_front :
      (x : ℕ) (bytes : List ℕ) (cs : List (ℕ × List ℕ))
      → length front ≡ 1024
      → FirstRead front ((x, bytes) ∷ cs)
  read_behind_full_front x bytes cs full = record {
    got = [];
    behind = drop (length front + 0) padded_front;
    left = (x, bytes) ∷ cs;
    split = refl;
    same_length = length-overwrite_front [] (omega (arith, full, length-padded_front));
    read =
        read_no_room x bytes (deliveries cs []) full
        ∙ ap (λ (b : List ℕ). ok (0, b, deliveries ((x, bytes) ∷ cs) [])) (overwrite_front []);
  }

  pub first_read : (cs : List (ℕ × List ℕ)) → FirstRead front cs
  unfolding tcp_read
  first_read [] = record {
    got = [];
    behind = replicate (1024 - length front) 0;
    left = [];
    split = refl;
    same_length = length-padded_front;
    read = rw (ltb_of_le (length padded_front) (length front) (omega (arith, length-padded_front)));
  }
  first_read ((x, bytes) ∷ cs) = elim (Bool-cases (ltb (length front) 1024)) [
    | inl space ↦ read_behind_front x bytes cs (ground arith)
    | inr full ↦ read_behind_full_front x bytes cs (ground arith)
  ]

  pub send_first_lem :
      (crc : Crc32) (cs : List (ℕ × List ℕ)) (f : FirstRead front cs)
      → send_first crc front (uploading [] cs []) ≡ (
        ok (crc.update crc.new f.got),
        uploading (front ++ f.got) f.left (front ++ (f.got ++ f.behind)),
      )
  unfolding send_first set_buf buf_slice write_all Stream.write_all resize
  send_first_lem crc cs f = rw (
    ltb_of_le 1024 (length front) low,
    read_file_at [] cs f.left padded_front (front ++ (f.got ++ f.behind)) (length front)
        (length f.got) f.read,
    slice_behind front f.got f.behind,
    slice_front front f.got f.behind,
  )
