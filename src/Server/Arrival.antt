-- ===== src/Server/Arrival.antt =====
-- A request that arrives in pieces: what is in the buffer and what is still on its way.
pub mod Fields
pub mod Folder
pub mod Pieces
pub mod Content
pub mod File
pub mod Full
pub mod Saved
pub mod Made
pub mod Escape
pub mod Stops
pub mod Loop
pub mod Refused
pub mod Header
pub mod Anyway
pub mod Begun
pub mod Opening
use pcopy.Prelude.{
  length-drop, take_split, ℕ, zero, suc, ◌+◌, ◌-◌, ◌≤◌, ◌<◌, ◌≡◌, ◌∙◌, refl, sym, ap, arith, min,
  List, [], ◌∷◌, ◌++◌, length, take, drop, drop-append, drop-cons, take_behind, take-append-drop,
  take_all, length-take, length-append, append_assoc, append-nil, ltb, ltb_of_lt, ltb_of_le, ◌==◌,
  true, false, inl, inr, Bool-cases,
}
use pcopy.Prelude.Outcome.{ok}
use pcopy.Relay.Stream.{Delivery, chunk}
use pcopy.Relay.FrameHelper.Reading.{deliveries, delivered}
use pcopy.Server.Reader.{tcp_stream, tcp_read, overwrite, left_over}

-- The bytes `todo` of a request, from index `start` on, where the buffer is filled up to index `end`:
-- some are in the buffer, and the others come in chunks, behind which `later` is delivered.
pub record At (buf : List ℕ) (socket : List Delivery) (start end : ℕ) (later : List Delivery)
    (todo : List ℕ) : Type 0 where
  pub avail : List ℕ
  pub behind : List ℕ
  pub coming : List (ℕ × List ℕ)
  pub in_buffer : drop start buf ≡ avail ++ behind
  pub size : start + length avail ≡ end
  pub room : end ≤ length buf
  pub on_socket : socket ≡ deliveries coming later
  pub bytes : avail ++ delivered coming ≡ todo

-- What a read that has room makes of a chunk.
pub record Taken (buf : List ℕ) (i : ℕ) (coming : List (ℕ × List ℕ)) (later : List Delivery)
    : Type 0 where
  pub count : ℕ
  pub got : List ℕ
  pub left : List (ℕ × List ℕ)
  pub got-length : length got ≡ count
  pub some_bytes : 0 < count
  pub fits : i + count ≤ length buf
  pub split : got ++ delivered left ≡ delivered coming
  pub read :
      tcp_read (deliveries coming later) buf i
      ≡ ok (count, overwrite buf i got, deliveries left later)

pub tcp_read-Taken :
    (buf : List ℕ) (i x : ℕ) (bytes : List ℕ) (cs : List (ℕ × List ℕ)) (later : List Delivery)
    → i < length buf
    → Taken buf i ((x, bytes) ∷ cs) later
unfolding tcp_read left_over overwrite
tcp_read-Taken buf i x bytes cs later h =
    let within = ltb_of_le (length buf) i (omega arith) in
    let n : ℕ = min (length (x ∷ bytes)) (length buf - i) in
    elim (Bool-cases (length (x ∷ bytes) == n)) [
      | inl all ↦
          let same : n ≡ length (x ∷ bytes) = ground arith in
          record {
            count = n;
            got = x ∷ bytes;
            left = cs;
            got-length = ground arith;
            some_bytes = omega arith;
            fits = omega arith;
            split = refl;
            read = rw (within, all, same, take_all bytes);
          }
      | inr part ↦
          let less : n < length (x ∷ bytes) = ground arith in
          let (y, ys, rest) = drop-cons n (x ∷ bytes) less in
          record {
            count = n;
            got = take n (x ∷ bytes);
            left = (y, ys) ∷ cs;
            got-length = omega (arith, length-take n (x ∷ bytes));
            some_bytes = omega arith;
            fits = omega arith;
            split = take_split n (x ∷ bytes) (y ∷ ys) (delivered cs) rest;
            read = rw (within, part, rest);
          }
    ]

-- What is read goes behind what is in the buffer.
drop-overwrite :
    (buf : List ℕ) (start end : ℕ) (avail behind got : List ℕ)
    → drop start buf ≡ avail ++ behind
    → start + length avail ≡ end
    → end ≤ length buf
    → drop start (overwrite buf end got) ≡ (avail ++ got) ++ drop (end + length got) buf
unfolding overwrite
drop-overwrite buf start end avail behind got e size room =
    let front : length (take start buf) ≡ start = omega (arith, length-take start buf) in
    rw (
      take_behind buf start end avail behind e size (omega arith),
      append_assoc (take start buf) avail,
      drop-append start (take start buf) _ front,
      append_assoc avail got,
    )

pub length-overwrite :
    (buf : List ℕ) (i : ℕ) (got : List ℕ)
    → i + length got ≤ length buf
    → length (overwrite buf i got) ≡ length buf
unfolding overwrite
length-overwrite buf i got h = omega (
  arith,
  length-append (take i buf) (got ++ drop (i + length got) buf),
  length-append got (drop (i + length got) buf),
  length-take i buf,
  length-drop (i + length got) buf,
)

-- A read that brings more of the request.
pub record More (buf : List ℕ) (socket : List Delivery) (start end : ℕ) (later : List Delivery)
    (todo : List ℕ) : Type 0 where
  pub count : ℕ
  pub buf' : List ℕ
  pub socket' : List Delivery
  pub some_bytes : 0 < count
  pub same_length : length buf' ≡ length buf
  pub read : tcp_read socket buf end ≡ ok (count, buf', socket')
  pub then_at : At buf' socket' start (end + count) later todo

-- As long as bytes of the request are on their way and there is room, a read brings some of them.
pub read-More :
    (buf : List ℕ) (socket : List Delivery) (start end : ℕ) (later : List Delivery) (todo : List ℕ)
    (a : At buf socket start end later todo)
    → end < start + length todo
    → end < length buf
    → More buf socket start end later todo
read-More buf socket start end later todo a missing space = go a.coming refl
  where
    go : (cs : List (ℕ × List ℕ)) → a.coming ≡ cs → More buf socket start end later todo
    go [] e =
        let whole : a.avail ≡ todo =
          sym (append-nil a.avail) ∙ ap (λ cs. a.avail ++ delivered cs) (sym e) ∙ a.bytes in
        absurd (omega (arith, ap length whole, a.size))
    go ((x, bytes) ∷ cs) e =
        let t : Taken buf end ((x, bytes) ∷ cs) later =
          tcp_read-Taken buf end x bytes cs later space in
        record {
          count = t.count;
          buf' = overwrite buf end t.got;
          socket' = deliveries t.left later;
          some_bytes = t.some_bytes;
          same_length = length-overwrite buf end t.got (omega (arith, t.fits, t.got-length));
          read = rw (a.on_socket, e) t.read;
          then_at = record {
            avail = a.avail ++ t.got;
            behind = drop (end + length t.got) buf;
            coming = t.left;
            in_buffer =
                drop-overwrite buf start end a.avail a.behind t.got a.in_buffer a.size a.room;
            size = omega (arith, a.size, t.got-length, length-append a.avail t.got);
            room = omega (
              arith,
              t.fits,
              length-overwrite buf end t.got (omega (arith, t.fits, t.got-length)),
            );
            on_socket = refl;
            bytes =
                append_assoc a.avail t.got (delivered t.left)
                ∙ ap (λ u. a.avail ++ u) t.split
                ∙ ap (λ cs. a.avail ++ delivered cs) (sym e)
                ∙ a.bytes;
          };
        }
