-- ===== src/Server/Arrival/Content.antt =====
-- The content of a file that arrives in pieces: what the loop that receives it does.
use pcopy.Prelude.{
  ℕ, zero, suc, ◌+◌, ◌-◌, ◌%◌, ◌^◌, ◌≤◌, ◌<◌, ◌≡◌, ◌∙◌, refl, sym, ap, arith, List, [], ◌∷◌, ◌++◌,
  length, drop, append_assoc, append-nil, length-append, false, none, ltb_of_lt, ltb_of_le, ◌==◌,
  Bool-cases, inl, inr,
}
use mathlib.Core.Path.{subst, ap₂}
use pcopy.Prelude.Outcome.{Outcome, ok}
use pcopy.Rust.IoError.{IoError}
use pcopy.Rust.Path.{Paths}
use pcopy.Rust.Disk.{Disk, Effect, wrote}
use pcopy.Crates.ByteOrder.{ByteOrder}
use pcopy.Crates.Crc32.{Crc32}
use pcopy.Relay.Stream.{Delivery}
use pcopy.Server.Reader.{tcp_stream, tcp_read}
use pcopy.Server.Session.{Session, checked_sub, log}
use pcopy.Server.Session.Fields.{buf_slice_at}
use pcopy.Server.File.{Receiving, rewind, take_data, whole_chunk, write_all_unwrap, receive}
use pcopy.Server.Arrival.{At, More, read-More}
use pcopy.Server.Arrival.Fields.{after, read_data_at}
use pcopy.Server.Arrival.Pieces.{
  place, writes, joined, Front, At-Front, front_of, standing, place_step, At-front_of,
}

module _ ⦃order : ByteOrder⦄ ⦃paths : Paths⦄ (crc : Crc32) (disk : Disk)
    (takes_all : (bytes : List ℕ) → disk.write_all bytes ≡ none) where
  pub rewind_lem :
      (i left : ℕ) (h : crc.Hasher) (s : Session (List Delivery))
      → length s.buf ≡ 1024
      → rewind crc disk (standing i left h) s ≡ (ok (standing (front_of i) left h), s)
  unfolding rewind
  rewind_lem i left h s size = elim (Bool-cases (i == 1024)) [
    | inl full ↦ rw (size, full)
    | inr partial ↦ rw (size, partial)
  ]

  pub take_data_lem :
      (j n left : ℕ) (h : crc.Hasher) (got behind : List ℕ) (s : Session (List Delivery))
      → drop j s.buf ≡ got ++ behind
      → length got ≡ n
      → j + n ≤ length s.buf
      → n ≤ left
      → n < 2 ^ 32
      → take_data crc disk
          (record { end_index = j + n; start_index = j; file_data_length = left; hasher = h })
          n
          s
        ≡ (
          ok (standing (j + n) (left - n) (crc.update h got)),
          record s { effects = s.effects ++ wrote got ∷ [] },
        )
  unfolding take_data whole_chunk write_all_unwrap log checked_sub
  take_data_lem j n left h got behind s here size room within small =
      let cut : n % 2 ^ 32 ≡ n = omega arith in
      rw (
        ltb_of_le (j + left) (j + n) (omega arith),
        buf_slice_at s j n got behind here size (omega arith),
        takes_all got,
        cut,
        ltb_of_le left n within,
      )

  receive-round :
      (fuel i n left : ℕ) (h : crc.Hasher) (got behind buf' : List ℕ) (socket' : List Delivery)
      (s : Session (List Delivery))
      → length s.buf ≡ 1024
      → 0 < left
      → tcp_read s.socket s.buf (front_of i) ≡ ok (n, buf', socket')
      → 0 < n
      → drop (front_of i) buf' ≡ got ++ behind
      → length got ≡ n
      → front_of i + n ≤ length buf'
      → n ≤ left
      → n < 2 ^ 32
      → receive crc disk (suc fuel) (standing i left h) s
        ≡ receive crc disk fuel
            (standing (front_of i + n) (left - n) (crc.update h got))
            (record (after s buf' socket') { effects = s.effects ++ wrote got ∷ [] })
  unfolding receive checked_sub
  receive-round fuel i n left h got behind buf' socket' s size more read pos here got_n room within
        small =
      let nothing : i - i ≡ 0 = omega arith in
      let some_bytes : (n == 0) ≡ false = ground arith in
      rw (
        ltb_of_le i i (omega arith),
        nothing,
        ltb_of_lt 0 left more,
        rewind_lem i left h s size,
        read_data_at s (front_of i) n buf' socket' read,
        some_bytes,
        take_data_lem (front_of i) n left h got behind (after s buf' socket') here got_n room within
            small,
      )

  receive_nothing_left :
      (fuel i : ℕ) (h : crc.Hasher) (s : Session (List Delivery))
      → receive crc disk fuel (standing i 0 h) s ≡ (ok (standing i 0 h), s)
  unfolding receive checked_sub
  receive_nothing_left zero i h s =
      rw (ltb_of_le i i (omega arith), ltb_of_le (i - i) 0 (omega arith))
  receive_nothing_left (suc fuel) i h s =
      rw (ltb_of_le i i (omega arith), ltb_of_le (i - i) 0 (omega arith))

  -- How the loop ends.
  abbrev ended :
      Session (List Delivery)
      → List ℕ
      → List Delivery
      → ℕ
      → crc.Hasher
      → List Effect
      → Outcome IoError (Receiving crc.Hasher) × Session (List Delivery)
  ended s buf socket i h effects =
      (ok (standing i 0 h), record (after s buf socket) { effects = effects })

  settled :
      (fuel i left rest : ℕ) (h : crc.Hasher) (s : Session (List Delivery)) (k l : ℕ)
      (h' : crc.Hasher) (buf : List ℕ) (socket : List Delivery) (effects : List Effect)
      (got : List ℕ) (pieces : List (List ℕ))
      → left ≡ rest
      → k ≡ l
      → receive crc disk fuel (standing i rest h) s
        ≡ ended s buf socket k h' ((effects ++ wrote got ∷ []) ++ writes pieces)
      → receive crc disk fuel (standing i left h) s
        ≡ ended s buf socket l h' (effects ++ writes (got ∷ pieces))
  settled fuel i left rest h s k l h' buf socket effects got pieces e f run =
      ap (λ t. receive crc disk fuel (standing i t h) s) e
      ∙ run
      ∙ ap₂ (λ t u. ended s buf socket t h' u) f
          (append_assoc effects (wrote got ∷ []) (writes pieces))

  -- What the loop leaves when the whole of `todo` has arrived.
  pub record Received (fuel i : ℕ) (h : crc.Hasher) (s : Session (List Delivery))
      (later : List Delivery) (todo : List ℕ) : Type 0 where
    pub buf' : List ℕ
    pub socket' : List Delivery
    pub pieces : List (List ℕ)
    pub hasher' : crc.Hasher
    pub same_length : length buf' ≡ 1024
    pub run : receive crc disk fuel (standing i (length todo) h) s ≡ (
      ok (standing (place i (length todo)) 0 hasher'),
      record (after s buf' socket') { effects = s.effects ++ writes pieces },
    )
    pub content : joined pieces ≡ todo
    pub digest : crc.finalize hasher' ≡ crc.finalize (crc.update h todo)
    pub then_at : At buf' socket' (place i (length todo)) (place i (length todo)) later []

  -- A round of the loop, in front of the others.
  module _ (fuel i : ℕ) (h : crc.Hasher) (s : Session (List Delivery)) (later : List Delivery)
      (todo : List ℕ) (more : 0 < length todo) (size : length s.buf ≡ 1024) (low : i ≤ 1024)
      (small : length todo < 2 ^ 32) (m : More s.buf s.socket (front_of i) (front_of i) later todo)
      (f : Front m.buf' m.socket' (front_of i) (front_of i + m.count) later todo) where
    abbrev next_round : Session (List Delivery)
    next_round = record (after s m.buf' m.socket') { effects = s.effects ++ wrote f.got ∷ [] }

    length-got : length f.got ≡ m.count
    length-got = omega (arith, f.size)

    length-todo : length todo ≡ m.count + length f.rest
    length-todo = omega (arith, length-got, ap length f.split, length-append f.got f.rest)

    Received-step :
        Received fuel (front_of i + m.count) (crc.update h f.got) next_round later f.rest
        → Received (suc fuel) i h s later todo
    Received-step r =
        let left : length todo - m.count ≡ length f.rest = omega (arith, length-todo) in
        let next : place (front_of i + m.count) (length f.rest) ≡ place i (length todo) =
          place_step i m.count (length f.rest) (length todo) low m.some_bytes
            (omega (arith, m.then_at.room, m.same_length, size)) length-todo in
        record {
          buf' = r.buf';
          socket' = r.socket';
          pieces = f.got ∷ r.pieces;
          hasher' = r.hasher';
          same_length = r.same_length;
          run =
              receive-round fuel i m.count (length todo) h f.got f.behind m.buf' m.socket' s size
                more m.read m.some_bytes f.here length-got m.then_at.room
                (omega (arith, length-todo)) (omega (arith, length-todo))
              ∙ settled fuel (front_of i + m.count) (length todo - m.count) (length f.rest)
                  (crc.update h f.got) next_round (place (front_of i + m.count) (length f.rest))
                  (place i (length todo)) r.hasher' r.buf' r.socket' s.effects f.got r.pieces left
                  next r.run;
          content = ap (λ t. f.got ++ t) r.content ∙ f.split;
          digest =
              r.digest
              ∙ crc.update-update h f.got f.rest
              ∙ ap (λ t. crc.finalize (crc.update h t)) f.split;
          then_at = subst (λ k. At r.buf' r.socket' k k later []) next r.then_at;
        }

  pub At-Received :
      (fuel i : ℕ) (h : crc.Hasher) (s : Session (List Delivery)) (later : List Delivery)
      (todo : List ℕ)
      → At s.buf s.socket i i later todo
      → length s.buf ≡ 1024
      → length todo ≤ fuel
      → length todo < 2 ^ 32
      → Received fuel i h s later todo
  At-Received fuel i h s later [] a size enough small = record {
    buf' = s.buf;
    socket' = s.socket;
    pieces = [];
    hasher' = h;
    same_length = size;
    run = receive_nothing_left fuel i h s ∙ rw append-nil;
    content = refl;
    digest = sym (crc.update-nil h);
    then_at = a;
  }
  At-Received zero i h s later (x ∷ xs) a size enough small = absurd (omega arith)
  At-Received (suc fuel) i h s later (x ∷ xs) a size enough small =
      let j : ℕ = front_of i in
      let low : i ≤ 1024 = omega (arith, a.room, size) in
      let m : More s.buf s.socket j j later (x ∷ xs) =
        read-More s.buf s.socket j j later (x ∷ xs) (At-front_of s.buf s.socket i later (x ∷ xs) a)
          (omega arith) (ground (arith, low, size)) in
      let f : Front m.buf' m.socket' j (j + m.count) later (x ∷ xs) =
        At-Front m.buf' m.socket' j (j + m.count) later (x ∷ xs) m.then_at in
      let pos : 0 < length (x ∷ xs) = omega arith in
      let total : length (x ∷ xs) ≡ m.count + length f.rest =
        length-todo fuel i h s later (x ∷ xs) pos size low small m f in
      Received-step fuel i h s later (x ∷ xs) pos size low small m f (
        At-Received fuel (j + m.count) (crc.update h f.got)
          (next_round fuel i h s later (x ∷ xs) pos size low small m f) later f.rest f.then_at
          (m.same_length ∙ size) (omega (arith, total, m.some_bytes)) (omega (arith, total)))
