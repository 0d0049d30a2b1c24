-- ===== src/Server/Arrival/Loop.antt =====
-- The loop that receives a file, when the bytes behind the content may come together with its end.
use pcopy.Prelude.{
  ℕ, zero, suc, ◌+◌, ◌-◌, ◌^◌, ◌≤◌, ◌<◌, ◌≡◌, ◌∙◌, refl, sym, ap, arith, List, [], ◌∷◌, ◌++◌,
  length, drop, append_assoc, append-nil, append_overlap, length-append, false, none, ltb_of_lt,
  ltb_of_le, ◌==◌, Bool-cases, inl, inr,
}
use pcopy.Prelude.Outcome.{Outcome, ok}
use pcopy.Rust.IoError.{IoError}
use pcopy.Rust.Path.{Paths}
use pcopy.Rust.Disk.{Disk, wrote}
use pcopy.Crates.ByteOrder.{ByteOrder}
use pcopy.Crates.Crc32.{Crc32}
use pcopy.Relay.Stream.{Delivery}
use pcopy.Relay.FrameHelper.Reading.{delivered}
use pcopy.Server.Reader.{tcp_stream, tcp_read}
use pcopy.Server.Session.{Session, checked_sub}
use pcopy.Server.File.{Receiving, take_data, receive}
use pcopy.Server.File.Overread.{take_data_overread}
use pcopy.Server.Arrival.{At, More, read-More}
use pcopy.Server.Arrival.Fields.{after, read_data_at, Cut, At-Cut}
use pcopy.Server.Arrival.Pieces.{front_of, standing, At-front_of}
use pcopy.Server.File.Parts.{receive_done}
use pcopy.Server.Arrival.Stops.{Run, Stops, Stops-more}
use pcopy.Server.Arrival.Content.{rewind_lem, take_data_lem}
use pcopy.Prelude.Exec.{continue}

module _ ⦃order : ByteOrder⦄ ⦃paths : Paths⦄ (crc : Crc32) (disk : Disk)
    (takes_all : (bytes : List ℕ) → disk.write_all bytes ≡ none) where
  -- The indices when `n` bytes have been read behind index `j`.
  abbrev reading : ℕ → ℕ → ℕ → crc.Hasher → Receiving crc.Hasher
  reading j n left h = record {
    end_index = j + n;
    start_index = j;
    file_data_length = left;
    hasher = h;
  }

  receive-turn :
      (fuel i n left : ℕ) (h : crc.Hasher) (buf' : List ℕ) (socket' : List Delivery)
      (s : Session (List Delivery)) (t : Outcome IoError (Receiving crc.Hasher))
      (u : Session (List Delivery))
      → length s.buf ≡ 1024
      → 0 < left
      → tcp_read s.socket s.buf (front_of i) ≡ ok (n, buf', socket')
      → 0 < n
      → take_data crc disk (reading (front_of i) n left h) n (after s buf' socket') ≡ (t, u)
      → receive crc disk (suc fuel) (standing i left h) s ≡ continue t (receive crc disk fuel) u
  unfolding receive checked_sub
  receive-turn fuel i n left h buf' socket' s t u size more read pos takes =
      let nothing : i - i ≡ 0 = omega arith in
      let some_bytes : (n == 0) ≡ false = ground arith in
      rw (
        ltb_of_le i i (omega arith),
        nothing,
        ltb_of_lt 0 left more,
        rewind_lem crc disk takes_all i left h s size,
        read_data_at s (front_of i) n buf' socket' read,
        some_bytes,
        takes,
      )

  module _ (fuel i : ℕ) (h : crc.Hasher) (s : Session (List Delivery)) (later : List Delivery)
      (todo tail : List ℕ) (more : 0 < length todo) (size : length s.buf ≡ 1024)
      (small : length todo < 2 ^ 32)
      (m : More s.buf s.socket (front_of i) (front_of i) later (todo ++ tail)) where
    abbrev run : Run crc
    run = receive crc disk (suc fuel) (standing i (length todo) h) s

    abbrev came : Session (List Delivery)
    came = after s m.buf' m.socket'

    -- What was read is the front of the content.
    Stops-part :
        (rest : List ℕ)
        → todo ≡ m.then_at.avail ++ rest
        → delivered m.then_at.coming ≡ rest ++ tail
        → (At m.buf' m.socket' (front_of i + m.count) (front_of i + m.count) later (rest ++ tail)
            → Stops crc
                (receive crc disk fuel
                  (standing (front_of i + m.count) (length rest) (crc.update h m.then_at.avail))
                  (record came { effects = s.effects ++ wrote m.then_at.avail ∷ [] }))
                (crc.update h m.then_at.avail)
                (s.effects ++ wrote m.then_at.avail ∷ [])
                later
                rest
                tail)
        → Stops crc run h s.effects later todo tail
    Stops-part rest part behind next =
        let got : List ℕ = m.then_at.avail in
        let n : length got ≡ m.count = omega (arith, m.then_at.size) in
        let total : length todo ≡ m.count + length rest =
          omega (arith, n, ap length part, length-append got rest) in
        let left : length todo - m.count ≡ length rest = omega (arith, total) in
        let turn =
          receive-turn fuel i m.count (length todo) h m.buf' m.socket' s _ _ size more m.read
            m.some_bytes
            (take_data_lem crc disk takes_all (front_of i) m.count (length todo) h got
              m.then_at.behind came m.then_at.in_buffer n m.then_at.room (omega (arith, total))
              (omega (arith, total))) in
        let next_left = λ (t : ℕ).
          receive crc disk fuel (standing (front_of i + m.count) t (crc.update h got))
            (record came { effects = s.effects ++ wrote got ∷ [] }) in
        Stops-more crc run (next_left (length rest)) h s.effects later got rest todo tail
          (turn ∙ ap next_left left) (sym part)
          (next (record {
            avail = [];
            behind = drop (front_of i + m.count) m.buf';
            coming = m.then_at.coming;
            in_buffer = refl;
            size = omega arith;
            room = m.then_at.room;
            on_socket = m.then_at.on_socket;
            bytes = behind;
          }))

    -- What was read is the whole of the content, and more.
    Stops-over :
        (y : ℕ) (r : List ℕ)
        → m.then_at.avail ≡ todo ++ y ∷ r
        → Stops crc run h s.effects later todo tail
    Stops-over y r over =
        let j : ℕ = front_of i in
        let front : drop j m.buf' ≡ todo ++ (y ∷ r ++ m.then_at.behind) =
          m.then_at.in_buffer
          ∙ ap (λ t. t ++ m.then_at.behind) over
          ∙ append_assoc todo (y ∷ r) m.then_at.behind in
        let longer : j + length todo < j + m.count =
          omega (arith, m.then_at.size, ap length over, length-append todo (y ∷ r)) in
        let turn =
          receive-turn fuel i m.count (length todo) h m.buf' m.socket' s _ _ size more m.read
            m.some_bytes
            (take_data_overread crc disk came (reading j m.count (length todo) h) m.count todo
              (y ∷ r ++ m.then_at.behind) front refl longer m.then_at.room
              (omega (arith, longer, m.then_at.room, m.same_length, size)) (takes_all todo)) in
        elim (Bool-cases (j == 0)) [
          | inl at_front ↦ record {
            pieces = todo ∷ [];
            buf' = m.buf';
            socket' = m.socket';
            content = append-nil todo;
            ends = inl (record {
              start = j + length todo;
              end = j + m.count;
              hasher' = crc.update h todo;
              runs =
                  turn
                  ∙ rw at_front (
                      receive_done crc disk fuel
                        (record {
                          end_index = j + m.count;
                          start_index = j + length todo;
                          file_data_length = 0;
                          hasher = crc.update h todo;
                        })
                        (record came { effects = s.effects ++ wrote todo ∷ [] }) (omega arith)
                        refl);
              digest = refl;
              same_length = m.same_length ∙ size;
              then_at =
                  let c : Cut m.buf' m.socket' j (j + m.count) later todo tail =
                    At-Cut m.buf' m.socket' j (j + m.count) later todo tail m.then_at
                      (omega arith) in
                  c.then_at;
            });
          }
          | inr behind ↦ record {
            pieces = todo ∷ [];
            buf' = m.buf';
            socket' = m.socket';
            content = append-nil todo;
            ends = inr (turn ∙ rw behind refl);
          }
        ]

  -- The loop that receives a file whose bytes come in pieces, with more bytes behind them.
  pub At-Stops :
      (fuel i : ℕ) (h : crc.Hasher) (s : Session (List Delivery)) (later : List Delivery)
      (todo tail : List ℕ)
      → At s.buf s.socket i i later (todo ++ tail)
      → length s.buf ≡ 1024
      → length todo ≤ fuel
      → length todo < 2 ^ 32
      → Stops crc (receive crc disk fuel (standing i (length todo) h) s) h s.effects later todo tail
  At-Stops fuel i h s later [] tail a size enough small = record {
    pieces = [];
    buf' = s.buf;
    socket' = s.socket;
    content = refl;
    ends = inl (record {
      start = i;
      end = i;
      hasher' = h;
      runs = receive_done crc disk fuel (standing i 0 h) s (omega arith) refl ∙ rw append-nil;
      digest = sym (crc.update-nil h);
      same_length = size;
      then_at = a;
    });
  }
  At-Stops zero i h s later (x ∷ xs) tail a size enough small = absurd (omega arith)
  At-Stops (suc fuel) i h s later (x ∷ xs) tail a size enough small =
      let todo : List ℕ = x ∷ xs in
      let j : ℕ = front_of i in
      let low : i ≤ 1024 = omega (arith, a.room, size) in
      let m : More s.buf s.socket j j later (todo ++ tail) =
        read-More s.buf s.socket j j later (todo ++ tail)
          (At-front_of s.buf s.socket i later (todo ++ tail) a) (omega arith)
          (ground (arith, low, size)) in
      let part =
        λ (rest : List ℕ) (front : todo ≡ m.then_at.avail ++ rest)
            (behind : delivered m.then_at.coming ≡ rest ++ tail).
          let total : length todo ≡ m.count + length rest =
            omega (arith, m.then_at.size, ap length front, length-append m.then_at.avail rest) in
          Stops-part fuel i h s later todo tail (omega arith) size small m rest front behind (λ t.
            At-Stops fuel (j + m.count) (crc.update h m.then_at.avail)
              (record (after s m.buf' m.socket') {
                effects = s.effects ++ wrote m.then_at.avail ∷ [];
              })
              later rest tail t (m.same_length ∙ size) (omega (arith, total, m.some_bytes))
              (omega (arith, total))) in
      elim (append_overlap m.then_at.avail (delivered m.then_at.coming) todo tail m.then_at.bytes) [
        | inl ([], whole, same) ↦
            part [] (sym (append-nil m.then_at.avail ∙ whole ∙ append-nil todo)) same
        | inl (y ∷ r, over, same) ↦
            Stops-over fuel i h s later todo tail (omega arith) size small m y r over
        | inr (y, r, front, behind) ↦ part (y ∷ r) front behind
      ]
