-- ===== src/Server/Arrival/Begun.antt =====
-- The content of a file, from the first write to the end of the loop, when the bytes behind it may come
-- together with its end.
use pcopy.Prelude.{
  ℕ, ◌+◌, ◌-◌, ◌^◌, ◌≤◌, ◌<◌, ◌≡◌, refl, sym, ap, arith, List, [], ◌∷◌, ◌++◌, length, drop,
  append-nil, append_overlap, length-append, none, inl, inr,
}
use pcopy.Prelude.Outcome.{ok}
use pcopy.Rust.Path.{Paths}
use pcopy.Rust.Disk.{Disk, wrote}
use pcopy.Crates.ByteOrder.{ByteOrder}
use pcopy.Crates.Crc32.{Crc32}
use pcopy.Relay.Stream.{Delivery}
use pcopy.Relay.FrameHelper.Reading.{delivered}
use pcopy.Server.Reader.{tcp_stream}
use pcopy.Server.Session.{Session}
use pcopy.Server.Arrival.{At}
use pcopy.Server.Arrival.Fields.{Cut, At-Cut}
use pcopy.Server.Arrival.Header.{receiving}
use pcopy.Server.File.Parts.{first_write-got, receive_done}
use pcopy.Server.Arrival.Stops.{Stops, Stops-more}
use pcopy.Server.Arrival.Loop.{At-Stops}

module _ ⦃order : ByteOrder⦄ ⦃paths : Paths⦄ (crc : Crc32) (disk : Disk)
    (writes_all : (bytes : List ℕ) → disk.write bytes ≡ ok (length bytes))
    (takes_all : (bytes : List ℕ) → disk.write_all bytes ≡ none) where
  module _ (end start : ℕ) (s : Session (List Delivery)) (later : List Delivery)
      (content tail : List ℕ) (a : At s.buf s.socket start end later (content ++ tail))
      (size : length s.buf ≡ 1024) (small : length content < 2 ^ 32) where
    -- All of the content is in the buffer.
    Stops-whole :
        (r : List ℕ)
        → a.avail ≡ content ++ r
        → Stops crc
            (receiving crc disk end start (length content) s)
            crc.new
            s.effects
            later
            content
            tail
    Stops-whole r whole =
        let reaches : start + length content ≤ end =
          omega (arith, a.size, ap length whole, length-append content r) in
        let c : Cut s.buf s.socket start end later content tail =
          At-Cut s.buf s.socket start end later content tail a reaches in
        let none_left : length content - length content ≡ 0 = omega arith in
        let first =
          first_write-got crc disk s start end (length content) content c.behind c.here
            (omega arith) (omega (arith, a.room)) (omega arith) small (writes_all content) in
        record {
          pieces = content ∷ [];
          buf' = s.buf;
          socket' = s.socket;
          content = append-nil content;
          ends = inl (record {
            start = start + length content;
            end = end;
            hasher' = crc.update crc.new content;
            runs =
                rw (first, none_left)
                  (receive_done crc disk 0
                    (record {
                      end_index = end;
                      start_index = start + length content;
                      file_data_length = 0;
                      hasher = crc.update crc.new content;
                    })
                    (record s { effects = s.effects ++ wrote content ∷ [] }) (omega arith) refl);
            digest = refl;
            same_length = size;
            then_at = c.then_at;
          });
        }

    -- Only the front of the content is in the buffer.
    Stops-rest :
        (rest : List ℕ)
        → content ≡ a.avail ++ rest
        → delivered a.coming ≡ rest ++ tail
        → Stops crc
            (receiving crc disk end start (length content) s)
            crc.new
            s.effects
            later
            content
            tail
    Stops-rest rest front behind =
        let got : List ℕ = a.avail in
        let total : length content ≡ length got + length rest =
          omega (arith, ap length front, length-append got rest) in
        let left : length content - length got ≡ length rest = omega (arith, total) in
        let first =
          first_write-got crc disk s start end (length content) got a.behind a.in_buffer
            (omega (arith, total, a.size)) (omega (arith, a.size, a.room)) (omega (arith, total))
            small (writes_all got) in
        Stops-more crc (receiving crc disk end start (length content) s) _ crc.new s.effects later
          got rest content tail (rw (first, left, a.size)) (sym front)
          (At-Stops crc disk takes_all (length rest) end (crc.update crc.new got)
            (record s { effects = s.effects ++ wrote got ∷ [] }) later rest tail
            (record {
              avail = [];
              behind = drop end s.buf;
              coming = a.coming;
              in_buffer = refl;
              size = omega arith;
              room = a.room;
              on_socket = a.on_socket;
              bytes = behind;
            })
            size (omega arith) (omega (arith, total)))

  -- The content is written whatever part of it, or of what is behind it, is in the buffer already.
  pub At-Begun :
      (end start : ℕ) (s : Session (List Delivery)) (later : List Delivery) (content tail : List ℕ)
      → At s.buf s.socket start end later (content ++ tail)
      → length s.buf ≡ 1024
      → length content < 2 ^ 32
      → Stops crc
          (receiving crc disk end start (length content) s)
          crc.new
          s.effects
          later
          content
          tail
  At-Begun end start s later content tail a size small =
      elim (append_overlap a.avail (delivered a.coming) content tail a.bytes) [
        | inl (r, whole, same) ↦ Stops-whole end start s later content tail a size small r whole
        | inr (y, r, front, behind) ↦
            Stops-rest end start s later content tail a size small (y ∷ r) front behind
      ]
