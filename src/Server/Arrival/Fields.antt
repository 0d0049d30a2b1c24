-- ===== src/Server/Arrival/Fields.antt =====
-- Fields that arrive in pieces: what the server's loops make of them.
use pcopy.Prelude.{
  ℕ, zero, suc, ◌+◌, ◌-◌, ◌^◌, ◌≤◌, ◌<◌, ◌≡◌, ◌∙◌, refl, ap, arith, List, ◌∷◌, ◌++◌, length, drop,
  append_overlap, drop_behind, append_assoc, length-append, ltb, ltb_of_le, ◌==◌, true, false, inl,
  inr, Bool-cases,
}
use mathlib.Core.Path.{subst}
use pcopy.Prelude.BigEndian.{to_be, length-to_be, from_be-to_be}
use pcopy.Prelude.Outcome.{ok}
use pcopy.Relay.Stream.{Delivery}
use pcopy.Relay.FrameHelper.Reading.{delivered}
use pcopy.Crates.ByteOrder.{ByteOrder}
use pcopy.Crates.Crc32.{Crc32}
use pcopy.Server.Reader.{tcp_stream, tcp_read}
use pcopy.Server.Session.{Session, checked_sub, store, read_data, fill, buf_slice, read_checksum}
use pcopy.Server.Session.Fields.{fill_enough, buf_slice_at}
use pcopy.Server.Arrival.{At, More, read-More}

-- The session when more has been read.
abbrev pub after : Session (List Delivery) → List ℕ → List Delivery → Session (List Delivery)
after s buf socket = record s { buf = buf; socket = socket }

pub read_data_at :
    (s : Session (List Delivery)) (end n : ℕ) (buf : List ℕ) (socket : List Delivery)
    → tcp_read s.socket s.buf end ≡ ok (n, buf, socket)
    → read_data end s ≡ (ok n, after s buf socket)
unfolding read_data store
read_data_at s end n buf socket e = rw e

-- What the loop in front of a field leaves.
pub record Filled (fuel need end start : ℕ) (s : Session (List Delivery)) (later : List Delivery)
    (todo : List ℕ) : Type 0 where
  pub end' : ℕ
  pub buf' : List ℕ
  pub socket' : List Delivery
  pub same_length : length buf' ≡ length s.buf
  pub enough : start + need ≤ end'
  pub run : fill fuel need end start s ≡ (ok end', after s buf' socket')
  pub then_at : At buf' socket' start end' later todo

pub fill-step :
    (fuel need end start n : ℕ) (s : Session (List Delivery)) (buf : List ℕ)
    (socket : List Delivery)
    → start ≤ end
    → ltb (end - start) need ≡ true
    → tcp_read s.socket s.buf end ≡ ok (n, buf, socket)
    → 0 < n
    → fill (suc fuel) need end start s ≡ fill fuel need (end + n) start (after s buf socket)
unfolding fill checked_sub
fill-step fuel need end start n s buf socket order missing read pos =
    let some_bytes : (n == 0) ≡ false = ground arith in
    rw (ltb_of_le end start order, missing, read_data_at s end n buf socket read, some_bytes)

pub fill-Filled :
    (fuel need end start : ℕ) (s : Session (List Delivery)) (later : List Delivery) (todo : List ℕ)
    → At s.buf s.socket start end later todo
    → need ≤ length todo
    → start + need ≤ length s.buf
    → need ≤ fuel + (end - start)
    → Filled fuel need end start s later todo
fill-Filled zero need end start s later todo a some_todo space h = record {
  end' = end;
  buf' = s.buf;
  socket' = s.socket;
  same_length = refl;
  enough = omega (arith, a.size);
  run = fill_enough s zero need end start (omega (arith, a.size));
  then_at = a;
}
fill-Filled (suc fuel) need end start s later todo a some_todo space h =
    elim (Bool-cases (ltb (end - start) need)) [
      | inr there ↦
          let there' : start + need ≤ end = ground (arith, a.size) in
          record {
            end' = end;
            buf' = s.buf;
            socket' = s.socket;
            same_length = refl;
            enough = there';
            run = fill_enough s (suc fuel) need end start there';
            then_at = a;
          }
      | inl missing ↦
          let short : end < start + need = ground (arith, a.size) in
          let m : More s.buf s.socket start end later todo =
            read-More s.buf s.socket start end later todo a (omega arith) (omega arith) in
          let r : Filled fuel need (end + m.count) start (after s m.buf' m.socket') later todo =
            fill-Filled fuel need (end + m.count) start (after s m.buf' m.socket') later todo
              m.then_at some_todo (omega (arith, m.same_length))
              (omega (arith, m.some_bytes, a.size)) in
          record {
            end' = r.end';
            buf' = r.buf';
            socket' = r.socket';
            same_length = r.same_length ∙ m.same_length;
            enough = r.enough;
            run =
                fill-step fuel need end start m.count s m.buf' m.socket' (omega (arith, a.size))
                  missing m.read m.some_bytes
                ∙ r.run;
            then_at = r.then_at;
          }
    ]

-- A field at the front of what is to come, when enough of it is in the buffer.
pub record Cut (buf : List ℕ) (socket : List Delivery) (start end : ℕ) (later : List Delivery)
    (field rest : List ℕ) : Type 0 where
  pub behind : List ℕ
  pub here : drop start buf ≡ field ++ behind
  pub then_at : At buf socket (start + length field) end later rest

pub At-Cut :
    (buf : List ℕ) (socket : List Delivery) (start end : ℕ) (later : List Delivery)
    (field rest : List ℕ)
    → At buf socket start end later (field ++ rest)
    → start + length field ≤ end
    → Cut buf socket start end later field rest
At-Cut buf socket start end later field rest a enough =
    elim (append_overlap a.avail (delivered a.coming) field rest a.bytes) [
      | inl (r, whole, same) ↦
          let here : drop start buf ≡ field ++ (r ++ a.behind) =
            a.in_buffer ∙ ap (λ t. t ++ a.behind) whole ∙ append_assoc field r a.behind in
          record {
            behind = r ++ a.behind;
            here = here;
            then_at = record {
              avail = r;
              behind = a.behind;
              coming = a.coming;
              in_buffer = drop_behind buf start (length field) field (r ++ a.behind) here refl;
              size = omega (arith, a.size, ap length whole, length-append field r);
              room = a.room;
              on_socket = a.on_socket;
              bytes = same;
            };
          }
      | inr (x, r, longer, same) ↦
          absurd (omega (arith, a.size, ap length longer, length-append a.avail (x ∷ r)))
    ]

-- A field that is waited for and sliced out of the buffer.
pub record Field (need end start : ℕ) (s : Session (List Delivery)) (later : List Delivery)
    (field rest : List ℕ) : Type 0 where
  pub end' : ℕ
  pub buf' : List ℕ
  pub socket' : List Delivery
  pub same_length : length buf' ≡ length s.buf
  pub filled : fill need need end start s ≡ (ok end', after s buf' socket')
  pub sliced :
      buf_slice start (start + need) (after s buf' socket') ≡ (ok field, after s buf' socket')
  pub then_at : At buf' socket' (start + need) end' later rest

pub At-Field :
    (need end start : ℕ) (s : Session (List Delivery)) (later : List Delivery) (field rest : List ℕ)
    → At s.buf s.socket start end later (field ++ rest)
    → length field ≡ need
    → start + need ≤ length s.buf
    → Field need end start s later field rest
At-Field need end start s later field rest a size space =
    let f : Filled need need end start s later (field ++ rest) =
      fill-Filled need need end start s later (field ++ rest) a
        (omega (arith, size, length-append field rest)) space (omega arith) in
    let c : Cut f.buf' f.socket' start f.end' later field rest =
      At-Cut f.buf' f.socket' start f.end' later field rest f.then_at
        (omega (arith, size, f.enough)) in
    record {
      end' = f.end';
      buf' = f.buf';
      socket' = f.socket';
      same_length = f.same_length;
      filled = f.run;
      sliced =
          buf_slice_at (after s f.buf' f.socket') start need field c.behind c.here size
            (omega (arith, f.same_length));
      then_at = subst (λ n. At f.buf' f.socket' (start + n) f.end' later rest) size c.then_at;
    }

-- A checksum that is waited for and read.
pub record Checksum (crc : Crc32) ⦃order : ByteOrder⦄ (end start : ℕ) (s : Session (List Delivery))
    (later : List Delivery) (k : ℕ) (rest : List ℕ) : Type 0 where
  pub end' : ℕ
  pub buf' : List ℕ
  pub socket' : List Delivery
  pub same_length : length buf' ≡ length s.buf
  pub run :
      read_checksum crc end start s
      ≡ (ok (k, record { start_index = start + 4; end_index = end' }), after s buf' socket')
  pub then_at : At buf' socket' (start + 4) end' later rest

pub At-Checksum :
    (crc : Crc32) ⦃order : ByteOrder⦄ (end start : ℕ) (s : Session (List Delivery))
    (later : List Delivery) (k : ℕ) (rest : List ℕ)
    → At s.buf s.socket start end later (to_be 4 k ++ rest)
    → k < 2 ^ 32
    → start + 4 ≤ length s.buf
    → Checksum crc end start s later k rest
unfolding read_checksum
At-Checksum crc ⦃order⦄ end start s later k rest a small space =
    let f : Field 4 end start s later (to_be 4 k) rest =
      At-Field 4 end start s later (to_be 4 k) rest a (length-to_be 4 k) space in
    record {
      end' = f.end';
      buf' = f.buf';
      socket' = f.socket';
      same_length = f.same_length;
      run = rw (
        f.filled,
        f.sliced,
        order.read_u32_lem (to_be 4 k) (length-to_be 4 k),
        from_be-to_be 4 k (omega arith),
        crc.finalize-new_with_initial k small,
      );
      then_at = f.then_at;
    }
