-- ===== src/Server/Arrival/Full.antt =====
-- A field for which the buffer has no room left.
use pcopy.Prelude.{
  ℕ, zero, suc, ◌+◌, ◌-◌, ◌≤◌, ◌<◌, ◌≡◌, ◌∙◌, refl, sym, ap, arith, min, List, [], ◌∷◌, ◌++◌,
  length, append-nil, ltb, ltb_of_le, true, inl, inr, Bool-cases,
}
use pcopy.Prelude.Outcome.{ok, err}
use pcopy.Rust.IoError.{invalid_data}
use pcopy.Relay.Stream.{Delivery, chunk}
use pcopy.Relay.FrameHelper.Reading.{deliveries, delivered}
use pcopy.Server.Reader.{tcp_stream, tcp_read, overwrite, left_over}
use pcopy.Server.Session.{Session, checked_sub, fill}
use pcopy.Server.Arrival.{At, More, read-More}
use pcopy.Server.Arrival.Fields.{after, read_data_at, fill-step}

-- What a session becomes by reads that bring nothing new to the disk.
pub record Refused (fuel need end start : ℕ) (s : Session (List Delivery)) : Type 0 where
  pub buf' : List ℕ
  pub socket' : List Delivery
  pub run : fill fuel need end start s ≡ (err invalid_data, after s buf' socket')

-- A read into a full buffer reads nothing.
read_full :
    (buf : List ℕ) (end start x : ℕ) (bytes : List ℕ) (more : List Delivery) (fuel need : ℕ)
    (s : Session (List Delivery))
    → s.socket ≡ chunk (x ∷ bytes) ∷ more
    → start ≤ end
    → end < start + need
    → end ≡ length s.buf
    → Refused (suc fuel) need end start s
unfolding fill checked_sub tcp_read
read_full buf end start x bytes more fuel need s e order missing full =
    let none_fits : min (length (x ∷ bytes)) (length s.buf - end) ≡ 0 = omega arith in
    let short : ltb (end - start) need ≡ true = ground arith in
    let read : tcp_read s.socket s.buf end
        ≡ ok (0, overwrite s.buf end [], left_over 0 (x ∷ bytes) more) =
      rw (e, ltb_of_le (length s.buf) end (omega arith), none_fits) in
    record {
      buf' = overwrite s.buf end [];
      socket' = left_over 0 (x ∷ bytes) more;
      run = rw (
        ltb_of_le end start order,
        short,
        read_data_at s end 0 (overwrite s.buf end []) (left_over 0 (x ∷ bytes) more) read,
      );
    }

-- The loop in front of a field that reaches over the end of the buffer fills the buffer and fails.
pub fill-Refused :
    (fuel need end start : ℕ) (s : Session (List Delivery)) (later : List Delivery) (todo : List ℕ)
    → At s.buf s.socket start end later todo
    → need ≤ length todo
    → length s.buf < start + need
    → length s.buf < fuel + end
    → Refused fuel need end start s
fill-Refused zero need end start s later todo a some_todo over enough =
    absurd (omega (arith, a.room))
fill-Refused (suc fuel) need end start s later todo a some_todo over enough =
    elim (Bool-cases (ltb end (length s.buf))) [
      | inl space ↦
          let m : More s.buf s.socket start end later todo =
            read-More s.buf s.socket start end later todo a (omega (arith, a.room))
              (ground arith) in
          let r : Refused fuel need (end + m.count) start (after s m.buf' m.socket') =
            fill-Refused fuel need (end + m.count) start (after s m.buf' m.socket') later todo
              m.then_at some_todo (omega (arith, m.same_length))
              (omega (arith, m.same_length, m.some_bytes)) in
          record {
            buf' = r.buf';
            socket' = r.socket';
            run =
                fill-step fuel need end start m.count s m.buf' m.socket' (omega (arith, a.size))
                  (ground (arith, a.room)) m.read m.some_bytes
                ∙ r.run;
          }
      | inr full ↦ go (ground (arith, a.room)) a.coming refl
    ]
  where
    go :
        end ≡ length s.buf
        → (cs : List (ℕ × List ℕ)) → a.coming ≡ cs
        → Refused (suc fuel) need end start s
    go all [] e =
        let whole : a.avail ≡ todo =
          sym (append-nil a.avail) ∙ ap (λ cs. a.avail ++ delivered cs) (sym e) ∙ a.bytes in
        absurd (omega (arith, ap length whole, a.size))
    go all ((x, bytes) ∷ cs) e =
        read_full s.buf end start x bytes (deliveries cs later) fuel need s
          (a.on_socket ∙ ap (λ cs. deliveries cs later) e) (omega (arith, a.size))
          (omega (arith, a.room)) all
