-- ===== src/Client/Rest.antt =====
-- The loop of the client behind the first buffer, on a file that comes in pieces of any size.
use pcopy.Prelude.{
  ℕ, zero, suc, ◌+◌, ◌≤◌, ◌<◌, ◌≡◌, ◌∙◌, refl, sym, ap, arith, List, [], ◌∷◌, ◌++◌, length, drop,
  append_assoc, append-nil, length-append, slice, slice_at, false, some, ltb_of_le, ◌==◌,
}
use pcopy.Prelude.Outcome.{ok}
use pcopy.Crates.Crc32.{Crc32}
use pcopy.Relay.Stream
use pcopy.Relay.Stream.{Stream, Delivery, chunk}
use pcopy.Relay.FrameHelper.Reading.{deliveries, delivered}
use pcopy.Server.Reader.{tcp_read, overwrite}
use pcopy.Server.Arrival.{Taken, tcp_read-Taken, length-overwrite}
use pcopy.Client.{Upload, read_file, write_all, buf_slice, send_rest}

-- A client where writing works: what it has sent, the file that it has yet to read, and its buffer.
abbrev pub uploading : List ℕ → List (ℕ × List ℕ) → List ℕ → Upload
uploading sent cs buf = record {
  stream = record { incoming = []; sendings = []; outgoing = sent };
  reads = deliveries cs [];
  buf = buf;
}

pub read_file_at :
    (sent : List ℕ) (cs left : List (ℕ × List ℕ)) (buf buf' : List ℕ) (i n : ℕ)
    → tcp_read (deliveries cs []) buf i ≡ ok (n, buf', deliveries left [])
    → read_file i (uploading sent cs buf) ≡ (ok n, uploading sent left buf')
unfolding read_file
read_file_at sent cs left buf buf' i n e = rw e

module _ (crc : Crc32) where
  -- What the loop behind the first buffer leaves.
  pub record Onward (fuel : ℕ) (h : crc.Hasher) (sent : List ℕ) (cs : List (ℕ × List ℕ))
      (buf : List ℕ) : Type 0 where
    pub buf' : List ℕ
    pub hasher' : crc.Hasher
    pub run :
        send_rest crc fuel h (uploading sent cs buf)
        ≡ (ok hasher', uploading (sent ++ delivered cs) [] buf')
    pub digest : crc.finalize hasher' ≡ crc.finalize (crc.update h (delivered cs))

  send_rest-round :
      (fuel n : ℕ) (h : crc.Hasher) (sent got buf buf' : List ℕ) (cs left : List (ℕ × List ℕ))
      → tcp_read (deliveries cs []) buf 0 ≡ ok (n, buf', deliveries left [])
      → 0 < n
      → slice buf' 0 n ≡ some got
      → send_rest crc (suc fuel) h (uploading sent cs buf)
        ≡ send_rest crc fuel (crc.update h got) (uploading (sent ++ got) left buf')
  unfolding send_rest buf_slice write_all Stream.write_all
  send_rest-round fuel n h sent got buf buf' cs left read pos front =
      let some_bytes : (n == 0) ≡ false = ground arith in
      rw (read_file_at sent cs left buf buf' 0 n read, some_bytes, front)

  send_rest-end :
      (fuel : ℕ) (h : crc.Hasher) (sent buf : List ℕ)
      → send_rest crc (suc fuel) h (uploading sent [] buf) ≡ (ok h, uploading sent [] buf)
  unfolding send_rest read_file tcp_read
  send_rest-end fuel h sent buf = rw (ltb_of_le (length buf) 0 (omega arith))

  slice-overwrite :
      (buf got : List ℕ) (n : ℕ) → length got ≡ n → slice (overwrite buf 0 got) 0 n ≡ some got
  unfolding overwrite
  slice-overwrite buf got n size =
      let from_zero : 0 + n ≡ n = omega arith in
      rw (← from_zero) (
        slice_at (got ++ drop (0 + length got) buf) 0 n got (drop (0 + length got) buf) refl size
          (omega arith))

  pub send_rest-Onward :
      (fuel : ℕ) (h : crc.Hasher) (sent : List ℕ) (cs : List (ℕ × List ℕ)) (buf : List ℕ)
      → length buf ≡ 1024
      → length (delivered cs) < fuel
      → Onward fuel h sent cs buf
  send_rest-Onward zero h sent cs buf size enough = absurd (omega arith)
  send_rest-Onward (suc fuel) h sent [] buf size enough = record {
    buf' = buf;
    hasher' = h;
    run = send_rest-end fuel h sent buf ∙ rw append-nil;
    digest = sym (crc.update-nil h);
  }
  send_rest-Onward (suc fuel) h sent ((x, bytes) ∷ cs) buf size enough =
      let t : Taken buf 0 ((x, bytes) ∷ cs) [] =
        tcp_read-Taken buf 0 x bytes cs [] (omega (arith, size)) in
      let buf1 : List ℕ = overwrite buf 0 t.got in
      let total : length (delivered ((x, bytes) ∷ cs)) ≡ t.count + length (delivered t.left) =
        omega (arith, ap length t.split, length-append t.got (delivered t.left), t.got-length) in
      let room : 0 + length t.got ≤ length buf = omega (arith, t.fits, t.got-length) in
      let r : Onward fuel (crc.update h t.got) (sent ++ t.got) t.left buf1 =
        send_rest-Onward fuel (crc.update h t.got) (sent ++ t.got) t.left buf1
          (length-overwrite buf 0 t.got room ∙ size) (omega (arith, total, t.some_bytes)) in
      record {
        buf' = r.buf';
        hasher' = r.hasher';
        run =
            send_rest-round fuel t.count h sent t.got buf buf1 ((x, bytes) ∷ cs) t.left t.read
              t.some_bytes (slice-overwrite buf t.got t.count t.got-length)
            ∙ r.run
            ∙ ap (λ (out : List ℕ). (ok r.hasher', uploading out [] r.buf'))
                (append_assoc sent t.got (delivered t.left) ∙ ap (λ b. sent ++ b) t.split);
        digest =
            r.digest
            ∙ crc.update-update h t.got (delivered t.left)
            ∙ ap (λ b. crc.finalize (crc.update h b)) t.split;
      }
