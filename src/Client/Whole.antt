-- ===== src/Client/Whole.antt =====
-- A file that one read brings into the first buffer.
use pcopy.Prelude.{
  append-nil, ℕ, suc, ◌+◌, ◌-◌, ◌^◌, ◌≤◌, ◌≡◌, refl, sym, arith, min, List, [], ◌∷◌, ◌++◌, length,
  drop, replicate, slice, slice_at, take_all, take-append, drop-append, append_assoc, length-append,
  length-replicate, some, ltb_of_lt, ltb_of_le, ==_of_eq,
}
use pcopy.Prelude.BigEndian.{to_be, length-to_be}
use pcopy.Prelude.Outcome.{ok}
use pcopy.Crates.Crc32.{Crc32}
use pcopy.Relay.Stream
use pcopy.Relay.Stream.{Stream, Delivery, chunk}
use pcopy.Relay.Connection.Exchange.{quiet}
use pcopy.Server.Reader.{tcp_read, overwrite, left_over}
use pcopy.Server.Request.Whole.{save_request}
use pcopy.Client.{
  Upload, get_length_as_u16_bytes, resize, read_file, write_all, buf_slice, set_buf,
  get_checksum_bytes, send_rest, header, send_first, send_file,
}

-- The first read puts the file behind the header.
read_behind :
    (front zeros content : List ℕ)
    → length content ≤ length zeros
    → tcp_read (chunk content ∷ []) (front ++ zeros) (length front)
      ≡ ok (
        length content,
        front ++ (content ++ drop (length front + length content) (front ++ zeros)),
        [],
      )
unfolding tcp_read overwrite left_over
read_behind front zeros content h =
    let size : length (front ++ zeros) ≡ length front + length zeros = length-append front zeros in
    let all : min (length content) (length (front ++ zeros) - length front) ≡ length content =
      omega arith in
    rw (
      ltb_of_le (length (front ++ zeros)) (length front) (omega arith),
      all,
      take_all content,
      take-append (length front) front zeros refl,
      ==_of_eq (length content) (length content) refl,
    )

read_end : (buf : List ℕ) → tcp_read [] buf 0 ≡ ok (0, buf, [])
unfolding tcp_read
read_end buf = rw (ltb_of_le (length buf) 0 (omega arith))

pub slice_behind :
    (front content rest : List ℕ)
    → slice (front ++ (content ++ rest)) (length front) (length front + length content)
      ≡ some content
slice_behind front content rest =
    slice_at (front ++ (content ++ rest)) (length front) (length content) content rest
      (drop-append (length front) front (content ++ rest) refl) refl
      (omega (arith, length-append front (content ++ rest)))

pub slice_front :
    (front content rest : List ℕ)
    → slice (front ++ (content ++ rest)) 0 (length front + length content) ≡ some (front ++ content)
slice_front front content rest =
    let size : length (front ++ content) ≡ length front + length content =
      length-append front content in
    let from_zero : 0 + (length front + length content) ≡ length front + length content =
      omega arith in
    rw (← from_zero) (
      slice_at (front ++ (content ++ rest)) 0 (length front + length content) (front ++ content)
        rest (sym (append_assoc front content rest)) size (omega arith))

-- The client before it reads the file.
abbrev pub opened : List ℕ → Upload
opened content = record { stream = quiet []; reads = chunk content ∷ []; buf = [] }

module _ (crc : Crc32) where
  pub length-header :
      (p : List ℕ) (n : ℕ) → length (header crc (to_be 2 (length p)) p n) ≡ 11 + length p
  unfolding header
  length-header p n = omega (
    arith,
    length-append (to_be 2 (length p)) (p ++ (to_be 4 (get_checksum_bytes crc p) ++ to_be 4 n)),
    length-append p (to_be 4 (get_checksum_bytes crc p) ++ to_be 4 n),
    length-append (to_be 4 (get_checksum_bytes crc p)) (to_be 4 n),
    length-to_be 2 (length p),
    length-to_be 4 (get_checksum_bytes crc p),
    length-to_be 4 n,
  )

  module _ (front content : List ℕ) (size : length front + length content ≤ 1024) where
    abbrev sent_first : Upload
    sent_first = record {
      stream = record { incoming = []; sendings = []; outgoing = front ++ content };
      reads = [];
      buf =
          front
          ++ (content
              ++ drop (length front + length content) (front ++ replicate (1024 - length front) 0));
    }

    send_first_whole :
        send_first crc front (opened content) ≡ (ok (crc.update crc.new content), sent_first)
    unfolding send_first set_buf read_file buf_slice write_all Stream.write_all resize
    send_first_whole =
        let zeros : List ℕ = replicate (1024 - length front) 0 in
        let rest : List ℕ = drop (length front + length content) (front ++ zeros) in
        let room : length content ≤ length zeros =
          omega (arith, length-replicate {A = ℕ} (1024 - length front) 0) in
        rw (
          ltb_of_le 1024 (length front) (omega arith),
          read_behind front zeros content room,
          slice_behind front content rest,
          slice_front front content rest,
        )

  module _ (p content : List ℕ) (size : 15 + length p + length content ≤ 1024) where
    abbrev file_header : List ℕ
    file_header = header crc (to_be 2 (length p)) p (length content)

    -- The parts that the client writes are the request that the server reads.
    pub header-content :
        (file_header ++ content) ++ to_be 4 (get_checksum_bytes crc content)
        ≡ save_request p (get_checksum_bytes crc p) content (get_checksum_bytes crc content)
    unfolding header
    header-content = simp (append_assoc, append-nil)

    -- For a file that one read brings into the first buffer, the client writes exactly the request that
    -- has the path, the content and their checksums, where writing works and the request has at most
    -- 1024 bytes; a second read, which finds the end of the file, is enough.
    pub send_file_whole :
        (fuel : ℕ)
        → ((send_file crc (suc fuel) p (length content) (opened content)).0 ≡ ok tt)
          × ((send_file crc (suc fuel) p (length content) (opened content)).1.stream.outgoing
              ≡ save_request p (get_checksum_bytes crc p) content (get_checksum_bytes crc content))
    unfolding send_file get_length_as_u16_bytes send_rest read_file write_all Stream.write_all
        get_checksum_bytes
    send_file_whole fuel =
        let room : length file_header + length content ≤ 1024 =
          omega (arith, length-header p (length content)) in
        let first = send_first_whole file_header content room in
        let path_fits = ltb_of_lt (length p) (2 ^ 16) (omega arith) in
        let file_fits = ltb_of_lt (length content) (2 ^ 32) (omega arith) in
        (
          rw (path_fits, file_fits, first, read_end),
          rw (path_fits, file_fits, first, read_end) header-content,
        )
