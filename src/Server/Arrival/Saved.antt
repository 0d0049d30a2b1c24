-- ===== src/Server/Arrival/Saved.antt =====
-- A connection on which a request for a file arrives in pieces.
use pcopy.Prelude.{
  ℕ, ◌+◌, ◌^◌, ◌≤◌, ◌<◌, ◌≡◌, ◌∙◌, refl, ap, arith, List, [], ◌∷◌, ◌++◌, length, drop,
  length-append, true, none, leb, ◌==◌, ◌&&◌, if◌then◌else◌, Bool-cases, inl, inr,
}
use pcopy.Prelude.BigEndian.{to_be, length-to_be}
use pcopy.Prelude.Outcome.{Outcome, ok, err}
use pcopy.Prelude.Exec.{◌>>=◌}
use pcopy.Rust.IoError.{IoError, invalid_data}
use pcopy.Rust.Path.{Paths, strip_slash, join}
use pcopy.Rust.Disk.{Disk, Effect, made_folder, created}
use pcopy.Crates.ByteOrder.{ByteOrder}
use pcopy.Crates.Crc32.{Crc32}
use pcopy.Relay.Stream.{Delivery}
use pcopy.Relay.FrameHelper.Reading.{deliveries, delivered}
use pcopy.Server.Reader.{tcp_stream}
use pcopy.Server.Session.{Session, BufferState, read_checksum}
use pcopy.Server.Folder.{parent_folder}
use pcopy.Server.File.{save_file, compare_checksum}
use pcopy.Server.Request.{serve, file_reply, ok_reply, error_reply}
use pcopy.Server.Arrival.{At}
use pcopy.Server.Arrival.Fields.{after, Checksum, At-Checksum}
use pcopy.Server.Arrival.Opening.{opening, Opened, deliveries-Opened, serve-file}
use pcopy.Server.Arrival.Pieces.{writes, joined}
use pcopy.Server.Arrival.Full.{Refused, fill-Refused}
use pcopy.Server.Arrival.Header.{content_at}
use pcopy.Server.Arrival.File.{front_fields, stands_at, Body, At-Body}

-- Behind all of one part of a request, the next part is to come.
At-next :
    (buf : List ℕ) (socket : List Delivery) (i : ℕ) (cs : List (ℕ × List ℕ)) (later : List Delivery)
    (todo : List ℕ)
    → At buf socket i i (deliveries cs later) []
    → delivered cs ≡ todo
    → At buf socket i i later todo
At-next buf socket i cs later todo a e = record {
  avail = [];
  behind = drop i buf;
  coming = cs;
  in_buffer = refl;
  size = omega arith;
  room = a.room;
  on_socket =
      a.on_socket ∙ ap (λ t. deliveries t (deliveries cs later)) (nothing a.avail a.coming a.bytes);
  bytes = e;
}
  where
    nothing :
        (avail : List ℕ) (coming : List (ℕ × List ℕ)) → avail ++ delivered coming ≡ [] → coming ≡ []
    nothing [] [] e = refl
    nothing [] ((x, bytes) ∷ coming) e = cc
    nothing (y ∷ avail) coming e = cc

-- A request that was read only in part leaves the disk as it is.
abbrev pub with_effects :
    Session (List Delivery) → List ℕ → List Delivery → List Effect → Session (List Delivery)
with_effects s buf socket effects = record (after s buf socket) { effects = effects }

-- How the end of a request goes: what is answered, and that nothing more is done on the disk.
pub record Ending (s : Session (List Delivery)) (reply : List ℕ)
    (run : Outcome IoError (BufferState × List ℕ) × Session (List Delivery)) : Type 0 where
  pub result : Outcome IoError (BufferState × List ℕ)
  pub buf' : List ℕ
  pub socket' : List Delivery
  pub ends : run ≡ (result, after s buf' socket')
  pub replies : file_reply result ≡ ok reply

-- The answer to a request for a file behind which the server stands at index `i`: whether the checksum
-- fits into the buffer from there on, and is the right one.
abbrev pub answer_to : ℕ → ℕ → ℕ → List ℕ
answer_to i m k = if leb (i + 4) 1024 && (m == k) then ok_reply else error_reply

module _ ⦃order : ByteOrder⦄ ⦃paths : Paths⦄ (crc : Crc32) (disk : Disk) (h : crc.Hasher)
    (path : List ℕ) where
  compare-Ending :
      (i m : ℕ) (s : Session (List Delivery)) (state : BufferState)
      → leb (i + 4) 1024 ≡ true
      → (buf : List ℕ) (socket : List Delivery)
      → Ending s
          (answer_to i m (crc.finalize h))
          (compare_checksum crc disk h path (m, state) (after s buf socket))
  unfolding file_reply
  compare-Ending i m s state fits buf socket = elim (Bool-cases (m == crc.finalize h)) [
    | inl right ↦ record {
      result = ok (state, path);
      buf' = buf;
      socket' = socket;
      ends = rw right;
      replies = rw (fits, right);
    }
    | inr wrong ↦ record {
      result = err invalid_data;
      buf' = buf;
      socket' = socket;
      ends = rw wrong;
      replies = rw (fits, wrong);
    }
  ]

  pub At-Ending :
      (end i m : ℕ) (s : Session (List Delivery)) (later : List Delivery) (rest : List ℕ)
      → At s.buf s.socket i end later (to_be 4 m ++ rest)
      → length s.buf ≡ 1024
      → m < 2 ^ 32
      → Ending s
          (answer_to i m (crc.finalize h))
          ((read_checksum crc end i >>= compare_checksum crc disk h path) s)
  unfolding read_checksum file_reply
  At-Ending end i m s later rest a size small = elim (Bool-cases (leb (i + 4) 1024)) [
    | inl fits ↦
        let c : Checksum crc end i s later m rest =
          At-Checksum crc end i s later m rest a small (ground (arith, size)) in
        rw c.run (
          compare-Ending i m s (record { start_index = i + 4; end_index = c.end' }) fits c.buf'
            c.socket')
    | inr over ↦
        let r : Refused 4 4 end i s =
          fill-Refused 4 4 end i s later (to_be 4 m ++ rest) a
            (omega (arith, length-append (to_be 4 m) rest, length-to_be 4 m)) (ground (arith, size))
            (ground (arith, size, a.size)) in
        record {
          result = err invalid_data;
          buf' = r.buf';
          socket' = r.socket';
          ends = rw r.run;
          replies = rw over;
        }
  ]

module _ ⦃order : ByteOrder⦄ ⦃paths : Paths⦄ (crc : Crc32) (disk : Disk)
    (root p folder content : List ℕ) (text : paths.is_utf8 p ≡ true)
    (root_text : paths.is_utf8 root ≡ true)
    (parent : parent_folder (join root (strip_slash p)) ≡ ok folder)
    (made : disk.create_dir_all folder ≡ none)
    (creates : disk.create (join root (strip_slash p)) ≡ none)
    (writes_all : (bytes : List ℕ) → disk.write bytes ≡ ok (length bytes))
    (takes_all : (bytes : List ℕ) → disk.write_all bytes ≡ none) (k m : ℕ)
    (right : crc.finalize (crc.update crc.new p) ≡ k) (small : k < 2 ^ 32) (small' : m < 2 ^ 32)
    (fits : length content < 2 ^ 32) (header : content_at p 1 ≤ 1024) where
  -- What a saved file has done to the disk.
  abbrev done : List (List ℕ) → List Effect
  done pieces = made_folder folder ∷ created (join root (strip_slash p)) ∷ writes pieces

  abbrev reply : List ℕ
  reply = answer_to (stands_at p content 1) m (crc.finalize (crc.update crc.new content))

  -- The request behind its first byte.
  record Handled (end : ℕ) (s : Session (List Delivery)) : Type 0 where
    result : Outcome IoError (BufferState × List ℕ)
    buf' : List ℕ
    socket' : List Delivery
    pieces : List (List ℕ)
    run : save_file crc disk root end 1 s ≡ (
      result,
      with_effects s buf' socket' (
          ((s.effects ++ made_folder folder ∷ []) ++ created (join root (strip_slash p)) ∷ [])
          ++ writes pieces),
    )
    replies : file_reply result ≡ ok reply
    same_content : joined pieces ≡ content

  At-Handled :
      (end : ℕ) (s : Session (List Delivery)) (cs : List (ℕ × List ℕ)) (later : List Delivery)
      (rest : List ℕ)
      → At s.buf s.socket 1 end (deliveries cs later) (front_fields p content k)
      → length s.buf ≡ 1024
      → delivered cs ≡ to_be 4 m ++ rest
      → Handled end s
  At-Handled end s cs later rest a size coming =
      let b : Body crc disk root p folder content text root_text parent made creates writes_all
          takes_all end 1 s (deliveries cs later) =
        At-Body crc disk root p folder content text root_text parent made creates writes_all
          takes_all end 1 k s (deliveries cs later) a size right small header fits in
      let i : ℕ = stands_at p content 1 in
      let effects : List Effect =
        ((s.effects ++ made_folder folder ∷ []) ++ created (join root (strip_slash p)) ∷ [])
        ++ writes b.pieces in
      let t : Session (List Delivery) = with_effects s b.buf' b.socket' effects in
      let e : Ending t (answer_to i m (crc.finalize b.hasher')) (
          (read_checksum crc i i
              >>= compare_checksum crc disk b.hasher' (join root (strip_slash p)))
            t) =
        At-Ending crc disk b.hasher' (join root (strip_slash p)) i i m t later rest
          (At-next b.buf' b.socket' i cs later (to_be 4 m ++ rest) b.then_at coming) b.same_length
          small' in
      record {
        result = e.result;
        buf' = e.buf';
        socket' = e.socket';
        pieces = b.pieces;
        run = b.run ∙ e.ends;
        replies = e.replies ∙ ap (λ d. ok (answer_to i m d)) b.digest;
        same_content = b.same_content;
      }

  -- A connection on which a request to save a file arrives in pieces of any size, the content of the file
  -- cut off from its checksum, is handled like this, for a file of any length: the server makes the folder
  -- of the path under its root, creates the file and writes exactly the content to it, piece by piece. It
  -- answers OK if the checksum of the content is right and fits into the buffer behind the index at which
  -- the server stands, and ERROR otherwise. This holds for a path and a root that are UTF-8, a right
  -- checksum of the path, a path that leaves room in the buffer for the length of the file, a content below
  -- 2 ^ 32 bytes, and a disk that takes what it is asked.
  pub serve_pieces :
      (cs cs' : List (ℕ × List ℕ)) (later : List Delivery) (rest : List ℕ)
      → delivered cs ≡ 2 ∷ front_fields p content k
      → delivered cs' ≡ to_be 4 m ++ rest
      → ((serve crc disk root (deliveries cs (deliveries cs' later))).0 ≡ ok reply)
        × (pieces : List (List ℕ)) × ((serve crc disk root
              (deliveries cs (deliveries cs' later))).1.effects
            ≡ done pieces)
        × (joined pieces ≡ content)
  serve_pieces cs cs' later rest request checksum =
      let behind : List Delivery = deliveries cs' later in
      let socket : List Delivery = deliveries cs behind in
      let o : Opened 2 socket behind (front_fields p content k) =
        deliveries-Opened 2 cs behind (front_fields p content k) request in
      let h : Handled o.count (after (opening socket) o.buf' o.socket') =
        At-Handled o.count (after (opening socket) o.buf' o.socket') cs' later rest o.then_at
          o.same_length checksum in
      let run = serve-file crc disk root socket behind (front_fields p content k) o _ _ h.run in
      (
        ap (λ (o : Outcome IoError (List ℕ) × Session (List Delivery)). o.0) run ∙ h.replies,
        h.pieces,
        ap (λ (o : Outcome IoError (List ℕ) × Session (List Delivery)). o.1.effects) run,
        h.same_content,
      )
