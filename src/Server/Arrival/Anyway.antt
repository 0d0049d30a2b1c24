-- ===== src/Server/Arrival/Anyway.antt =====
-- A connection on which a request for a file arrives in pieces, wherever it is cut.
use pcopy.Prelude.{
  ℕ, ◌+◌, ◌^◌, ◌≤◌, ◌<◌, ◌≡◌, ◌∙◌, refl, List, [], ◌∷◌, ◌++◌, length, true, none, leb, ◌==◌, ==_iff,
  Bool-cases, ◌⊎◌, inl, inr,
}
use pcopy.Prelude.BigEndian.{to_be}
use pcopy.Prelude.Outcome.{Outcome, ok, panic}
use pcopy.Prelude.Exec.{Exec, ◌>>=◌}
use pcopy.Rust.IoError.{IoError}
use pcopy.Rust.Path.{Paths, strip_slash, join}
use pcopy.Rust.Disk.{Disk, Effect, made_folder, created}
use pcopy.Crates.ByteOrder.{ByteOrder}
use pcopy.Crates.Crc32.{Crc32}
use pcopy.Relay.Stream.{Delivery}
use pcopy.Relay.FrameHelper.Reading.{deliveries, delivered}
use pcopy.Server.Reader.{tcp_stream}
use pcopy.Server.Session.{Session, BufferState, read_checksum}
use pcopy.Server.Folder.{parent_folder}
use pcopy.Server.Folder.Whole.{path_fields}
use pcopy.Server.File.Whole.{file_fields}
use pcopy.Server.File.Parts.{finish}
use pcopy.Server.File.{compare_checksum, Receiving, save_file}
use pcopy.Server.Request.{serve, file_reply, ok_reply, error_reply}
use pcopy.Server.Arrival.{At}
use pcopy.Server.Arrival.Fields.{after}
use pcopy.Server.Arrival.Pieces.{writes, joined}
use pcopy.Server.Arrival.Stops.{Stops}
use pcopy.Server.Arrival.Begun.{At-Begun}
use pcopy.Server.Arrival.Header.{content_at, receiving, Header, At-Header}
use pcopy.Server.Arrival.Opening.{opening, Opened, deliveries-Opened, serve-file}
use pcopy.Server.Arrival.Saved.{with_effects, Ending, answer_to, At-Ending}

-- What may come of a request whose content has the digest `d` and comes with the checksum `m`.
abbrev pub Answered : Outcome IoError (List ℕ) → ℕ → ℕ → Type 0
Answered reply m d = (reply ≡ panic) ⊎ (reply ≡ ok error_reply) ⊎ ((reply ≡ ok ok_reply) × (m ≡ d))

answer_to-Answered : (i m d : ℕ) → Answered (ok (answer_to i m d)) m d
answer_to-Answered i m d = elim (Bool-cases (leb (i + 4) 1024)) [
  | inl fits ↦ elim (Bool-cases (m == d)) [
    | inl right ↦ inr (inr (rw (fits, right) refl, (==_iff m d).0 right))
    | inr wrong ↦ inr (inl (rw (fits, wrong) refl))
  ]
  | inr over ↦ inr (inl (rw over refl))
]

module _ ⦃order : ByteOrder⦄ ⦃paths : Paths⦄ (crc : Crc32) (disk : Disk)
    (root p folder content : List ℕ) (text : paths.is_utf8 p ≡ true)
    (root_text : paths.is_utf8 root ≡ true)
    (parent : parent_folder (join root (strip_slash p)) ≡ ok folder)
    (made : disk.create_dir_all folder ≡ none)
    (creates : disk.create (join root (strip_slash p)) ≡ none)
    (writes_all : (bytes : List ℕ) → disk.write bytes ≡ ok (length bytes))
    (takes_all : (bytes : List ℕ) → disk.write_all bytes ≡ none) (k m : ℕ)
    (right : crc.finalize (crc.update crc.new p) ≡ k) (small : k < 2 ^ 32) (small' : m < 2 ^ 32)
    (fits : length content < 2 ^ 32) (header : content_at p 1 ≤ 1024) where
  abbrev path : List ℕ
  path = join root (strip_slash p)

  -- What a saved file has done to the disk.
  abbrev done : List (List ℕ) → List Effect
  done pieces = made_folder folder ∷ created path ∷ writes pieces

  abbrev digest : ℕ
  digest = crc.finalize (crc.update crc.new content)

  -- The end of the request: from the end of the loop to the answer.
  record Judged (s : Session (List Delivery)) (effects : List Effect)
      (run : Outcome IoError (BufferState × List ℕ) × Session (List Delivery)) : Type 0 where
    result : Outcome IoError (BufferState × List ℕ)
    buf' : List ℕ
    socket' : List Delivery
    pieces : List (List ℕ)
    ends : run ≡ (result, with_effects s buf' socket' (effects ++ writes pieces))
    same_content : joined pieces ≡ content
    answered : Answered (file_reply result) m digest

  Stops-Judged :
      (run : Exec (Session (List Delivery)) IoError (Receiving crc.Hasher))
      (s : Session (List Delivery)) (later : List Delivery) (rest : List ℕ)
      → Stops crc (run s) crc.new s.effects later content (to_be 4 m ++ rest)
      → Judged s s.effects ((run >>= finish crc disk path) s)
  unfolding file_reply
  Stops-Judged run s later rest t = elim t.ends [
    | inl q ↦
        let s' : Session (List Delivery) =
          with_effects s t.buf' t.socket' (s.effects ++ writes t.pieces) in
        let e : Ending s' (answer_to q.start m (crc.finalize q.hasher'))
            ((read_checksum crc q.end q.start >>= compare_checksum crc disk q.hasher' path) s') =
          At-Ending crc disk q.hasher' path q.end q.start m s' later rest q.then_at q.same_length
            small' in
        record {
          result = e.result;
          buf' = e.buf';
          socket' = e.socket';
          pieces = t.pieces;
          ends = rw q.runs e.ends;
          same_content = t.content;
          answered = rw (e.replies, q.digest) (answer_to-Answered q.start m digest);
        }
    | inr q ↦ record {
      result = panic;
      buf' = t.buf';
      socket' = t.socket';
      pieces = t.pieces;
      ends = rw q refl;
      same_content = t.content;
      answered = inl refl;
    }
  ]

  At-Judged :
      (end : ℕ) (s : Session (List Delivery)) (later : List Delivery) (rest : List ℕ)
      → At s.buf s.socket 1 end later (path_fields p k (file_fields content m rest))
      → length s.buf ≡ 1024
      → Judged s
          ((s.effects ++ made_folder folder ∷ []) ++ created path ∷ [])
          (save_file crc disk root end 1 s)
  At-Judged end s later rest a size =
      let todo : List ℕ = content ++ (to_be 4 m ++ rest) in
      let d : Header crc disk root p folder text root_text parent made creates end 1
          (length content) s later todo =
        At-Header crc disk root p folder text root_text parent made creates end 1 k (length content)
          s later todo a right small fits size header in
      let s2 : Session (List Delivery) = record (after s d.buf' d.socket') {
        effects = (s.effects ++ made_folder folder ∷ []) ++ created path ∷ [];
      } in
      let j : Judged s2 s2.effects (
          (receiving crc disk d.end' (content_at p 1) (length content) >>= finish crc disk path)
            s2) =
        Stops-Judged (receiving crc disk d.end' (content_at p 1) (length content)) s2 later rest (
          At-Begun crc disk writes_all takes_all d.end' (content_at p 1) s2 later content
            (to_be 4 m ++ rest) d.then_at (d.same_length ∙ size) fits) in
      record {
        result = j.result;
        buf' = j.buf';
        socket' = j.socket';
        pieces = j.pieces;
        ends = d.run ∙ j.ends;
        same_content = j.same_content;
        answered = j.answered;
      }

  -- A connection on which a request to save a file arrives in pieces of any size, cut anywhere, is handled
  -- like this, for a file of any length and whatever comes behind the request: the server makes the folder
  -- of the path under its root, creates the file and writes exactly the content to it, piece by piece.
  -- Then its task panics, or it answers ERROR, or it answers OK, and OK only where the checksum of the
  -- content is right. This holds for a path and a root that are UTF-8, a right checksum of the path, a path
  -- that leaves room in the buffer for the length of the file, a content below 2 ^ 32 bytes, and a disk
  -- that takes what it is asked.
  pub serve_anyway :
      (cs : List (ℕ × List ℕ)) (later : List Delivery) (rest : List ℕ)
      → delivered cs ≡ 2 ∷ path_fields p k (file_fields content m rest)
      → Answered (serve crc disk root (deliveries cs later)).0 m digest
        × (pieces : List (List ℕ)) × ((serve crc disk root (deliveries cs later)).1.effects
            ≡ done pieces)
        × (joined pieces ≡ content)
  serve_anyway cs later rest request =
      let socket : List Delivery = deliveries cs later in
      let todo : List ℕ = path_fields p k (file_fields content m rest) in
      let o : Opened 2 socket later todo = deliveries-Opened 2 cs later todo request in
      let j : Judged (after (opening socket) o.buf' o.socket')
          (made_folder folder ∷ created path ∷ [])
          (save_file crc disk root o.count 1 (after (opening socket) o.buf' o.socket')) =
        At-Judged o.count (after (opening socket) o.buf' o.socket') later rest o.then_at
          o.same_length in
      let run = serve-file crc disk root socket later todo o _ _ j.ends in
      (rw run j.answered, j.pieces, rw run refl, j.same_content)
