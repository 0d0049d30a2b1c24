-- ===== src/Client/Saving.antt =====
-- A file of any length from the client to the disk of the server.
use pcopy.Prelude.{
  ℕ, ◌+◌, ◌^◌, ◌≤◌, ◌<◌, ◌≡◌, ◌∙◌, refl, sym, ap, arith, List, [], ◌∷◌, ◌++◌, length, append_assoc,
  append-nil, append_cut, true, none, leb, ◌==◌, ==_of_eq, if◌then◌else◌, Bool-cases, inl, inr, ◌⊎◌,
}
use pcopy.Prelude.BigEndian.{to_be, length-to_be}
use pcopy.Prelude.Outcome.{Outcome, ok, panic}
use pcopy.Rust.IoError.{IoError}
use pcopy.Rust.Path.{Paths, strip_slash, join}
use pcopy.Rust.Disk.{Disk, Effect, made_folder, created}
use pcopy.Crates.ByteOrder.{ByteOrder}
use pcopy.Crates.Crc32.{Crc32}
use pcopy.Relay.Stream.{Delivery}
use pcopy.Relay.FrameHelper.Reading.{deliveries, delivered}
use pcopy.Server.Reader.{tcp_stream}
use pcopy.Server.Folder.{parent_folder}
use pcopy.Server.Request.{serve, ok_reply, error_reply}
use pcopy.Server.Request.Whole.{save_request}
use pcopy.Server.Arrival.Pieces.{writes, joined}
use pcopy.Server.Arrival.File.{front_fields, stands_at}
use pcopy.Server.Arrival.Saved.{answer_to, serve_pieces}
use pcopy.Server.Arrival.Anyway.{Answered, serve_anyway}
use pcopy.Client.{send_file, get_checksum_bytes}
use pcopy.Client.Rest.{uploading}
use pcopy.Client.Pieces.{send_file_pieces}

-- A request is its front and its last checksum.
save_request-front :
    (p : List ℕ) (k : ℕ) (content : List ℕ) (m : ℕ)
    → save_request p k content m ≡ (2 ∷ front_fields p content k) ++ to_be 4 m
save_request-front p k content m = simp (append_assoc, append-nil)

-- A right checksum is answered by whether it fits into the buffer.
answer_right :
    (i m : ℕ)
    → (m == m) ≡ true
    → answer_to i m m ≡ (if leb (i + 4) 1024 then ok_reply else error_reply)
answer_right i m right = elim (Bool-cases (leb (i + 4) 1024)) [
  | inl fits ↦ rw (fits, right)
  | inr over ↦ rw over
]

-- A panic, ERROR or OK.
abbrev pub Replied : Outcome IoError (List ℕ) → Type 0
Replied reply = (reply ≡ panic) ⊎ (reply ≡ ok error_reply) ⊎ (reply ≡ ok ok_reply)

Answered-Replied : (reply : Outcome IoError (List ℕ)) (m d : ℕ) → Answered reply m d → Replied reply
Answered-Replied reply m d (inl p) = inl p
Answered-Replied reply m d (inr (inl e)) = inr (inl e)
Answered-Replied reply m d (inr (inr (o, right))) = inr (inr o)

module _ ⦃order : ByteOrder⦄ ⦃paths : Paths⦄ (crc : Crc32) (disk : Disk)
    (root p folder content : List ℕ) (text : paths.is_utf8 p ≡ true)
    (root_text : paths.is_utf8 root ≡ true)
    (parent : parent_folder (join root (strip_slash p)) ≡ ok folder)
    (made : disk.create_dir_all folder ≡ none)
    (creates : disk.create (join root (strip_slash p)) ≡ none)
    (writes_all : (bytes : List ℕ) → disk.write bytes ≡ ok (length bytes))
    (takes_all : (bytes : List ℕ) → disk.write_all bytes ≡ none)
    (header_fits : 11 + length p ≤ 1024) (fits : length content < 2 ^ 32) where
  -- What the client sends for a file that it reads in the pieces `cs`.
  abbrev sent_for : ℕ → List (ℕ × List ℕ) → List ℕ
  sent_for fuel cs = (send_file crc fuel p (length content) (uploading [] cs [])).1.stream.outgoing

  abbrev done : List (List ℕ) → List Effect
  done pieces = made_folder folder ∷ created (join root (strip_slash p)) ∷ writes pieces

  -- What the client sends for a file, the server saves, however the client reads the file in pieces and
  -- the network cuts what is sent, as long as it cuts in front of the last four bytes: the server makes
  -- the folder of the path under its root, creates the file and writes exactly the content to it. It
  -- answers OK if four more bytes fit into its buffer behind the content, and ERROR otherwise, by the
  -- lengths of path and content alone. This holds for a path that is text and leaves room in the buffer,
  -- a content below 2 ^ 32 bytes, and a disk that takes what it is asked.
  pub serve-send_file_pieces :
      (fuel : ℕ) (cs ds es : List (ℕ × List ℕ)) (later : List Delivery)
      → delivered cs ≡ content
      → length content < fuel
      → delivered ds ++ delivered es ≡ sent_for fuel cs
      → length (delivered es) ≡ 4
      → ((serve crc disk root (deliveries ds (deliveries es later))).0
          ≡ ok (if leb (stands_at p content 1 + 4) 1024 then ok_reply else error_reply))
        × (pieces : List (List ℕ)) × ((serve crc disk root
              (deliveries ds (deliveries es later))).1.effects
            ≡ done pieces)
        × (joined pieces ≡ content)
  unfolding get_checksum_bytes
  serve-send_file_pieces fuel cs ds es later file enough cut four =
      let k : ℕ = get_checksum_bytes crc p in
      let m : ℕ = get_checksum_bytes crc content in
      let (_, sent) = send_file_pieces crc p content header_fits fits fuel cs file enough in
      let (front, last) =
        append_cut (delivered ds) (delivered es) (2 ∷ front_fields p content k) (to_be 4 m)
          (cut ∙ sent ∙ save_request-front p k content m) (four ∙ sym (length-to_be 4 m)) in
      let (reply, pieces, effects, same) =
        serve_pieces crc disk root p folder content text root_text parent made creates writes_all
          takes_all k m refl (crc.finalize-lt _) (crc.finalize-lt _) fits (omega arith) ds es later
          [] front (last ∙ sym (append-nil (to_be 4 m))) in
      let right : (m == m) ≡ true = ==_of_eq m m refl in
      (reply ∙ ap (λ a. ok a) (answer_right (stands_at p content 1) m right), pieces, effects, same)

  -- What the client sends for a file, the server writes to the disk, however the client reads the file in
  -- pieces and wherever the network cuts what is sent: the server makes the folder of the path under its
  -- root, creates the file and writes exactly the content to it. Then its task panics, or it answers OK
  -- or ERROR. This holds for a path that is text and leaves room in the buffer, a content below 2 ^ 32
  -- bytes, and a disk that takes what it is asked.
  pub serve-send_file_anyway :
      (fuel : ℕ) (cs ds : List (ℕ × List ℕ)) (later : List Delivery)
      → delivered cs ≡ content
      → length content < fuel
      → delivered ds ≡ sent_for fuel cs
      → Replied (serve crc disk root (deliveries ds later)).0
        × (pieces : List (List ℕ)) × ((serve crc disk root (deliveries ds later)).1.effects
            ≡ done pieces)
        × (joined pieces ≡ content)
  unfolding get_checksum_bytes
  serve-send_file_anyway fuel cs ds later file enough cut =
      let k : ℕ = get_checksum_bytes crc p in
      let m : ℕ = get_checksum_bytes crc content in
      let (_, sent) = send_file_pieces crc p content header_fits fits fuel cs file enough in
      let (answered, pieces, effects, same) =
        serve_anyway crc disk root p folder content text root_text parent made creates writes_all
          takes_all k m refl (crc.finalize-lt _) (crc.finalize-lt _) fits (omega arith) ds later []
          (cut ∙ sent) in
      (Answered-Replied _ m m answered, pieces, effects, same)
