-- ===== src/Client/Transfer.antt =====
-- A file from the client to the disk of the server.
use pcopy.Prelude.{ℕ, suc, ◌+◌, ◌≤◌, ◌≡◌, refl, ap, ◌∙◌, List, [], ◌∷◌, length, true, none}
use pcopy.Prelude.Outcome.{Outcome, ok}
use pcopy.Rust.IoError.{IoError}
use pcopy.Rust.Path.{Paths, strip_slash, join}
use pcopy.Rust.Disk.{Disk, made_folder, created, wrote}
use pcopy.Crates.ByteOrder.{ByteOrder}
use pcopy.Crates.Crc32.{Crc32}
use pcopy.Relay.Stream.{Delivery, chunk}
use pcopy.Server.Reader.{tcp_stream}
use pcopy.Server.Session.{Session}
use pcopy.Server.Folder.{parent_folder}
use pcopy.Server.Request.{serve, ok_reply}
use pcopy.Server.Request.Whole.{serve_whole}
use pcopy.Client.{send_file, get_checksum_bytes}
use pcopy.Client.Whole.{opened, send_file_whole}

module _ ⦃order : ByteOrder⦄ ⦃paths : Paths⦄ (crc : Crc32) (disk : Disk) (root p content : List ℕ)
    (size : 15 + length p + length content ≤ 1024) (text : paths.is_utf8 p ≡ true) where
  abbrev sent_by_client : ℕ → List ℕ
  sent_by_client fuel =
      (send_file crc (suc fuel) p (length content) (opened content)).1.stream.outgoing

  -- What the client sends for a file, the server saves: where it arrives by one read, the server answers
  -- OK and has made the folder of the path under its root, created the file and written exactly the
  -- content. This holds for a path that is text and a request of at most 1024 bytes, where the client's
  -- first read brings the file, writing works on both sides and the disk takes what it is asked.
  pub serve-send_file :
      (fuel : ℕ) (later : List Delivery) (folder : List ℕ)
      → paths.is_utf8 root ≡ true
      → parent_folder (join root (strip_slash p)) ≡ ok folder
      → disk.create_dir_all folder ≡ none
      → disk.create (join root (strip_slash p)) ≡ none
      → disk.write content ≡ ok (length content)
      → ((serve crc disk root (chunk (sent_by_client fuel) ∷ later)).0 ≡ ok ok_reply)
        × ((serve crc disk root (chunk (sent_by_client fuel) ∷ later)).1.effects
            ≡ made_folder folder ∷ created (join root (strip_slash p)) ∷ wrote content ∷ [])
  unfolding get_checksum_bytes
  serve-send_file fuel later folder root_text parent made create writes =
      let (_, sent) = send_file_whole crc p content size fuel in
      let saved =
        serve_whole crc disk root (get_checksum_bytes crc p) (get_checksum_bytes crc content) p
          content (crc.finalize-lt _) (crc.finalize-lt _) size text later folder root_text refl refl
          parent made create writes in
      let run = ap (λ (bytes : List ℕ). serve crc disk root (chunk bytes ∷ later)) sent ∙ saved in
      (
        ap (λ (r : Outcome IoError (List ℕ) × Session (List Delivery)). r.0) run,
        ap (λ (r : Outcome IoError (List ℕ) × Session (List Delivery)). r.1.effects) run,
      )
