-- ===== src/Server/Arrival/Made.antt =====
-- A connection on which a request for a folder arrives in pieces.
use pcopy.Prelude.{ℕ, ◌+◌, ◌^◌, ◌≤◌, ◌<◌, ◌≡◌, ap, arith, List, [], ◌∷◌, length, true, none}
use pcopy.Prelude.Outcome.{Outcome, ok}
use pcopy.Rust.IoError.{IoError}
use pcopy.Rust.Path.{Paths, strip_slash, join}
use pcopy.Rust.Disk.{Disk, made_folder}
use pcopy.Crates.ByteOrder.{ByteOrder}
use pcopy.Crates.Crc32.{Crc32}
use pcopy.Relay.Stream.{Delivery}
use pcopy.Relay.FrameHelper.Reading.{deliveries, delivered}
use pcopy.Server.Reader.{tcp_stream}
use pcopy.Server.Session.{Session}
use pcopy.Server.Folder.{parent_folder}
use pcopy.Server.Folder.Whole.{path_fields}
use pcopy.Server.Request.{serve, folder_reply, ok_reply}
use pcopy.Server.Arrival.Fields.{after}
use pcopy.Server.Arrival.Opening.{opening, Opened, deliveries-Opened, serve-folder}
use pcopy.Server.Arrival.Folder.{FolderRun, At-FolderRun}

module _ ⦃order : ByteOrder⦄ ⦃paths : Paths⦄ (crc : Crc32) (disk : Disk) (root p folder : List ℕ)
    (text : paths.is_utf8 p ≡ true) (root_text : paths.is_utf8 root ≡ true)
    (parent : parent_folder (join root (strip_slash p)) ≡ ok folder)
    (made : disk.create_dir_all folder ≡ none) where
  -- A connection on which a request for a folder arrives in pieces of any size, with anything behind it,
  -- is answered OK, and all that is done on the disk is that the folder in which the path lies is made
  -- under the root. This holds for a path and a root that are UTF-8, a right checksum, a path that leaves
  -- room for the fields in the buffer, and a disk that makes the folder.
  pub made_in_pieces :
      (k : ℕ) (cs : List (ℕ × List ℕ)) (later : List Delivery) (rest : List ℕ)
      → crc.finalize (crc.update crc.new p) ≡ k
      → k < 2 ^ 32
      → 7 + length p ≤ 1024
      → delivered cs ≡ 1 ∷ path_fields p k rest
      → ((serve crc disk root (deliveries cs later)).0 ≡ ok ok_reply)
        × ((serve crc disk root (deliveries cs later)).1.effects ≡ made_folder folder ∷ [])
  unfolding folder_reply
  made_in_pieces k cs later rest right small room request =
      let socket : List Delivery = deliveries cs later in
      let todo : List ℕ = path_fields p k rest in
      let o : Opened 1 socket later todo = deliveries-Opened 1 cs later todo request in
      let t : Session (List Delivery) = after (opening socket) o.buf' o.socket' in
      let f : FolderRun crc disk root p folder text root_text parent made o.count 1 t later rest =
        At-FolderRun crc disk root p folder text root_text parent made o.count 1 k t later rest
          o.then_at right small (omega arith) (omega (arith, o.same_length)) in
      let served = serve-folder crc disk root socket later todo o _ _ f.run in
      (
        ap (λ (o : Outcome IoError (List ℕ) × Session (List Delivery)). o.0) served,
        ap (λ (o : Outcome IoError (List ℕ) × Session (List Delivery)). o.1.effects) served,
      )
