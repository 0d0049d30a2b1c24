-- ===== src/Server/Arrival/Escape.antt =====
-- A connection on which a request for a folder arrives whose path begins with two slashes.
use pcopy.Prelude.{ℕ, ◌+◌, ◌^◌, ◌≤◌, ◌<◌, ◌≡◌, refl, List, [], ◌∷◌, length, true, none}
use pcopy.Prelude.Outcome.{ok}
use pcopy.Rust.Path.{Paths, strip_slash, join, slash}
use pcopy.Rust.Disk.{Disk, made_folder}
use pcopy.Crates.ByteOrder.{ByteOrder}
use pcopy.Crates.Crc32.{Crc32}
use pcopy.Relay.Stream.{Delivery}
use pcopy.Relay.FrameHelper.Reading.{deliveries, delivered}
use pcopy.Server.Reader.{tcp_stream}
use pcopy.Server.Folder.{parent_folder}
use pcopy.Server.Folder.Whole.{path_fields}
use pcopy.Server.Request.{serve, ok_reply}
use pcopy.Server.Arrival.Made.{made_in_pieces}

module _ ⦃order : ByteOrder⦄ ⦃paths : Paths⦄ (crc : Crc32) (disk : Disk) (q folder : List ℕ)
    (text : paths.is_utf8 (slash ∷ slash ∷ q) ≡ true)
    (parent : parent_folder (slash ∷ q) ≡ ok folder)
    (made : disk.create_dir_all folder ≡ none) where
  -- Only one slash is taken off, and `join` lets go of the root for a path with a slash in front.
  join-strip_slash : (root : List ℕ) → join root (strip_slash (slash ∷ slash ∷ q)) ≡ slash ∷ q
  unfolding join strip_slash
  join-strip_slash root = refl

  -- A connection on which a request for a folder arrives in pieces of any size, with anything behind it,
  -- and whose path has two slashes in front, is answered OK, and all that is done on the disk is that the
  -- folder in which the absolute path behind the first slash lies is made, whatever the folder is that
  -- the server saves under. This holds for a path and a root that are UTF-8, a right checksum, a path that
  -- leaves room for the fields in the buffer, and a disk that makes the folder.
  pub escape_in_pieces :
      (root : List ℕ) (k : ℕ) (cs : List (ℕ × List ℕ)) (later : List Delivery) (rest : List ℕ)
      → paths.is_utf8 root ≡ true
      → crc.finalize (crc.update crc.new (slash ∷ slash ∷ q)) ≡ k
      → k < 2 ^ 32
      → 7 + length (slash ∷ slash ∷ q) ≤ 1024
      → delivered cs ≡ 1 ∷ path_fields (slash ∷ slash ∷ q) k rest
      → ((serve crc disk root (deliveries cs later)).0 ≡ ok ok_reply)
        × ((serve crc disk root (deliveries cs later)).1.effects ≡ made_folder folder ∷ [])
  escape_in_pieces root k cs later rest root_text =
      made_in_pieces crc disk root (slash ∷ slash ∷ q) folder text root_text
        (rw (join-strip_slash root) parent) made k cs later rest
