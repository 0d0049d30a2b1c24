-- ===== src/Client/Folder.antt =====
-- client/client.rs: `Client`, with the folder that it sends.
use pcopy.Prelude.{
  ℕ, ◌+◌, ◌^◌, ◌≤◌, ◌<◌, ◌≡◌, refl, ap, ◌∙◌, Bool, true, false, List, [], ◌∷◌, ◌++◌, length,
  append_assoc, append-nil, if◌then◌else◌, Option, none, some, All,
}
use pcopy.Prelude.Outcome.{Outcome, ok, err, panic, stuck}
use pcopy.Prelude.Exec.{Exec, continue}
use pcopy.Rust.IoError.{IoError}
use pcopy.Rust.Text.{decimal, colon}
use pcopy.Crates.Crc32.{Crc32}
use pcopy.Relay.FrameHelper.Reading.{delivered}
use pcopy.Server.Request.Whole.{save_request}
use pcopy.Client.{Upload, get_checksum_bytes, send_file}
use pcopy.Client.Rest.{uploading}
use pcopy.Client.Pieces.{send_file_pieces}

pub record Client : Type 0 where
  pub server_ip : List ℕ
  pub server_port : ℕ

unfoldable pub init : List ℕ → ℕ → Client
init server_ip server_port = record { server_ip = server_ip; server_port = server_port }

unfoldable pub server_address : Client → List ℕ
server_address c = (c.server_ip ++ colon ∷ []) ++ decimal c.server_port

-- An entry of the folder, as `WalkDir` finds it.
pub record Entry : Type 0 where
  pub path : List ℕ
  pub is_dir : Bool

-- `filter_map(Result::ok)` and the filter on folders: `none` is an entry that cannot be read.
unfoldable pub files : List (Option Entry) → List (List ℕ)
files [] = []
files (none ∷ more) = files more
files (some e ∷ more) = if e.is_dir then files more else e.path ∷ files more

module _ (crc : Crc32) (connect : List ℕ → List ℕ → Outcome IoError (ℕ × Upload)) where
  -- Each file goes out on a connection of its own; the state is what was sent on the connections so
  -- far. `connect` connects to an address and opens the file at a path, with its length; where it fails
  -- the client panics.
  unfoldable pub send_files : ℕ → List ℕ → List (List ℕ) → Exec (List (List ℕ)) IoError (Unit {0})
  send_files fuel address [] done = (ok tt, done)
  send_files fuel address (path ∷ paths) done = elim (connect address path) [
    | ok (len, u) ↦
        let (r, u') = send_file crc fuel path len u in
        continue r (λ _. send_files fuel address paths) (done ++ u'.stream.outgoing ∷ [])
    | err e ↦ (panic, done)
    | panic ↦ (panic, done)
    | stuck ↦ (stuck, done)
  ]

  unfoldable pub send_folder :
      ℕ → Client → List (Option Entry) → Exec (List (List ℕ)) IoError (Unit {0})
  unfolding send_files
  send_folder fuel client entries = send_files fuel (server_address client) (files entries)

-- A file as the client finds it: its path, and what the reads of it bring.
pub record Source : Type 0 where
  pub path : List ℕ
  pub pieces : List (ℕ × List ℕ)

abbrev pub paths : List Source → List (List ℕ)
paths [] = []
paths (f ∷ fs) = f.path ∷ paths fs

-- The files among the entries, in their order.
pub data Found : List (Option Entry) → List Source → Type 0 where
  no_more : Found [] []
  unreadable : {es : List (Option Entry)} {fs : List Source} → Found es fs → Found (none ∷ es) fs
  folder :
      {es : List (Option Entry)} {fs : List Source} (path : List ℕ)
      → Found es fs
      → Found (some (record { path = path; is_dir = true }) ∷ es) fs
  file :
      {es : List (Option Entry)} {fs : List Source} (f : Source)
      → Found es fs
      → Found (some (record { path = f.path; is_dir = false }) ∷ es) (f ∷ fs)

files-Found : {es : List (Option Entry)} {fs : List Source} → Found es fs → files es ≡ paths fs
unfolding files
files-Found no_more = refl
files-Found (unreadable r) = files-Found r
files-Found (folder path r) = files-Found r
files-Found (file f r) = rw (files-Found r)

module _ (crc : Crc32) (connect : List ℕ → List ℕ → Outcome IoError (ℕ × Upload)) (fuel : ℕ)
    (client : Client) where
  -- A file that can be opened while the server takes connections, on which writing works. Its path fits
  -- into the buffer, its length into 32 bits, and the fuel is more than its length.
  abbrev pub CanSend : Source → Type 0
  CanSend f =
      (connect (server_address client) f.path
        ≡ ok (length (delivered f.pieces), uploading [] f.pieces []))
      × (11 + length f.path ≤ 1024)
      × (length (delivered f.pieces) < 2 ^ 32)
      × (length (delivered f.pieces) < fuel)

  abbrev pub requests : List Source → List (List ℕ)
  requests [] = []
  requests (f ∷ fs) =
      save_request f.path (get_checksum_bytes crc f.path) (delivered f.pieces)
        (get_checksum_bytes crc (delivered f.pieces))
      ∷ requests fs

  send_files_readable :
      (fs : List Source) (done : List (List ℕ))
      → All CanSend fs
      → send_files crc connect fuel (server_address client) (paths fs) done
        ≡ (ok tt, done ++ requests fs)
  unfolding send_files
  send_files_readable [] done h = rw append-nil
  send_files_readable (f ∷ fs) done ((opens, fits, small, enough), h) =
      let (fine, sent) =
        send_file_pieces crc f.path (delivered f.pieces) fits small fuel f.pieces refl enough in
      let request : List ℕ =
        save_request f.path (get_checksum_bytes crc f.path) (delivered f.pieces)
          (get_checksum_bytes crc (delivered f.pieces)) in
      rw (opens, fine, sent)
        (send_files_readable fs (done ++ request ∷ []) h
          ∙ ap (λ (out : List (List ℕ)). (ok tt, out))
              (append_assoc done (request ∷ []) (requests fs)))

  -- A folder goes out as one whole request for each file, in the order in which they are found and on a
  -- connection of its own, where for each file the connection and the opening work, writing works, its
  -- path has at most 1013 bytes and its content is below 2 ^ 32 bytes and reads to its end, with fuel for
  -- a read of each byte and one more. Folders, and entries that cannot be read, are passed over.
  pub send_folder_readable :
      (entries : List (Option Entry)) (fs : List Source)
      → Found entries fs
      → All CanSend fs
      → send_folder crc connect fuel client entries [] ≡ (ok tt, requests fs)
  unfolding send_folder
  send_folder_readable entries fs found h = rw (files-Found found) (send_files_readable fs [] h)
