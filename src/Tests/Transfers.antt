-- ===== src/Tests/Transfers.antt =====
-- Files that are saved and sent.
use pcopy.Prelude.{
  slice, some, drop, ◌++◌, ℕ, ◌≡◌, ◌≢◌, refl, arith, List, [], ◌∷◌, length, replicate,
}
use pcopy.Prelude.Outcome.{ok, panic}
use pcopy.Rust.Path.{slash}
use pcopy.Rust.Disk.{written, made_folder, created, wrote}
use pcopy.Relay.Stream.{Delivery, chunk}
use pcopy.Server.Reader.{tcp_stream}
use pcopy.Server.Session.{Session}
use pcopy.Server.File.{Receiving, take_data, save_file}
use pcopy.Server.File.Whole.{save_file_whole}
use pcopy.Server.Checked.Answer.{save_file_checked}
use pcopy.Server.File.Overread.{take_data_overread}
use pcopy.Server.Request.{serve, ok_reply}
use pcopy.Server.Request.Whole.{save_request}
use pcopy.Client.{send_file}
use pcopy.Client.Whole.{opened}
use pcopy.Client.Transfer.{serve-send_file}
use pcopy.Tests.Instances.{list_order, ascii_paths, sum, good_disk}
use pcopy.Tests.Folders.{root, inside}

-- "hi"
abbrev pub greeting : List ℕ
greeting = b'h' ∷ b'i' ∷ []

-- "/r/a" and "/r/a/b"
abbrev pub folder : List ℕ
folder = slash ∷ b'r' ∷ slash ∷ b'a' ∷ []

abbrev pub saved_path : List ℕ
saved_path = slash ∷ b'r' ∷ slash ∷ b'a' ∷ slash ∷ b'b' ∷ []

-- A request to save "hi" as "a/b", with a checksum of one byte.
abbrev saves : ℕ → Session (List Delivery)
saves m = record { socket = []; buf = save_request inside 242 greeting m; effects = [] }

abbrev saved : ℕ → Session (List Delivery)
saved m = record {
  socket = [];
  buf = save_request inside 242 greeting m;
  effects = made_folder folder ∷ created saved_path ∷ wrote greeting ∷ [];
}

-- The last two bytes of a file with one byte behind them, from the second byte of the buffer on.
abbrev ending : Session (List Delivery)
ending = record { socket = []; buf = 9 ∷ b'h' ∷ b'i' ∷ 7 ∷ []; effects = [] }

abbrev receiving : Receiving ℕ
receiving = record { end_index = 4; start_index = 1; file_data_length = 2; hasher = 0 }

take_data_overread_example :
    take_data sum good_disk receiving 3 ending
    ≡ (panic, record { socket = []; buf = ending.buf; effects = wrote greeting ∷ [] })
take_data_overread_example =
    take_data_overread sum good_disk ending receiving 3 greeting (7 ∷ []) refl refl (omega arith)
      (omega arith) (omega arith) refl

serve-send_file_example :
    ((serve sum good_disk root
        (chunk (send_file sum 1 inside 2 (opened greeting)).1.stream.outgoing ∷ [])).0
      ≡ ok ok_reply)
    × ((serve sum good_disk root
          (chunk (send_file sum 1 inside 2 (opened greeting)).1.stream.outgoing ∷ [])).1.effects
        ≡ made_folder folder ∷ created saved_path ∷ wrote greeting ∷ [])
unfolding pcopy.Tests.Instances.is_ascii pcopy.Server.Folder.parent_folder pcopy.Rust.Path.join
    pcopy.Rust.Path.strip_slash pcopy.Tests.Instances.folder_of
serve-send_file_example =
    serve-send_file sum good_disk root inside greeting (omega arith) refl 0 [] folder refl refl refl
      refl refl

-- The server saves the greeting.
saves_greeting :
    save_file sum good_disk root 20 1 (saves 209)
    ≡ (ok (record { start_index = 20; end_index = 20 }, saved_path), saved 209)
unfolding pcopy.Prelude.BigEndian.to_be pcopy.Tests.Instances.is_ascii pcopy.Tests.Instances.total
    pcopy.Server.Folder.parent_folder pcopy.Rust.Path.join pcopy.Rust.Path.strip_slash
    pcopy.Tests.Instances.folder_of
saves_greeting =
    save_file_whole sum good_disk root (saves 209) 20 1 242 209 inside greeting [] refl
      (omega arith) (omega arith) (omega arith) (omega arith) (omega arith) (omega arith) refl
      folder refl refl refl refl refl refl refl

save_file_checked_example :
    (bytes : List ℕ) × (slice (saved 209).buf 16 20 ≡ some bytes)
    × (sum.finalize (sum.new_with_initial (list_order.read_u32 bytes))
        ≡ sum.finalize (sum.update sum.new (written (saved 209).effects)))
unfolding written
save_file_checked_example =
    save_file_checked sum good_disk (λ b. refl) root 20 1 (saves 209) (saved 209)
      (record { start_index = 20; end_index = 20 }) saved_path refl saves_greeting
