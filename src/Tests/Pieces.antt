-- ===== src/Tests/Pieces.antt =====
-- Files that are saved and sent in pieces.
use pcopy.Prelude.{drop, ◌++◌, ℕ, ◌≡◌, ◌≢◌, refl, sym, arith, List, [], ◌∷◌, length, replicate, inr}
use pcopy.Prelude.Outcome.{ok}
use pcopy.Rust.Path.{slash}
use pcopy.Rust.Disk.{made_folder, created}
use pcopy.Relay.FrameHelper.Reading.{deliveries, delivered}
use pcopy.Server.Reader.{tcp_stream}
use pcopy.Server.Request.{serve, ok_reply, error_reply}
use pcopy.Server.Request.Whole.{save_request}
use pcopy.Server.Arrival.Pieces.{writes, joined}
use pcopy.Server.Arrival.Made.{made_in_pieces}
use pcopy.Server.Arrival.Escape.{escape_in_pieces}
use pcopy.Server.Arrival.Saved.{serve_pieces}
use pcopy.Server.Arrival.Anyway.{Answered, serve_anyway}
use pcopy.Server.Arrival.Refused.{refused_in_pieces}
use pcopy.Client.{send_file, get_checksum_bytes}
use pcopy.Client.Rest.{uploading}
use pcopy.Client.Pieces.{send_file_pieces}
use pcopy.Client.Saving.{Replied, serve-send_file_pieces, serve-send_file_anyway}
use pcopy.Tests.Instances.{list_order, ascii_paths, sum, good_disk}
use pcopy.Tests.Folders.{root, inside, sum_differs}
use pcopy.Tests.Transfers.{greeting, folder, saved_path}

-- The request to save "hi" as "a/b" up to its last checksum, in three pieces.
abbrev request_pieces : List (ℕ × List ℕ)
request_pieces =
    (2, 0 ∷ 3 ∷ b'a' ∷ [])
    ∷ (slash, b'b' ∷ 0 ∷ 0 ∷ 0 ∷ 242 ∷ 0 ∷ 0 ∷ 0 ∷ 2 ∷ b'h' ∷ [])
    ∷ (b'i', [])
    ∷ []

-- Its last checksum, in two pieces.
abbrev checksum_pieces : List (ℕ × List ℕ)
checksum_pieces = (0, 0 ∷ 0 ∷ []) ∷ (209, []) ∷ []

-- The file "hi", read in two pieces.
abbrev file_pieces : List (ℕ × List ℕ)
file_pieces = (b'h', []) ∷ (b'i', []) ∷ []

serve_pieces_example :
    ((serve sum good_disk root (deliveries request_pieces (deliveries checksum_pieces []))).0
      ≡ ok ok_reply)
    × (pieces : List (List ℕ)) × ((serve sum good_disk root
          (deliveries request_pieces (deliveries checksum_pieces []))).1.effects
        ≡ made_folder folder ∷ created saved_path ∷ writes pieces)
    × (joined pieces ≡ greeting)
unfolding pcopy.Tests.Instances.is_ascii pcopy.Server.Folder.parent_folder pcopy.Rust.Path.join
    pcopy.Rust.Path.strip_slash pcopy.Tests.Instances.folder_of pcopy.Tests.Instances.total
    pcopy.Prelude.BigEndian.to_be
serve_pieces_example =
    serve_pieces sum good_disk root inside folder greeting refl refl refl refl refl (λ b. refl)
      (λ b. refl) 242 209 refl (omega arith) (omega arith) (omega arith) (omega arith)
      request_pieces checksum_pieces [] [] refl refl

send_file_pieces_example :
    ((send_file sum 3 inside 2 (uploading [] file_pieces [])).0 ≡ ok tt)
    × ((send_file sum 3 inside 2 (uploading [] file_pieces [])).1.stream.outgoing
        ≡ save_request inside
            (get_checksum_bytes sum inside)
            greeting
            (get_checksum_bytes sum greeting))
send_file_pieces_example =
    send_file_pieces sum inside greeting (omega arith) (omega arith) 3 file_pieces refl
      (omega arith)

-- What the client writes for the file.
written :
    delivered request_pieces ++ delivered checksum_pieces
    ≡ (send_file sum 3 inside 2 (uploading [] file_pieces [])).1.stream.outgoing
unfolding get_checksum_bytes pcopy.Tests.Instances.total pcopy.Prelude.BigEndian.to_be
written =
    sym
      (send_file_pieces sum inside greeting (omega arith) (omega arith) 3 file_pieces refl
        (omega arith)).1

serve-send_file_pieces_example :
    ((serve sum good_disk root (deliveries request_pieces (deliveries checksum_pieces []))).0
      ≡ ok ok_reply)
    × (pieces : List (List ℕ)) × ((serve sum good_disk root
          (deliveries request_pieces (deliveries checksum_pieces []))).1.effects
        ≡ made_folder folder ∷ created saved_path ∷ writes pieces)
    × (joined pieces ≡ greeting)
unfolding pcopy.Tests.Instances.is_ascii pcopy.Server.Folder.parent_folder pcopy.Rust.Path.join
    pcopy.Rust.Path.strip_slash pcopy.Tests.Instances.folder_of
serve-send_file_pieces_example =
    serve-send_file_pieces sum good_disk root inside folder greeting refl refl refl refl refl
      (λ b. refl) (λ b. refl) (omega arith) (omega arith) 3 file_pieces request_pieces
      checksum_pieces [] refl (omega arith) written refl

-- The request to save "hi", cut inside its content: the end of the content comes with the checksum.
abbrev inner_cut : List (ℕ × List ℕ)
inner_cut =
    (2, 0 ∷ 3 ∷ b'a' ∷ slash ∷ b'b' ∷ 0 ∷ 0 ∷ 0 ∷ 242 ∷ 0 ∷ 0 ∷ 0 ∷ 2 ∷ b'h' ∷ [])
    ∷ (b'i', 0 ∷ 0 ∷ 0 ∷ 209 ∷ [])
    ∷ []

serve_anyway_example :
    Answered
      (serve sum good_disk root (deliveries inner_cut [])).0
      209
      (sum.finalize (sum.update sum.new greeting))
    × (pieces : List (List ℕ)) × ((serve sum good_disk root (deliveries inner_cut [])).1.effects
        ≡ made_folder folder ∷ created saved_path ∷ writes pieces)
    × (joined pieces ≡ greeting)
unfolding pcopy.Tests.Instances.is_ascii pcopy.Server.Folder.parent_folder pcopy.Rust.Path.join
    pcopy.Rust.Path.strip_slash pcopy.Tests.Instances.folder_of pcopy.Tests.Instances.total
    pcopy.Prelude.BigEndian.to_be
serve_anyway_example =
    serve_anyway sum good_disk root inside folder greeting refl refl refl refl refl (λ b. refl)
      (λ b. refl) 242 209 refl (omega arith) (omega arith) (omega arith) (omega arith) inner_cut []
      [] refl

-- What the client writes for the file arrives with the end of the content in front of its checksum.
written_inside :
    delivered inner_cut ≡ (send_file sum 3 inside 2 (uploading [] file_pieces [])).1.stream.outgoing
unfolding get_checksum_bytes pcopy.Tests.Instances.total pcopy.Prelude.BigEndian.to_be
written_inside =
    sym
      (send_file_pieces sum inside greeting (omega arith) (omega arith) 3 file_pieces refl
        (omega arith)).1

serve-send_file_anyway_example :
    Replied (serve sum good_disk root (deliveries inner_cut [])).0
    × (pieces : List (List ℕ)) × ((serve sum good_disk root (deliveries inner_cut [])).1.effects
        ≡ made_folder folder ∷ created saved_path ∷ writes pieces)
    × (joined pieces ≡ greeting)
unfolding pcopy.Tests.Instances.is_ascii pcopy.Server.Folder.parent_folder pcopy.Rust.Path.join
    pcopy.Rust.Path.strip_slash pcopy.Tests.Instances.folder_of
serve-send_file_anyway_example =
    serve-send_file_anyway sum good_disk root inside folder greeting refl refl refl refl refl
      (λ b. refl) (λ b. refl) (omega arith) (omega arith) 3 file_pieces inner_cut [] refl
      (omega arith) written_inside

-- The request to save a file as "a/b" with a wrong checksum of the path.
abbrev wrong_pieces : List (ℕ × List ℕ)
wrong_pieces = (2, 0 ∷ 3 ∷ b'a' ∷ []) ∷ (slash, b'b' ∷ 0 ∷ 0 ∷ []) ∷ (0, 7 ∷ 1 ∷ []) ∷ []

refused_in_pieces_example :
    ((serve sum good_disk root (deliveries wrong_pieces [])).0 ≡ ok error_reply)
    × ((serve sum good_disk root (deliveries wrong_pieces [])).1.effects ≡ [])
unfolding pcopy.Tests.Instances.is_ascii pcopy.Prelude.BigEndian.to_be
refused_in_pieces_example =
    refused_in_pieces sum good_disk root inside refl 2 7 wrong_pieces [] (1 ∷ []) (inr refl)
      sum_differs (omega arith) (omega arith) refl

-- The request for the folder of "a/b", in two pieces, and one more byte.
abbrev folder_pieces : List (ℕ × List ℕ)
folder_pieces = (1, 0 ∷ []) ∷ (3, b'a' ∷ slash ∷ b'b' ∷ 0 ∷ 0 ∷ 0 ∷ 242 ∷ 9 ∷ []) ∷ []

made_in_pieces_example :
    ((serve sum good_disk root (deliveries folder_pieces [])).0 ≡ ok ok_reply)
    × ((serve sum good_disk root (deliveries folder_pieces [])).1.effects ≡ made_folder folder ∷ [])
unfolding pcopy.Tests.Instances.is_ascii pcopy.Server.Folder.parent_folder pcopy.Rust.Path.join
    pcopy.Rust.Path.strip_slash pcopy.Tests.Instances.folder_of pcopy.Tests.Instances.total
    pcopy.Prelude.BigEndian.to_be
made_in_pieces_example =
    made_in_pieces sum good_disk root inside folder refl refl refl refl 242 folder_pieces []
      (9 ∷ []) refl (omega arith) (omega arith) refl

-- The request for the folder of "//e/x", in two pieces.
abbrev escaping_pieces : List (ℕ × List ℕ)
escaping_pieces = (1, 0 ∷ 5 ∷ slash ∷ slash ∷ b'e' ∷ []) ∷ (slash, b'x' ∷ 0 ∷ 0 ∷ 1 ∷ 106 ∷ []) ∷ []

escape_in_pieces_example :
    ((serve sum good_disk root (deliveries escaping_pieces [])).0 ≡ ok ok_reply)
    × ((serve sum good_disk root (deliveries escaping_pieces [])).1.effects
        ≡ made_folder (slash ∷ b'e' ∷ []) ∷ [])
unfolding pcopy.Tests.Instances.is_ascii pcopy.Server.Folder.parent_folder
    pcopy.Tests.Instances.folder_of pcopy.Tests.Instances.total pcopy.Prelude.BigEndian.to_be
escape_in_pieces_example =
    escape_in_pieces sum good_disk (b'e' ∷ slash ∷ b'x' ∷ []) (slash ∷ b'e' ∷ []) refl refl refl
      root 362 escaping_pieces [] [] refl refl (omega arith) (omega arith) refl
