-- ===== src/Tests/Fills.antt =====
-- Fields that arrive in pieces.
use pcopy.Prelude.{ℕ, ◌≤◌, ◌≡◌, refl, length, arith, List, [], ◌∷◌}
use pcopy.Relay.Stream.{Delivery, chunk}
use pcopy.Server.Reader.{tcp_stream}
use pcopy.Server.Session.{Session, BufferState}
use pcopy.Server.File.{save_file}
use pcopy.Server.Request.{serve}
use pcopy.Server.Bounds.{Result, Sound}
use pcopy.Server.Bounds.File.{save_file-Sound}
use pcopy.Server.Bounds.Request.{Reply, serve-Sound}
use pcopy.Tests.Instances.{list_order, ascii_paths, sum, good_disk}
use pcopy.Tests.Folders.{root}

abbrev slow : Session (List Delivery)
slow = record {
  socket = chunk (7 ∷ []) ∷ chunk (8 ∷ []) ∷ [];
  buf = 6 ∷ 0 ∷ 0 ∷ 0 ∷ [];
  effects = [];
}

save_file-Sound_example :
    Sound 4
      (λ (r : BufferState × List ℕ). (r.0.start_index ≤ r.0.end_index) × (r.0.end_index ≤ 4))
      (save_file sum good_disk root 1 1 slow)
save_file-Sound_example =
    save_file-Sound sum good_disk root 4 (λ b. tt) 1 1 slow refl (omega arith) (omega arith)

serve-Sound_example :
    Result Reply (serve sum good_disk root slow.socket).0
    × (length (serve sum good_disk root slow.socket).1.buf ≡ 1024)
serve-Sound_example = serve-Sound sum good_disk root (λ b. tt) slow.socket
