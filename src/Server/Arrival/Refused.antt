-- ===== src/Server/Arrival/Refused.antt =====
-- A request with a wrong checksum of its path that arrives in pieces.
use pcopy.Prelude.{
  ℕ, ◌+◌, ◌^◌, ◌≤◌, ◌<◌, ◌≡◌, ◌≢◌, ◌∙◌, refl, arith, List, [], ◌∷◌, length, true, false, ◌==◌, ◌⊎◌,
  inl, inr, if◌then◌else◌,
}
use pcopy.Prelude.Outcome.{ok, err}
use pcopy.Rust.IoError.{other, invalid_input}
use pcopy.Rust.Path.{Paths}
use pcopy.Rust.Disk.{Disk}
use pcopy.Crates.ByteOrder.{ByteOrder}
use pcopy.Crates.Crc32.{Crc32}
use pcopy.Relay.Stream.{Delivery}
use pcopy.Relay.FrameHelper.Reading.{deliveries, delivered}
use pcopy.Server.Reader.{tcp_stream}
use pcopy.Server.Session.{Session}
use pcopy.Server.Folder.{create_parent_folder, save_under}
use pcopy.Server.Folder.Whole.{path_fields}
use pcopy.Server.File.{make_parent, or_invalid_input, save_file}
use pcopy.Server.Request.{
  serve, folder_reply, file_reply, error_reply, create_parent_folder_op, save_file_op,
}
use pcopy.Server.Arrival.Fields.{after}
use pcopy.Server.Arrival.Opening.{opening, Opened, deliveries-Opened, serve-folder, serve-file}
use pcopy.Server.Arrival.Folder.{PathRun, At-PathRun}

-- The answer to a request that is refused: none to a request for a folder, ERROR to one for a file.
abbrev pub refusal : ℕ → List ℕ
refusal op = if op == save_file_op then error_reply else []

module _ ⦃order : ByteOrder⦄ ⦃paths : Paths⦄ (crc : Crc32) (disk : Disk) (root p : List ℕ)
    (text : paths.is_utf8 p ≡ true) where
  refused_folder :
      (k n : ℕ) (s : Session (List Delivery)) (later : List Delivery) (rest : List ℕ)
      (r : PathRun crc disk root p text n 1 k s later rest)
      → crc.finalize (crc.update crc.new p) ≢ k
      → create_parent_folder crc disk root n 1 s ≡ (err other, after s r.buf' r.socket')
  unfolding save_under
  refused_folder k n s later rest r wrong =
      let differ : (crc.finalize (crc.update crc.new p) == k) ≡ false = ground arith in
      rw (r.run, differ)

  refused_file :
      (n : ℕ) (s t : Session (List Delivery))
      → create_parent_folder crc disk root n 1 s ≡ (err other, t)
      → save_file crc disk root n 1 s ≡ (err invalid_input, t)
  unfolding save_file make_parent or_invalid_input
  refused_file n s t refused = rw refused

  -- The fields of the request.
  opened :
      (op k : ℕ) (cs : List (ℕ × List ℕ)) (later : List Delivery) (rest : List ℕ)
      (o : Opened op (deliveries cs later) later (path_fields p k rest))
      → k < 2 ^ 32
      → 7 + length p ≤ 1024
      → PathRun crc disk root p text o.count 1 k
          (after (opening (deliveries cs later)) o.buf' o.socket')
          later
          rest
  opened op k cs later rest o small room =
      At-PathRun crc disk root p text o.count 1 k
        (after (opening (deliveries cs later)) o.buf' o.socket') later rest o.then_at small
        (omega arith) (omega (arith, o.same_length))

  -- A request for a folder or a file that arrives in pieces of any size, with a wrong checksum of its path,
  -- leaves the disk as it is. It gets no answer if it is for a folder, and ERROR if it is for a file. This
  -- holds for a path that is text and leaves room for the checksum in the buffer.
  pub refused_in_pieces :
      (op k : ℕ) (cs : List (ℕ × List ℕ)) (later : List Delivery) (rest : List ℕ)
      → (op ≡ create_parent_folder_op) ⊎ (op ≡ save_file_op)
      → crc.finalize (crc.update crc.new p) ≢ k
      → k < 2 ^ 32
      → 7 + length p ≤ 1024
      → delivered cs ≡ op ∷ path_fields p k rest
      → ((serve crc disk root (deliveries cs later)).0 ≡ ok (refusal op))
        × ((serve crc disk root (deliveries cs later)).1.effects ≡ [])
  unfolding file_reply folder_reply
  refused_in_pieces op k cs later rest (inl folder) wrong small room request =
      let socket : List Delivery = deliveries cs later in
      let todo : List ℕ = path_fields p k rest in
      let o : Opened 1 socket later todo =
        deliveries-Opened 1 cs later todo (request ∙ rw folder) in
      let r = opened 1 k cs later rest o small room in
      let run =
        serve-folder crc disk root socket later todo o _ _
          (refused_folder k o.count (after (opening socket) o.buf' o.socket') later rest r wrong) in
      rw (folder, run) (refl, refl)
  refused_in_pieces op k cs later rest (inr file) wrong small room request =
      let socket : List Delivery = deliveries cs later in
      let todo : List ℕ = path_fields p k rest in
      let o : Opened 2 socket later todo = deliveries-Opened 2 cs later todo (request ∙ rw file) in
      let s : Session (List Delivery) = after (opening socket) o.buf' o.socket' in
      let r = opened 2 k cs later rest o small room in
      let run =
        serve-file crc disk root socket later todo o _ _
          (refused_file o.count s _ (refused_folder k o.count s later rest r wrong)) in
      rw (file, run) (refl, refl)
