-- ===== src/Server/Arrival/Opening.antt =====
-- The first read of a connection, when the request arrives in pieces.
use pcopy.Prelude.{ℕ, ◌+◌, ◌<◌, ◌≡◌, refl, arith, List, [], ◌∷◌, length, replicate, false, ◌==◌}
use mathlib.Core.Path.{subst}
use pcopy.Prelude.Outcome.{Outcome, ok}
use pcopy.Rust.IoError.{IoError}
use pcopy.Rust.Path.{Paths}
use pcopy.Rust.Disk.{Disk}
use pcopy.Crates.ByteOrder.{ByteOrder}
use pcopy.Crates.Crc32.{Crc32}
use pcopy.Relay.Stream.{Delivery}
use pcopy.Relay.FrameHelper.Reading.{deliveries, delivered}
use pcopy.Server.Reader.{tcp_stream, tcp_read}
use pcopy.Server.Session.{Session, BufferState}
use pcopy.Server.File.{save_file}
use pcopy.Server.Folder.{create_parent_folder}
use pcopy.Server.Request.{serve, dispatch, first_byte, folder_reply, file_reply}
use pcopy.Server.Arrival.{At, More, read-More}
use pcopy.Server.Arrival.Fields.{after, read_data_at, Cut, At-Cut}

-- The state of a connection before the first read.
abbrev pub opening : List Delivery → Session (List Delivery)
opening socket = record { socket = socket; buf = replicate 1024 0; effects = [] }

-- The first read of a connection on which the byte `op` and `todo` behind it arrive.
pub record Opened (op : ℕ) (socket later : List Delivery) (todo : List ℕ) : Type 0 where
  pub count : ℕ
  pub buf' : List ℕ
  pub behind : List ℕ
  pub socket' : List Delivery
  pub some_bytes : 0 < count
  pub same_length : length buf' ≡ 1024
  pub read : tcp_read socket (replicate 1024 0) 0 ≡ ok (count, buf', socket')
  pub front : buf' ≡ op ∷ behind
  pub then_at : At buf' socket' 1 count later todo

pub deliveries-Opened :
    (op : ℕ) (cs : List (ℕ × List ℕ)) (later : List Delivery) (todo : List ℕ)
    → delivered cs ≡ op ∷ todo
    → Opened op (deliveries cs later) later todo
deliveries-Opened op cs later todo request =
    let socket : List Delivery = deliveries cs later in
    let start : At (replicate 1024 0) socket 0 0 later (op ∷ todo) = record {
      avail = [];
      behind = replicate 1024 0;
      coming = cs;
      in_buffer = refl;
      size = refl;
      room = omega arith;
      on_socket = refl;
      bytes = request;
    } in
    let r : More (replicate 1024 0) socket 0 0 later (op ∷ todo) =
      read-More (replicate 1024 0) socket 0 0 later (op ∷ todo) start (omega arith) (omega arith) in
    let c : Cut r.buf' r.socket' 0 (0 + r.count) later (op ∷ []) todo =
      At-Cut r.buf' r.socket' 0 (0 + r.count) later (op ∷ []) todo r.then_at
        (omega (arith, r.some_bytes)) in
    let count : 0 + r.count ≡ r.count = omega arith in
    record {
      count = r.count;
      buf' = r.buf';
      behind = c.behind;
      socket' = r.socket';
      some_bytes = r.some_bytes;
      same_length = r.same_length;
      read = r.read;
      front = c.here;
      then_at = subst (λ n. At r.buf' r.socket' 1 n later todo) count c.then_at;
    }

module _ ⦃order : ByteOrder⦄ ⦃paths : Paths⦄ (crc : Crc32) (disk : Disk) (root : List ℕ)
    (socket later : List Delivery) (todo : List ℕ) where
  -- A request for a folder, behind its first byte.
  pub serve-folder :
      (o : Opened 1 socket later todo) (result : Outcome IoError (BufferState × List ℕ))
      (t : Session (List Delivery))
      → create_parent_folder crc disk root o.count 1 (after (opening socket) o.buf' o.socket')
        ≡ (result, t)
      → serve crc disk root socket ≡ (folder_reply result, t)
  unfolding serve dispatch first_byte
  serve-folder o result t run =
      let some_bytes : (o.count == 0) ≡ false = ground (arith, o.some_bytes) in
      rw (
        read_data_at (opening socket) 0 o.count o.buf' o.socket' o.read,
        some_bytes,
        o.front,
        ← o.front,
        run,
      )

  -- A request for a file, behind its first byte.
  pub serve-file :
      (o : Opened 2 socket later todo) (result : Outcome IoError (BufferState × List ℕ))
      (t : Session (List Delivery))
      → save_file crc disk root o.count 1 (after (opening socket) o.buf' o.socket') ≡ (result, t)
      → serve crc disk root socket ≡ (file_reply result, t)
  unfolding serve dispatch first_byte
  serve-file o result t run =
      let some_bytes : (o.count == 0) ≡ false = ground (arith, o.some_bytes) in
      rw (
        read_data_at (opening socket) 0 o.count o.buf' o.socket' o.read,
        some_bytes,
        o.front,
        ← o.front,
        run,
      )
