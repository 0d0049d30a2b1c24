-- ===== src/Server/Arrival/Folder.antt =====
-- A request for a folder that arrives in pieces.
use pcopy.Prelude.{
  ℕ, ◌+◌, ◌^◌, ◌≤◌, ◌<◌, ◌≡◌, ◌∙◌, refl, arith, List, [], ◌∷◌, ◌++◌, length, true, none, ==_of_eq,
}
use pcopy.Prelude.BigEndian.{to_be, length-to_be, from_be-to_be}
use pcopy.Prelude.Outcome.{ok}
use pcopy.Rust.Path.{Paths, strip_slash, join}
use pcopy.Rust.Disk.{Disk, made_folder}
use pcopy.Crates.ByteOrder.{ByteOrder}
use pcopy.Crates.Crc32.{Crc32}
use pcopy.Relay.Stream.{Delivery}
use pcopy.Server.Reader.{tcp_stream}
use pcopy.Server.Session.{Session, log}
use pcopy.Server.Folder.{parent_folder, save_under, create_parent_folder}
use pcopy.Server.Folder.Whole.{path_fields, is_utf8-strip_slash, is_utf8-join}
use pcopy.Server.Arrival.{At}
use pcopy.Server.Arrival.Fields.{after, Field, At-Field, Checksum, At-Checksum}

module _ ⦃order : ByteOrder⦄ ⦃paths : Paths⦄ (crc : Crc32) (disk : Disk) (root p : List ℕ)
    (text : paths.is_utf8 p ≡ true) where
  -- What the request leaves when its fields are read: path and checksum are to be compared.
  pub record PathRun (end start k : ℕ) (s : Session (List Delivery)) (later : List Delivery)
      (rest : List ℕ) : Type 0 where
    pub end' : ℕ
    pub buf' : List ℕ
    pub socket' : List Delivery
    pub same_length : length buf' ≡ length s.buf
    pub run :
        create_parent_folder crc disk root end start s
        ≡ save_under crc disk root p k
            (record { start_index = start + 2 + length p + 4; end_index = end' })
            (after s buf' socket')
    pub then_at : At buf' socket' (start + 2 + length p + 4) end' later rest

  pub At-PathRun :
      (end start k : ℕ) (s : Session (List Delivery)) (later : List Delivery) (rest : List ℕ)
      → At s.buf s.socket start end later (path_fields p k rest)
      → k < 2 ^ 32
      → length p < 2 ^ 16
      → start + 2 + length p + 4 ≤ length s.buf
      → PathRun end start k s later rest
  unfolding create_parent_folder
  At-PathRun end start k s later rest a small short space =
      let size : length (to_be 2 (length p)) ≡ 2 = length-to_be 2 (length p) in
      let f : Field 2 end start s later (to_be 2 (length p)) (p ++ (to_be 4 k ++ rest)) =
        At-Field 2 end start s later (to_be 2 (length p)) (p ++ (to_be 4 k ++ rest)) a size
          (omega arith) in
      let s1 = after s f.buf' f.socket' in
      let g : Field (length p) f.end' (start + 2) s1 later p (to_be 4 k ++ rest) =
        At-Field (length p) f.end' (start + 2) s1 later p (to_be 4 k ++ rest) f.then_at refl
          (omega (arith, f.same_length)) in
      let s2 = after s g.buf' g.socket' in
      let c : Checksum crc g.end' (start + 2 + length p) s2 later k rest =
        At-Checksum crc g.end' (start + 2 + length p) s2 later k rest g.then_at small
          (omega (arith, f.same_length, g.same_length)) in
      record {
        end' = c.end';
        buf' = c.buf';
        socket' = c.socket';
        same_length = c.same_length ∙ g.same_length ∙ f.same_length;
        run = rw (
          f.filled,
          f.sliced,
          order.read_u16_lem (to_be 2 (length p)) size,
          from_be-to_be 2 (length p) (omega arith),
          g.filled,
          g.sliced,
          text,
          c.run,
        );
        then_at = c.then_at;
      }

module _ ⦃order : ByteOrder⦄ ⦃paths : Paths⦄ (crc : Crc32) (disk : Disk) (root : List ℕ)
    (p folder : List ℕ) (text : paths.is_utf8 p ≡ true) (root_text : paths.is_utf8 root ≡ true)
    (parent : parent_folder (join root (strip_slash p)) ≡ ok folder)
    (made : disk.create_dir_all folder ≡ none) where
  abbrev path : List ℕ
  path = join root (strip_slash p)

  -- What the request leaves: the folder is made, and the state stands behind the fields.
  pub record FolderRun (end start : ℕ) (s : Session (List Delivery)) (later : List Delivery)
      (rest : List ℕ) : Type 0 where
    pub end' : ℕ
    pub buf' : List ℕ
    pub socket' : List Delivery
    pub same_length : length buf' ≡ length s.buf
    pub run : create_parent_folder crc disk root end start s ≡ (
      ok (record { start_index = start + 2 + length p + 4; end_index = end' }, path),
      record (after s buf' socket') { effects = s.effects ++ made_folder folder ∷ [] },
    )
    pub then_at : At buf' socket' (start + 2 + length p + 4) end' later rest

  pub At-FolderRun :
      (end start k : ℕ) (s : Session (List Delivery)) (later : List Delivery) (rest : List ℕ)
      → At s.buf s.socket start end later (path_fields p k rest)
      → crc.finalize (crc.update crc.new p) ≡ k
      → k < 2 ^ 32
      → length p < 2 ^ 16
      → start + 2 + length p + 4 ≤ length s.buf
      → FolderRun end start s later rest
  unfolding save_under log
  At-FolderRun end start k s later rest a right small short space =
      let c : PathRun crc disk root p text end start k s later rest =
        At-PathRun crc disk root p text end start k s later rest a small short space in
      let joined : paths.is_utf8 path ≡ true =
        is_utf8-join root (strip_slash p) root_text (is_utf8-strip_slash p text) in
      record {
        end' = c.end';
        buf' = c.buf';
        socket' = c.socket';
        same_length = c.same_length;
        run =
            rw
              (c.run, ==_of_eq (crc.finalize (crc.update crc.new p)) k right, parent, made, joined);
        then_at = c.then_at;
      }
