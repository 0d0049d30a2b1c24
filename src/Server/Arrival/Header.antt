-- ===== src/Server/Arrival/Header.antt =====
-- A request for a file that arrives in pieces, up to the length of the file.
use pcopy.Prelude.{
  ℕ, ◌+◌, ◌^◌, ◌≤◌, ◌<◌, ◌≡◌, ◌∙◌, sym, arith, List, [], ◌∷◌, ◌++◌, length, true, none,
}
use pcopy.Prelude.BigEndian.{to_be, length-to_be, from_be-to_be}
use pcopy.Prelude.Outcome.{ok}
use pcopy.Prelude.Exec.{Exec, ◌>>=◌, >>=-assoc}
use pcopy.Rust.IoError.{IoError}
use pcopy.Rust.Path.{Paths, strip_slash, join}
use pcopy.Rust.Disk.{Disk, made_folder, created}
use pcopy.Crates.ByteOrder.{ByteOrder}
use pcopy.Crates.Crc32.{Crc32}
use pcopy.Relay.Stream.{Delivery}
use pcopy.Server.Reader.{tcp_stream}
use pcopy.Server.Session.{Session}
use pcopy.Server.Folder.{parent_folder}
use pcopy.Server.Folder.Whole.{path_fields}
use pcopy.Server.File.{Receiving, first_write, receive, save_file}
use pcopy.Server.File.Parts.{finish, save_file_parts}
use pcopy.Server.Arrival.{At}
use pcopy.Server.Arrival.Fields.{after, Field, At-Field}
use pcopy.Server.Arrival.Folder.{FolderRun, At-FolderRun}

-- Where the content begins.
abbrev pub content_at : List ℕ → ℕ → ℕ
content_at p start = start + 2 + length p + 4 + 4

module _ ⦃order : ByteOrder⦄ ⦃paths : Paths⦄ (crc : Crc32) (disk : Disk) where
  -- What `save_file` does between the length of the file and its checksum.
  abbrev pub receiving : ℕ → ℕ → ℕ → Exec (Session (List Delivery)) IoError (Receiving crc.Hasher)
  receiving end start n =
      first_write crc disk end start n >>= λ v. receive crc disk v.file_data_length v

module _ ⦃order : ByteOrder⦄ ⦃paths : Paths⦄ (crc : Crc32) (disk : Disk) (root : List ℕ)
    (p folder : List ℕ) (text : paths.is_utf8 p ≡ true) (root_text : paths.is_utf8 root ≡ true)
    (parent : parent_folder (join root (strip_slash p)) ≡ ok folder)
    (made : disk.create_dir_all folder ≡ none)
    (creates : disk.create (join root (strip_slash p)) ≡ none) where
  abbrev path : List ℕ
  path = join root (strip_slash p)

  -- What the request leaves behind the length `n` of the file.
  pub record Header (end start n : ℕ) (s : Session (List Delivery)) (later : List Delivery)
      (rest : List ℕ) : Type 0 where
    pub end' : ℕ
    pub buf' : List ℕ
    pub socket' : List Delivery
    pub same_length : length buf' ≡ length s.buf
    pub run :
        save_file crc disk root end start s
        ≡ (receiving crc disk end' (content_at p start) n >>= finish crc disk path)
            (record (after s buf' socket') {
              effects = (s.effects ++ made_folder folder ∷ []) ++ created path ∷ [];
            })
    pub then_at : At buf' socket' (content_at p start) end' later rest

  pub At-Header :
      (end start k n : ℕ) (s : Session (List Delivery)) (later : List Delivery) (rest : List ℕ)
      → At s.buf s.socket start end later (path_fields p k (to_be 4 n ++ rest))
      → crc.finalize (crc.update crc.new p) ≡ k
      → k < 2 ^ 32
      → n < 2 ^ 32
      → length s.buf ≡ 1024
      → content_at p start ≤ 1024
      → Header end start n s later rest
  At-Header end start k n s later rest a right small fits size header =
      let n4 : length (to_be 4 n) ≡ 4 = length-to_be 4 n in
      let d : FolderRun crc disk root p folder text root_text parent made end start s later
          (to_be 4 n ++ rest) =
        At-FolderRun crc disk root p folder text root_text parent made end start k s later
          (to_be 4 n ++ rest) a right small (omega (arith, header)) (omega (arith, header, size)) in
      let at1 : ℕ = start + 2 + length p + 4 in
      let s1 : Session (List Delivery) = record (after s d.buf' d.socket') {
        effects = (s.effects ++ made_folder folder ∷ []) ++ created path ∷ [];
      } in
      let g : Field 4 d.end' at1 s1 later (to_be 4 n) rest =
        At-Field 4 d.end' at1 s1 later (to_be 4 n) rest d.then_at n4
          (omega (arith, header, size, d.same_length)) in
      let s2 : Session (List Delivery) = after s1 g.buf' g.socket' in
      record {
        end' = g.end';
        buf' = g.buf';
        socket' = g.socket';
        same_length = g.same_length ∙ d.same_length;
        run =
            save_file_parts crc disk root path end start at1 d.end' g.end' n (to_be 4 n) s
              (record (after s d.buf' d.socket') { effects = s.effects ++ made_folder folder ∷ [] })
              s2 d.run creates g.filled g.sliced
              (order.read_u32_lem (to_be 4 n) n4 ∙ from_be-to_be 4 n (omega arith))
            ∙ sym (
                >>=-assoc (first_write crc disk g.end' (at1 + 4) n)
                  (λ v. receive crc disk v.file_data_length v) (finish crc disk path) s2);
        then_at = g.then_at;
      }
