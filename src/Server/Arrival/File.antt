-- ===== src/Server/Arrival/File.antt =====
-- A request for a file that arrives in pieces, up to the checksum of its content.
use pcopy.Prelude.{
  ℕ, ◌+◌, ◌-◌, ◌^◌, ◌≤◌, ◌<◌, ◌≡◌, ◌∙◌, ap, arith, List, [], ◌∷◌, ◌++◌, length, append_assoc,
  length-append, true, none,
}
use mathlib.Core.Path.{subst, ap₂}
use pcopy.Prelude.BigEndian.{to_be}
use pcopy.Prelude.Outcome.{ok}
use pcopy.Prelude.Exec.{◌>>=◌}
use pcopy.Rust.Path.{Paths, strip_slash, join}
use pcopy.Rust.Disk.{Disk, Effect, made_folder, created, wrote}
use pcopy.Crates.ByteOrder.{ByteOrder}
use pcopy.Crates.Crc32.{Crc32}
use pcopy.Relay.Stream.{Delivery}
use pcopy.Server.Reader.{tcp_stream}
use pcopy.Server.Session.{Session, read_checksum}
use pcopy.Server.Folder.{parent_folder}
use pcopy.Server.Folder.Whole.{path_fields}
use pcopy.Server.File.{compare_checksum, first_write, save_file}
use pcopy.Server.Arrival.{At}
use pcopy.Server.Arrival.Fields.{after}
use pcopy.Server.File.Parts.{first_write-got}
use pcopy.Server.Arrival.Header.{content_at, Header, At-Header}
use pcopy.Server.Arrival.Pieces.{place, writes, joined, Front, At-Front, standing, place_front}
use pcopy.Server.Arrival.Content.{Received, At-Received}

module _ ⦃order : ByteOrder⦄ ⦃paths : Paths⦄ (crc : Crc32) (disk : Disk)
    (writes_all : (bytes : List ℕ) → disk.write bytes ≡ ok (length bytes)) where
  first_write_lem :
      (s : Session (List Delivery)) (start end : ℕ) (later : List Delivery) (content : List ℕ)
      (f : Front s.buf s.socket start end later content)
      → end ≤ length s.buf
      → length content < 2 ^ 32
      → first_write crc disk end start (length content) s ≡ (
        ok (standing end (length f.rest) (crc.update crc.new f.got)),
        record s { effects = s.effects ++ wrote f.got ∷ [] },
      )
  first_write_lem s start end later content f room small =
      let total : length content ≡ length f.got + length f.rest =
        omega (arith, ap length f.split, length-append f.got f.rest) in
      let left : length content - length f.got ≡ length f.rest = omega (arith, total) in
      rw (← f.size, ← left)
        (first_write-got crc disk s start (start + length f.got) (length content) f.got f.behind
          f.here (omega (arith, total)) (omega (arith, f.size)) (omega (arith, total)) small
          (writes_all f.got))

-- The fields in front of the checksum of the content.
abbrev pub front_fields : List ℕ → List ℕ → ℕ → List ℕ
front_fields p content k = path_fields p k (to_be 4 (length content) ++ content)

-- Where the server stands behind the content.
abbrev pub stands_at : List ℕ → List ℕ → ℕ → ℕ
stands_at p content start = place (content_at p start) (length content)

module _ ⦃order : ByteOrder⦄ ⦃paths : Paths⦄ (crc : Crc32) (disk : Disk) (root : List ℕ)
    (p folder content : List ℕ) (text : paths.is_utf8 p ≡ true)
    (root_text : paths.is_utf8 root ≡ true)
    (parent : parent_folder (join root (strip_slash p)) ≡ ok folder)
    (made : disk.create_dir_all folder ≡ none)
    (creates : disk.create (join root (strip_slash p)) ≡ none)
    (writes_all : (bytes : List ℕ) → disk.write bytes ≡ ok (length bytes))
    (takes_all : (bytes : List ℕ) → disk.write_all bytes ≡ none) where
  abbrev path : List ℕ
  path = join root (strip_slash p)

  -- What a request does up to the checksum of its content.
  pub record Body (end start : ℕ) (s : Session (List Delivery)) (later : List Delivery)
      : Type 0 where
    pub buf' : List ℕ
    pub socket' : List Delivery
    pub pieces : List (List ℕ)
    pub hasher' : crc.Hasher
    pub same_length : length buf' ≡ 1024
    pub run :
        save_file crc disk root end start s
        ≡ (read_checksum crc (stands_at p content start) (stands_at p content start)
              >>= compare_checksum crc disk hasher' path)
            (record (after s buf' socket') {
              effects =
                  ((s.effects ++ made_folder folder ∷ []) ++ created path ∷ []) ++ writes pieces;
            })
    pub same_content : joined pieces ≡ content
    pub digest : crc.finalize hasher' ≡ crc.finalize (crc.update crc.new content)
    pub then_at : At buf' socket' (stands_at p content start) (stands_at p content start) later []

  pub At-Body :
      (end start k : ℕ) (s : Session (List Delivery)) (later : List Delivery)
      → At s.buf s.socket start end later (front_fields p content k)
      → length s.buf ≡ 1024
      → crc.finalize (crc.update crc.new p) ≡ k
      → k < 2 ^ 32
      → content_at p start ≤ 1024
      → length content < 2 ^ 32
      → Body end start s later
  At-Body end start k s later a size right small header fits =
      let d : Header crc disk root p folder text root_text parent made creates end start
          (length content) s later content =
        At-Header crc disk root p folder text root_text parent made creates end start k
          (length content) s later content a right small fits size header in
      let at2 : ℕ = content_at p start in
      let s2 : Session (List Delivery) = record (after s d.buf' d.socket') {
        effects = (s.effects ++ made_folder folder ∷ []) ++ created path ∷ [];
      } in
      let f : Front d.buf' d.socket' at2 d.end' later content =
        At-Front d.buf' d.socket' at2 d.end' later content d.then_at in
      let total : length content ≡ length f.got + length f.rest =
        omega (arith, ap length f.split, length-append f.got f.rest) in
      let s3 : Session (List Delivery) = record s2 { effects = s2.effects ++ wrote f.got ∷ [] } in
      let r : Received crc disk takes_all (length f.rest) d.end' (crc.update crc.new f.got) s3 later
          f.rest =
        At-Received crc disk takes_all (length f.rest) d.end' (crc.update crc.new f.got) s3 later
          f.rest f.then_at (d.same_length ∙ size) (omega arith) (omega (arith, total)) in
      let low : d.end' ≤ 1024 = omega (arith, d.then_at.room, d.same_length, size) in
      let stands : place d.end' (length f.rest) ≡ stands_at p content start =
        place_front at2 (length f.got) (length f.rest) d.end' (length content) f.size low total in
      let first =
        first_write_lem crc disk writes_all s2 at2 d.end' later content f d.then_at.room fits in
      record {
        buf' = r.buf';
        socket' = r.socket';
        pieces = f.got ∷ r.pieces;
        hasher' = r.hasher';
        same_length = r.same_length;
        run =
            d.run
            ∙ (rw (first, r.run))
            ∙ ap₂
                (λ (i : ℕ) (effects : List Effect).
                  (read_checksum crc i i >>= compare_checksum crc disk r.hasher' path)
                    (record (after s r.buf' r.socket') { effects = effects }))
                stands (append_assoc s2.effects (wrote f.got ∷ []) (writes r.pieces));
        same_content = ap (λ t. f.got ++ t) r.content ∙ f.split;
        digest =
            r.digest
            ∙ crc.update-update crc.new f.got f.rest
            ∙ ap (λ t. crc.finalize (crc.update crc.new t)) f.split;
        then_at = subst (λ i. At r.buf' r.socket' i i later []) stands r.then_at;
      }
