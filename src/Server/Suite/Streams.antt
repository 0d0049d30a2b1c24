-- ===== src/Server/Suite/Streams.antt =====
-- Reads that put bytes behind what is in the buffer.
use pcopy.Prelude.{
  ℕ, zero, suc, ◌+◌, ◌-◌, ◌^◌, ◌≤◌, ◌<◌, ◌≡◌, ◌∙◌, refl, sym, ap, arith, List, [], ◌∷◌, ◌++◌,
  length, drop, drop-append, append-nil, length-append, true, false, ltb_of_lt, ltb_of_le, ◌==◌,
  ==_of_eq, slice_at,
}
use pcopy.Prelude.BigEndian.{to_be, length-to_be, from_be-to_be}
use pcopy.Prelude.Outcome.{ok}
use pcopy.Rust.Assert.{same_text_refl}
use pcopy.Rust.Path.{Paths, slash, strip_slash, join}
use pcopy.Rust.Disk.{Disk}
use pcopy.Crates.ByteOrder.{ByteOrder}
use pcopy.Crates.Crc32.{Crc32}
use pcopy.Server.Reader.{ReadFromStream}
use pcopy.Server.Session.{Session, checked_sub, store, read_data, fill, buf_slice, read_checksum}
use pcopy.Server.Session.Fields.{fill_enough, buf_slice_at}
use pcopy.Server.Folder.{create_parent_folder}
use pcopy.Server.Suite.{expect_saved}

-- A path that begins with one slash.
pub record Rooted (name : List ℕ) : Type 0 where
  pub first : ℕ
  pub more : List ℕ
  pub is : name ≡ slash ∷ first ∷ more
  pub plain : (first == slash) ≡ false

pub join-Rooted : (root name : List ℕ) → Rooted name → join root (strip_slash name) ≡ root ++ name
unfolding join strip_slash
join-Rooted root name r = rw (r.is, r.plain) refl

-- A test expects what is saved behind the buffer.
pub expect_saved_lem :
    (root name : List ℕ) (n a b : ℕ)
    → Rooted name
    → a ≡ n
    → b ≡ n
    → expect_saved root name n
        (ok (record { start_index = a; end_index = b }, join root (strip_slash name)))
      ≡ ok tt
unfolding expect_saved
expect_saved_lem root name n a b r e f =
    let whole : length (root ++ name) ≡ length root + length name = length-append root name in
    let behind : drop (length root) (root ++ name) ≡ name ++ [] =
      drop-append (length root) root name refl ∙ rw append-nil in
    let cut =
      slice_at (root ++ name) (length root) (length name) name [] behind refl (omega arith) in
    rw (join-Rooted root name r, ==_of_eq a n e, ==_of_eq b n f, whole, cut, same_text_refl name)

module _ {T : Type 0} ⦃reader : ReadFromStream T⦄ (s : Session T) (ext : List ℕ) where
  -- What the buffer is when `ext` has been read.
  abbrev pub filled : Session T
  filled = record s { buf = s.buf ++ ext }

  -- One read brings what is missing.
  pub fill_extended :
      (fuel need start end : ℕ)
      → reader.read_data s.socket s.buf end ≡ ok (length ext, s.buf ++ ext, s.socket)
      → 0 < fuel
      → start ≤ end
      → end < start + need
      → start + need ≤ end + length ext
      → fill fuel need end start s ≡ (ok (end + length ext), filled)
  unfolding fill checked_sub read_data store
  fill_extended zero need start end reads pos order missing enough = absurd (omega arith)
  fill_extended (suc fuel) need start end reads pos order missing enough =
      let some_bytes : (length ext == 0) ≡ false = ground arith in
      rw (ltb_of_le end start order, ltb_of_lt (end - start) need (omega arith), reads, some_bytes)
        (fill_enough filled fuel need (end + length ext) start enough)

  -- A checksum that one read brings.
  pub read_checksum_extended :
      ⦃order : ByteOrder⦄ (crc : Crc32) (k start : ℕ)
      → reader.read_data s.socket s.buf start ≡ ok (length ext, s.buf ++ ext, s.socket)
      → ext ≡ to_be 4 k
      → k < 2 ^ 32
      → start ≡ length s.buf
      → read_checksum crc start start s
        ≡ (ok (k, record { start_index = start + 4; end_index = start + 4 }), filled)
  unfolding read_checksum
  read_checksum_extended ⦃order⦄ crc k start reads field small end =
      let four : length ext ≡ 4 = ap length field ∙ length-to_be 4 k in
      let behind : drop start (s.buf ++ ext) ≡ ext ++ [] =
        drop-append start s.buf ext (sym end) ∙ sym (append-nil ext) in
      rw (
        fill_extended 4 4 start start reads (omega arith) (omega arith) (omega arith)
            (omega (arith, four)),
        buf_slice_at filled start 4 ext [] behind four
            (omega (arith, end, length-append s.buf ext)),
        order.read_u32_lem ext four,
        field,
        from_be-to_be 4 k (omega arith),
        crc.finalize-new_with_initial k small,
        length-to_be 4 k,
      )

-- When a read brings what is missing of a field, the request goes on as if it had been there before.
module _ {T : Type 0} ⦃reader : ReadFromStream T⦄ ⦃order : ByteOrder⦄ ⦃paths : Paths⦄ (crc : Crc32)
    (disk : Disk) (root : List ℕ) (s t : Session T) (end end' : ℕ) where
  pub create-first :
      (start : ℕ)
      → fill 2 2 end start s ≡ (ok end', t)
      → start + 2 ≤ end'
      → create_parent_folder crc disk root end start s
        ≡ create_parent_folder crc disk root end' start t
  unfolding create_parent_folder
  create-first start reads there = rw (reads, fill_enough t 2 2 end' start there)

  pub create-second :
      (start n : ℕ) (field : List ℕ)
      → start + 2 ≤ end
      → buf_slice start (start + 2) s ≡ (ok field, s)
      → buf_slice start (start + 2) t ≡ (ok field, t)
      → order.read_u16 field ≡ n
      → fill n n end (start + 2) s ≡ (ok end', t)
      → start + 2 + n ≤ end'
      → create_parent_folder crc disk root end start s
        ≡ create_parent_folder crc disk root end' start t
  unfolding create_parent_folder
  create-second start n field there cut cut' value reads there' = rw (
    fill_enough s 2 2 end start there,
    fill_enough t 2 2 end' start (omega arith),
    cut,
    cut',
    value,
    reads,
    fill_enough t n n end' (start + 2) there',
  )

  pub create-third :
      (start n : ℕ) (field path : List ℕ)
      → start + 2 + n ≤ end
      → buf_slice start (start + 2) s ≡ (ok field, s)
      → buf_slice start (start + 2) t ≡ (ok field, t)
      → order.read_u16 field ≡ n
      → buf_slice (start + 2) (start + 2 + n) s ≡ (ok path, s)
      → buf_slice (start + 2) (start + 2 + n) t ≡ (ok path, t)
      → paths.is_utf8 path ≡ true
      → fill 4 4 end (start + 2 + n) s ≡ (ok end', t)
      → start + 2 + n + 4 ≤ end'
      → create_parent_folder crc disk root end start s
        ≡ create_parent_folder crc disk root end' start t
  unfolding create_parent_folder read_checksum
  create-third start n field path there cut cut' value name name' text reads there' = rw (
    fill_enough s 2 2 end start (omega arith),
    fill_enough t 2 2 end' start (omega arith),
    cut,
    cut',
    value,
    fill_enough s n n end (start + 2) there,
    fill_enough t n n end' (start + 2) (omega arith),
    name,
    name',
    text,
    reads,
    fill_enough t 4 4 end' (start + 2 + n) there',
  )
