-- ===== src/Server/Session/Fields.antt =====
-- Fields that are whole in the buffer: no read is needed.
use pcopy.Prelude.{
  ℕ, zero, suc, ◌+◌, ◌-◌, ◌^◌, ◌≤◌, ◌<◌, ◌≡◌, arith, List, ◌++◌, length, drop, slice_at, ltb_of_le,
}
use pcopy.Prelude.BigEndian.{to_be, length-to_be, from_be-to_be}
use pcopy.Prelude.Outcome.{ok}
use pcopy.Crates.ByteOrder.{ByteOrder}
use pcopy.Crates.Crc32.{Crc32}
use pcopy.Server.Reader.{ReadFromStream}
use pcopy.Server.Session.{Session, checked_sub, fill, buf_slice, read_checksum}

module _ {T : Type 0} (s : Session T) where
  pub buf_slice_at :
      (lo n : ℕ) (xs rest : List ℕ)
      → drop lo s.buf ≡ xs ++ rest
      → length xs ≡ n
      → lo ≤ length s.buf
      → buf_slice lo (lo + n) s ≡ (ok xs, s)
  unfolding buf_slice
  buf_slice_at lo n xs rest e size room = rw (slice_at s.buf lo n xs rest e size room)

  module _ ⦃reader : ReadFromStream T⦄ where
    -- Where enough bytes are there, nothing is read.
    pub fill_enough :
        (fuel need end start : ℕ) → start + need ≤ end → fill fuel need end start s ≡ (ok end, s)
    unfolding fill checked_sub
    fill_enough zero need end start h =
        rw (ltb_of_le end start (omega arith), ltb_of_le (end - start) need (omega arith))
    fill_enough (suc fuel) need end start h =
        rw (ltb_of_le end start (omega arith), ltb_of_le (end - start) need (omega arith))

    module _ ⦃order : ByteOrder⦄ (crc : Crc32) where
      -- A checksum that is there is returned, and the start moves behind its four bytes.
      pub read_checksum_at :
          (end start k : ℕ) (rest : List ℕ)
          → drop start s.buf ≡ to_be 4 k ++ rest
          → k < 2 ^ 32
          → start + 4 ≤ end
          → end ≤ length s.buf
          → read_checksum crc end start s
            ≡ (ok (k, record { start_index = start + 4; end_index = end }), s)
      unfolding read_checksum
      read_checksum_at end start k rest e small there room = rw (
        fill_enough 4 4 end start there,
        buf_slice_at start 4 (to_be 4 k) rest e (length-to_be 4 k) (omega arith),
        order.read_u32_lem (to_be 4 k) (length-to_be 4 k),
        from_be-to_be 4 k (omega arith),
        crc.finalize-new_with_initial k small,
      )
