-- ===== src/Server/Session.antt =====
-- server/server.rs: what the functions of the server share: the buffer, the loop that waits for bytes,
-- and `read_checksum`.
pub mod Fields
pub mod Fuel
use pcopy.Prelude.{
  ℕ, zero, suc, ◌+◌, ◌-◌, List, ◌++◌, [], ◌∷◌, slice, ltb, not, ◌==◌, if◌then◌else◌, Option, none,
  some,
}
use pcopy.Prelude.Outcome.{Outcome, ok, err, panic, stuck, or_panic, unwrap}
use pcopy.Prelude.Exec.{Exec, pure, raise, lift, continue, ◌>>=◌, ◌>>◌}
use pcopy.Rust.IoError.{IoError, invalid_data}
use pcopy.Rust.Disk.{Effect}
use pcopy.Crates.ByteOrder.{ByteOrder}
use pcopy.Crates.Crc32.{Crc32}
use pcopy.Server.Reader.{ReadFromStream}

pub record BufferState : Type 0 where
  pub start_index : ℕ
  pub end_index : ℕ

-- The socket, the buffer and what was done on the disk.
pub record Session (T : Type 0) : Type 0 where
  pub socket : T
  pub buf : List ℕ
  pub effects : List Effect

-- `a - b` on usize and u32, as a build with overflow checks makes it.
unfoldable pub checked_sub : ℕ → ℕ → Outcome IoError ℕ
checked_sub a b = if ltb a b then panic else ok (a - b)

module _ {T : Type 0} where
  unfoldable pub log : Effect → Exec (Session T) IoError (Unit {0})
  log e s = (ok tt, record s { effects = s.effects ++ e ∷ [] })

  -- `&buf[lo..hi]`
  unfoldable pub buf_slice : ℕ → ℕ → Exec (Session T) IoError (List ℕ)
  buf_slice lo hi s = (or_panic (slice s.buf lo hi), s)

  unfoldable pub store :
      Session T → Outcome IoError (ℕ × List ℕ × T) → Outcome IoError ℕ × Session T
  store s (ok (n, buf, socket)) = (ok n, record s { buf = buf; socket = socket })
  store s (err e) = (err e, s)
  store s panic = (panic, s)
  store s stuck = (stuck, s)

module _ {T : Type 0} ⦃reader : ReadFromStream T⦄ where
  -- `socket.read_data(buf, end_index).await.expect(..)`
  unfoldable pub read_data : ℕ → Exec (Session T) IoError ℕ
  unfolding store
  read_data end_index s = store s (unwrap (reader.read_data s.socket s.buf end_index))

  -- The loop that stands in front of each field: it reads until `need` bytes are there and returns the
  -- new end. On fuel: each round that goes on has read a byte, so `need` rounds are enough.
  unfoldable pub fill : ℕ → ℕ → ℕ → ℕ → Exec (Session T) IoError ℕ
  fill zero need end_index start_index = do
    available ← lift (checked_sub end_index start_index)
    if ltb available need then lift stuck else pure end_index
  fill (suc fuel) need end_index start_index = do
    available ← lift (checked_sub end_index start_index)
    if not (ltb available need) then pure end_index else do
      n ← read_data end_index
      if n == 0 then raise invalid_data else fill fuel need (end_index + n) start_index

  module _ ⦃order : ByteOrder⦄ (crc : Crc32) where
    open crc use {new_with_initial, finalize}

    -- The checksum, with the new end and the new start.
    unfoldable pub read_checksum : ℕ → ℕ → Exec (Session T) IoError (ℕ × BufferState)
    read_checksum end_index start_index = do
      end' ← fill 4 4 end_index start_index
      bytes ← buf_slice start_index (start_index + 4)
      let received_checksum = finalize (new_with_initial (order.read_u32 bytes))
      pure (received_checksum, record { start_index = start_index + 4; end_index = end' })
