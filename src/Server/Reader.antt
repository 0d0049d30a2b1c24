-- ===== src/Server/Reader.antt =====
-- server/server.rs: the trait `ReadFromStream`, and its implementation for `TcpStream`.
use pcopy.Prelude.{
  ℕ, ◌+◌, ◌-◌, min, List, [], ◌∷◌, ◌++◌, length, take, drop, ltb, ◌==◌, if◌then◌else◌,
}
use pcopy.Prelude.Outcome.{Outcome, ok, err, panic}
use pcopy.Rust.IoError.{IoError}
use pcopy.Relay.Stream.{Delivery, chunk, broken}

-- `read_data` writes into the buffer from an index on; it returns how many bytes it read, with the new
-- buffer and the new stream.
pub record ReadFromStream (T : Type 0) : Type 0 where
  pub read_data : T → List ℕ → ℕ → Outcome IoError (ℕ × List ℕ × T)

-- `copy_from_slice` into `buf[start..]`
unfoldable pub overwrite : List ℕ → ℕ → List ℕ → List ℕ
overwrite buf start bytes = take start buf ++ (bytes ++ drop (start + length bytes) buf)

-- What a read of a chunk leaves of it.
unfoldable pub left_over : ℕ → List ℕ → List Delivery → List Delivery
left_over n bytes more = if length bytes == n then more else chunk (drop n bytes) ∷ more

-- `self.read(&mut buf[start_index..])`: as many bytes as have arrived and as there is room for.
unfoldable pub tcp_read : List Delivery → List ℕ → ℕ → Outcome IoError (ℕ × List ℕ × List Delivery)
unfolding overwrite left_over
tcp_read incoming buf start_index = if ltb (length buf) start_index then panic else elim incoming [
  | [] ↦ ok (0, buf, [])
  | broken e ∷ more ↦ err e
  | chunk bytes ∷ more ↦
      let n = min (length bytes) (length buf - start_index) in
      ok (n, overwrite buf start_index (take n bytes), left_over n bytes more)
]

instance abbrev pub tcp_stream : ReadFromStream (List Delivery)
tcp_stream = record { read_data = tcp_read }
