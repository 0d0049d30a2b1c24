-- ===== src/Relay/PeerId.antt =====
-- relay/peer.rs: `PeerId`.
pub mod Reading
use pcopy.Prelude.{replicate, Bool, ◌==◌, ℕ, ◌+◌, ◌≡◌, List, length, slice, ltb, if◌then◌else◌}
use pcopy.Prelude.Outcome.{Outcome, ok, err, to_array, ◌>>=◌, or_panic}
use pcopy.Rust.Cursor.{Cursor}
use pcopy.Crates.Bytes.{Bytes}
use pcopy.Relay.FrameError.{FrameError, incomplete}

abbrev pub peer_id_length_bytes : ℕ
peer_id_length_bytes = 64

-- The array `[u8; 64]`.
pub record PeerId : Type 0 where
  pub bytes : List ℕ

abbrev pub IsPeerId : PeerId → Type 0
IsPeerId p = length p.bytes ≡ 64

-- The slice panics out of range; the conversion into an array panics at any other length.
unfoldable pub new {ℓ} : {E : Type ℓ} → List ℕ → ℕ → Outcome E PeerId
new buf start_index = do
  bytes ← or_panic (slice buf start_index (start_index + peer_id_length_bytes))
  array ← to_array peer_id_length_bytes bytes
  ok (record { bytes = array })

unfoldable pub len : PeerId → ℕ
len p = length p.bytes

unfoldable pub as_bytes : PeerId → List ℕ
as_bytes p = p.bytes

unfoldable pub is_empty : PeerId → Bool
is_empty p = length p.bytes == 0

-- `Default`; `fill_bytes` of the crate `rand` writes into the array of zeros.
unfoldable pub default : (List ℕ → List ℕ) → PeerId
default fill_bytes = record { bytes = fill_bytes (replicate peer_id_length_bytes 0) }

module _ ⦃b : Bytes⦄ where
  open b use {remaining, advance}

  -- `TryFrom<&mut Cursor<&[u8]>>`, with the cursor that it leaves.
  unfoldable pub try_from : Cursor → Outcome FrameError (PeerId × Cursor)
  unfolding new len
  try_from value = if ltb (remaining value) peer_id_length_bytes then err incomplete else do
    let start = value.position
    peer_id ← new value.inner start
    value' ← or_panic (advance value (len peer_id))
    ok (peer_id, value')
