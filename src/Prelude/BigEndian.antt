-- ===== src/Prelude/BigEndian.antt =====
-- Big-endian byte strings: `to_be_bytes` and `from_be_bytes` of the standard library's integers.
use Prim.Native.Nat.{ℕ, zero, suc, ◌+◌, ◌*◌, ◌/◌, ◌%◌, ◌^◌, ◌<◌}
use mathlib.Core.Path.{◌≡◌, refl}
use mathlib.Core.List.{List, [], ◌∷◌, ◌++◌, foldl, foldl-append}
use native.Mathlib.Omega.{arith}
use native.Mathlib.Nat.{pow-suc}
use pcopy.Prelude.Lists.{length, length-append, All, All-append}

abbrev pub IsByte : ℕ → Type 0
IsByte b = b < 256

-- The `k` bytes of a number, highest first; what does not fit in them is lost.
unfoldable pub to_be : ℕ → ℕ → List ℕ
to_be zero n = []
to_be (suc k) n = to_be k (n / 256) ++ n % 256 ∷ []

abbrev pub push_byte : ℕ → ℕ → ℕ
push_byte acc b = acc * 256 + b

unfoldable pub from_be : List ℕ → ℕ
from_be = foldl push_byte 0

pub length-to_be : (k n : ℕ) → length (to_be k n) ≡ k
unfolding to_be
length-to_be zero n = refl
length-to_be (suc k) n =
    omega (arith, length-append (to_be k (n / 256)) (n % 256 ∷ []), length-to_be k (n / 256))

pub to_be-IsByte : (k n : ℕ) → All IsByte (to_be k n)
unfolding to_be
to_be-IsByte zero n = tt
to_be-IsByte (suc k) n =
    All-append IsByte (to_be k (n / 256)) (n % 256 ∷ []) (to_be-IsByte k (n / 256)) (omega arith)

-- What was written in `k` bytes is read back modulo `256 ^ k`.
pub from_be-to_be : (k n : ℕ) → n < 256 ^ k → from_be (to_be k n) ≡ n
unfolding from_be to_be
from_be-to_be zero n h = omega arith
from_be-to_be (suc k) n h =
    rw foldl-append (omega (arith, from_be-to_be k (n / 256) (ground (arith, pow-suc 256 k))))
