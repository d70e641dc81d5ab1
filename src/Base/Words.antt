-- ===== src/Base/Words.antt =====
-- `uint32` arithmetic with its wrap-around, and the bytes of a word as `MemoryOperationsHelper::Copy`
-- moves them on the little-endian targets of the build files (x86-linux).
use Prim.Native.Nat.{ℕ, zero, suc, ◌+◌, ◌-◌, ◌*◌, ◌/◌, ◌%◌, ◌^◌, ◌<◌}
use mathlib.Core.Path.{◌≡◌, refl}
use mathlib.Core.List.{List, [], ◌∷◌, ◌++◌}
use native.Mathlib.Omega.{arith}
use native.Mathlib.Nat.{pow-suc}
use marte2hieratika.Base.Lists.{length}

abbrev pub u32_mod : ℕ
u32_mod = 2 ^ 32

abbrev pub u64_mod : ℕ
u64_mod = 2 ^ 64

-- `a + b`, `a - b` and `a * b` of two `uint32`.
abbrev pub add32 : ℕ → ℕ → ℕ
add32 a b = (a + b) % u32_mod

abbrev pub sub32 : ℕ → ℕ → ℕ
sub32 a b = (a + u32_mod - b) % u32_mod

abbrev pub mul32 : ℕ → ℕ → ℕ
mul32 a b = (a * b) % u32_mod

-- The `k` bytes of a word in memory, lowest first.
unfoldable pub to_bytes : ℕ → ℕ → List ℕ
to_bytes zero v = []
to_bytes (suc k) v = (v % 256) ∷ to_bytes k (v / 256)

-- The word that the first `k` bytes of a buffer make. A byte past the end reads as 0, the terminator
-- that `payload += ""` leaves there.
unfoldable pub of_bytes : ℕ → List ℕ → ℕ
of_bytes zero bs = 0
of_bytes (suc k) [] = 0
of_bytes (suc k) (b ∷ bs) = b + 256 * of_bytes k bs

pub length-to_bytes : (k v : ℕ) → length (to_bytes k v) ≡ k
unfolding to_bytes
length-to_bytes zero v = refl
length-to_bytes (suc k) v = omega (arith, length-to_bytes k (v / 256))

-- Reading back what was copied gives the word, whatever follows it in the buffer.
pub of_bytes-to_bytes :
    (k v : ℕ) (rest : List ℕ) → v < 256 ^ k → of_bytes k (to_bytes k v ++ rest) ≡ v
unfolding of_bytes to_bytes
of_bytes-to_bytes zero v rest h = omega arith
of_bytes-to_bytes (suc k) v rest h =
    let b : 256 ^ suc k ≡ 256 ^ k * 256 = pow-suc 256 k in
    omega (arith, of_bytes-to_bytes k (v / 256) rest (omega arith))
