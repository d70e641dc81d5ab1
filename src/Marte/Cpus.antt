-- ===== src/Marte/Cpus.antt =====
-- CPU masks of threads, shared by the receiver and the data source: a mask is a `uint32` with a bit
-- for each CPU.
use native.Mathlib.Nat.{pow-le-pow_right, pow-succ', mod-eq_of_lt}
use marte2hieratika.Base.{
  ℕ, suc, ◌*◌, ◌%◌, ◌^◌, ◌≤◌, ◌<◌, ◌≡◌, sym, List, [], ◌∷◌, ◌++◌, arith, u32_mod, dec_lt,
}

-- `1u << n` and `mask <<= 1u`.
unfoldable pub one_shifted : ℕ → ℕ
one_shifted n = 2 ^ n % u32_mod

unfoldable pub shift_left : ℕ → ℕ
shift_left mask = 2 * mask % u32_mod

-- The mask of one CPU, of those that there are.
abbrev pub IsOneCpu : ℕ → ℕ → Type 0
IsOneCpu cpus mask = (j : ℕ) × (j < cpus) × (mask ≡ 2 ^ j)

abbrev pub ArePinned : ℕ → List ℕ → Type 0
ArePinned cpus [] = Unit {0}
ArePinned cpus (mask ∷ masks) = IsOneCpu cpus mask × ArePinned cpus masks

pub append-ArePinned :
    (cpus : ℕ) (masks : List ℕ) (mask : ℕ)
    → ArePinned cpus masks
    → IsOneCpu cpus mask
    → ArePinned cpus (masks ++ (mask ∷ []))
append-ArePinned cpus [] mask v c = (c, tt)
append-ArePinned cpus (x ∷ xs) mask v c = (v.0, append-ArePinned cpus xs mask v.1 c)

below_word : (n : ℕ) → n < 32 → 2 ^ n < u32_mod
below_word n h =
    let le : 2 ^ n ≤ 2 ^ 31 = pow-le-pow_right (omega arith) {j = 31} (omega arith) in
    omega (arith, le)

pub one_shifted_lem : (n : ℕ) → n < 32 → one_shifted n ≡ 2 ^ n
unfolding one_shifted
one_shifted_lem n h = mod-eq_of_lt (below_word n h)

pub shift_left_lem : (j : ℕ) → suc j < 32 → shift_left (2 ^ j) ≡ 2 ^ suc j
unfolding shift_left
shift_left_lem j h =
    let e : 2 * 2 ^ j ≡ 2 ^ suc j = sym (pow-succ' 2 j) in
    rw e (mod-eq_of_lt (below_word (suc j) h))

-- A mask that is not at the limit yet is that of a CPU.
pub pow-lt : (j n : ℕ) → 2 ^ j < 2 ^ n → j < n
pow-lt j n h = elim (dec_lt j n) [
  | yes lt ↦ lt
  | no ge ↦
      let le : 2 ^ n ≤ 2 ^ j = pow-le-pow_right (omega arith) (omega (arith, ge)) in
      absurd (omega (arith, le, h))
]
