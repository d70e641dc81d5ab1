-- ===== src/Subscriber/Threads/Pinned.antt =====
-- The CPU masks of the threads of the data source.
use marte2hieratika.Base.{
  sym, ◌≢◌, false, ℕ, zero, suc, ◌^◌, ◌≤◌, ◌<◌, ◌≡◌, refl, ap, ◌∙◌, length, ◌==◌, Bool-cases, inl,
  inr, arith,
}
use marte2hieratika.Marte.Cpus.{
  IsOneCpu, ArePinned, one_shifted, shift_left, one_shifted_lem, shift_left_lem,
}
use marte2hieratika.Subscriber.Threads.{wrap_mask, pool_masks}

-- A mask of a CPU, or the one behind the last.
abbrev IsNext : ℕ → ℕ → Type 0
IsNext cpus mask = (j : ℕ) × (j ≤ cpus) × (mask ≡ 2 ^ j)

==-false : (a b : ℕ) → (a == b) ≡ false → a ≢ b
==-false a b e = ground arith

ne_lt : (j n : ℕ) → j ≤ n → j ≢ n → j < n
ne_lt j n le ne = ground arith

module _ (cpus : ℕ) (some_cpu : 0 < cpus) (few : cpus < 32) where
  wrap_mask-IsOneCpu : (mask : ℕ) → IsNext cpus mask → IsOneCpu cpus (wrap_mask cpus mask)
  unfolding wrap_mask
  wrap_mask-IsOneCpu mask (j, le, e) = elim (Bool-cases (mask == one_shifted cpus)) [
    | inl b ↦ rw b (0, some_cpu, refl)
    | inr b ↦
        let limit = one_shifted_lem cpus few in
        let other : mask ≢ one_shifted cpus = λ same. ==-false mask (one_shifted cpus) b same in
        rw b (j, ne_lt j cpus le (λ same. other (e ∙ ap (λ k. 2 ^ k) same ∙ sym limit)), e)
  ]

  shift_left-IsNext : (mask : ℕ) → IsOneCpu cpus mask → IsNext cpus (shift_left mask)
  shift_left-IsNext mask (j, lt, e) =
      (suc j, omega (arith, lt), ap shift_left e ∙ shift_left_lem j (omega (arith, lt, few)))

  masks_from :
      (n mask : ℕ)
      → IsNext cpus mask
      → ArePinned cpus (pool_masks n cpus mask) × (length (pool_masks n cpus mask) ≡ n)
  unfolding pool_masks
  masks_from zero mask v = (tt, refl)
  masks_from (suc n) mask v =
      let here = wrap_mask-IsOneCpu mask v in
      let rest = masks_from n (shift_left (wrap_mask cpus mask)) (shift_left-IsNext _ here) in
      ((here, rest.0), ap suc rest.1)

  -- The loop of `Initialise` of EpicsParserAndSubscriber gives every one of its threads, however
  -- many, the mask of exactly one CPU of those that there are, where there is one and there are
  -- fewer than 32.
  pub pool_masks-ArePinned :
      (n : ℕ) → ArePinned cpus (pool_masks n cpus 1) × (length (pool_masks n cpus 1) ≡ n)
  pool_masks-ArePinned n = masks_from n 1 (0, omega arith, refl)
