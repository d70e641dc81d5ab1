-- ===== src/Sender/Cycle/Window.antt =====
-- The number of variables that a round of the sender's loop takes, against `maxBytesPerCycle`.
use marte2hieratika.Base.{
  get_or, leb, ltb→lt, false, ℕ, zero, suc, ◌+◌, ◌-◌, ◌≤◌, ◌<◌, ◌≡◌, refl, List, arith, ltb, ◌==◌,
  add32, u32_mod, Bool-cases, inl, inr, ◌↔◌, ◌∙◌,
}
use marte2hieratika.Subscriber.{PvDescriptor}
use marte2hieratika.Sender.{PrioritySender}
use marte2hieratika.Sender.Cycle.{
  insert_all_changed, insert_changed, size_at, position, fit_bytes, max_signals, clamp_count,
  choose, schedule,
}

-- The fields that the choice of the variables reads and leaves as they are.
record SameLimits (t u : PrioritySender) : Type 0 where
  same_bytes : u.max_bytes_per_cycle ≡ t.max_bytes_per_cycle
  same_signals : u.number_of_signal_to_be_sent ≡ t.number_of_signal_to_be_sent
  same_threads : u.number_of_pool_threads ≡ t.number_of_pool_threads
  same_mode : u.send_only_changed ≡ t.send_only_changed
  same_idx : u.current_idx ≡ t.current_idx
  same_count : u.number_of_variables ≡ t.number_of_variables

SameLimits-refl : (t : PrioritySender) → SameLimits t t
SameLimits-refl t = record {
  same_bytes = refl;
  same_signals = refl;
  same_threads = refl;
  same_mode = refl;
  same_idx = refl;
  same_count = refl;
}

module _ (pvs : List PvDescriptor) where
  -- The sizes at the first `n` positions of the window, added up without a wrap-around.
  abbrev pub bytes : PrioritySender → ℕ → ℕ
  bytes t zero = 0
  bytes t (suc n) = bytes t n + size_at pvs (position pvs t n)

  -- No size that the loop adds wraps the total around.
  abbrev pub NoWrap : PrioritySender → Type 0
  NoWrap t = (i : ℕ) → t.max_bytes_per_cycle + size_at pvs i < u32_mod

  ltb-false : (a b : ℕ) → ltb a b ≡ false → b ≤ a
  ltb-false a b h = ground arith

  bytes_pred : (t : PrioritySender) (n : ℕ) → bytes t (n - 1) ≤ bytes t n
  bytes_pred t zero = omega arith
  bytes_pred t (suc n) = let e : suc n - 1 ≡ n = omega arith in rw e (omega arith)

  fit_bytes_lem :
      (t : PrioritySender) (k n : ℕ)
      → NoWrap t
      → bytes t n ≤ t.max_bytes_per_cycle
      → (fit_bytes pvs t k n (bytes t n) ≤ n + k)
        × (bytes t (fit_bytes pvs t k n (bytes t n)) ≤ t.max_bytes_per_cycle)
  unfolding fit_bytes
  fit_bytes_lem t zero n wrap h = (omega arith, h)
  fit_bytes_lem t (suc k) n wrap h =
      let here = size_at pvs (position pvs t n) in
      let small = wrap (position pvs t n) in
      let whole : add32 (bytes t n) here ≡ bytes t (suc n) = omega arith in
      rw whole (elim (Bool-cases (ltb t.max_bytes_per_cycle (bytes t (suc n)))) [
        | inl e ↦ rw e (elim (Bool-cases (ltb 0 n)) [
          | inl p ↦ rw p (omega arith, omega (arith, bytes_pred t n))
          | inr p ↦ rw p (omega arith, h)
        ])
        | inr e ↦ rw e (
            let next : n + 1 ≡ suc n = omega arith in
            let ih =
              fit_bytes_lem t k (suc n) wrap
                (ltb-false t.max_bytes_per_cycle (bytes t (suc n)) e) in
            rw next (omega (arith, ih.0), ih.1))
      ])

  fit_bytes_ge : (t : PrioritySender) (k n total : ℕ) → n - 1 ≤ fit_bytes pvs t k n total
  unfolding fit_bytes
  fit_bytes_ge t zero n total = omega arith
  fit_bytes_ge t (suc k) n total =
      let total' = add32 total (size_at pvs (position pvs t n)) in
      elim (Bool-cases (ltb t.max_bytes_per_cycle total')) [
        | inl e ↦ rw e (elim (Bool-cases (ltb 0 n)) [
          | inl p ↦ rw p (omega arith)
          | inr p ↦ rw p (omega arith)
        ])
        | inr e ↦ rw e (omega (arith, fit_bytes_ge t k (n + 1) total'))
      ]

  -- With two variables to check, none is sent exactly when the first two do not fit together.
  fit_bytes_two :
      (t : PrioritySender) (k : ℕ)
      → NoWrap t
      → 2 ≤ k
      → (fit_bytes pvs t k 0 0 ≡ 0) ↔ (t.max_bytes_per_cycle < bytes t 2)
  unfolding fit_bytes
  fit_bytes_two t zero wrap h = absurd (omega arith)
  fit_bytes_two t (suc zero) wrap h = absurd (omega arith)
  fit_bytes_two t (suc (suc k)) wrap h =
      let s0 = size_at pvs (position pvs t 0) in
      let s1 = size_at pvs (position pvs t 1) in
      let w0 = wrap (position pvs t 0) in
      let first : add32 0 s0 ≡ s0 = omega arith in
      rw first (elim (Bool-cases (ltb t.max_bytes_per_cycle s0)) [
        | inl e ↦ rw e (ground (arith, e))
        | inr e ↦ rw e (
            let w1 = wrap (position pvs t 1) in
            let le0 = ltb-false t.max_bytes_per_cycle s0 e in
            let second : add32 s0 s1 ≡ s0 + s1 = omega (arith, le0) in
            rw second (elim (Bool-cases (ltb t.max_bytes_per_cycle (s0 + s1))) [
              | inl e1 ↦
                  rw e1 (λ p. omega (arith, ltb→lt t.max_bytes_per_cycle (s0 + s1) e1), λ p. refl)
              | inr e1 ↦ rw e1 (
                λ p. absurd (omega (arith, p, fit_bytes_ge t k 2 (s0 + s1))),
                λ p. absurd (omega (arith, p, ltb-false t.max_bytes_per_cycle (s0 + s1) e1)),
              )
            ]))
      ])

  insert_changed-SameLimits : (t : PrioritySender) (i : ℕ) → SameLimits t (insert_changed pvs t i)
  unfolding insert_changed
  insert_changed-SameLimits t i =
      let here = position pvs t i in
      elim (Bool-cases (get_or t.change_flag (get_or t.index_list here 0) 0 == 1)) [
        | inl e ↦ rw e (record {
          same_bytes = refl;
          same_signals = refl;
          same_threads = refl;
          same_mode = refl;
          same_idx = refl;
          same_count = refl;
        })
        | inr e ↦ rw e (SameLimits-refl t)
      ]

  insert_all-SameLimits :
      (t : PrioritySender) (k i : ℕ) → SameLimits t (insert_all_changed pvs t k i)
  unfolding insert_all_changed
  insert_all-SameLimits t zero i = SameLimits-refl t
  insert_all-SameLimits t (suc k) i =
      let u = insert_changed pvs t i in
      let p = insert_changed-SameLimits t i in
      let q = insert_all-SameLimits u k (i + 1) in
      record {
        same_bytes = q.same_bytes ∙ p.same_bytes;
        same_signals = q.same_signals ∙ p.same_signals;
        same_threads = q.same_threads ∙ p.same_threads;
        same_mode = q.same_mode ∙ p.same_mode;
        same_idx = q.same_idx ∙ p.same_idx;
        same_count = q.same_count ∙ p.same_count;
      }

  choose-SameLimits : (t : PrioritySender) (read : ℕ) → SameLimits t (choose pvs t read).0
  unfolding choose
  choose-SameLimits t read = elim (Bool-cases (leb t.number_of_chunks read)) [
    | inl e ↦ rw e (insert_all-SameLimits t t.number_of_variables 0)
    | inr e ↦ rw e (record {
      same_bytes = refl;
      same_signals = refl;
      same_threads = refl;
      same_mode = refl;
      same_idx = refl;
      same_count = refl;
    })
  ]

  bytes-SameLimits : (t u : PrioritySender) (n : ℕ) → SameLimits t u → bytes u n ≡ bytes t n
  bytes-SameLimits t u zero p = refl
  bytes-SameLimits t u (suc n) p = rw (bytes-SameLimits t u n p, p.same_idx, p.same_count) refl

  -- A round takes no more variables than the pool threads may send, and the sizes at the positions
  -- it takes add up to at most `maxBytesPerCycle`, when that limit and one size more never wrap
  -- around.
  pub schedule-fits :
      (t : PrioritySender) (read counter : ℕ)
      → NoWrap t
      → ((schedule pvs t read counter).1 ≤ max_signals pvs t)
        × (bytes t (schedule pvs t read counter).1 ≤ t.max_bytes_per_cycle)
  unfolding schedule
  schedule-fits t read counter wrap =
      let c = choose pvs t read in
      let p = choose-SameLimits t read in
      let k = clamp_count pvs c.0 c.1 in
      let h = fit_bytes_lem c.0 k 0 (λ i. rw p.same_bytes (wrap i)) (omega arith) in
      let sent = fit_bytes pvs c.0 k 0 0 in
      let most : max_signals pvs c.0 ≡ max_signals pvs t =
        rw (p.same_signals, p.same_threads) refl in
      let clamped : k ≤ max_signals pvs c.0 = ground arith in
      let fits : bytes c.0 sent ≤ c.0.max_bytes_per_cycle = h.1 in
      (omega (arith, h.0), omega (arith, bytes-SameLimits t c.0 sent p, p.same_bytes, fits))

  -- While every signal may be sent, a round with room for two variables takes none exactly when the
  -- sizes at the first two positions of the window do not fit into `maxBytesPerCycle` together,
  -- when that limit and one size more never wrap around.
  pub schedule-idle :
      (t : PrioritySender) (read counter : ℕ)
      → NoWrap t
      → t.send_only_changed ≡ 0
      → 2 ≤ max_signals pvs t
      → ((schedule pvs t read counter).1 ≡ 0) ↔ (t.max_bytes_per_cycle < bytes t 2)
  unfolding schedule
  schedule-idle t read counter wrap mode room =
      let c = choose pvs t read in
      let p = choose-SameLimits t read in
      let k = clamp_count pvs c.0 c.1 in
      let most : max_signals pvs c.0 ≡ max_signals pvs t =
        rw (p.same_signals, p.same_threads) refl in
      let all_sent : c.0.send_only_changed ≡ 0 = p.same_mode ∙ mode in
      let whole : k ≡ max_signals pvs c.0 = ground (arith, all_sent) in
      let h =
        fit_bytes_two c.0 k (λ i. rw p.same_bytes (wrap i)) (omega (arith, room, most, whole)) in
      let two = bytes-SameLimits t c.0 2 p in
      (λ e. omega (arith, h.0 e, two, p.same_bytes), λ e. h.1 (omega (arith, e, two, p.same_bytes)))
