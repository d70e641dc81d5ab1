-- ===== src/Receiver/Threads/Pinned.antt =====
-- The threads that `AddThread` makes and their CPUs.
use marte2hieratika.Base.{
  ap, ℕ, suc, ◌^◌, ◌≤◌, ◌<◌, ◌≡◌, refl, ◌∙◌, false, List, [], ◌∷◌, length, length-append, leb,
  Bool-cases, inl, inr, arith,
}
use marte2hieratika.Marte.Cpus.{
  IsOneCpu, ArePinned, append-ArePinned, one_shifted, shift_left, one_shifted_lem, shift_left_lem,
  pow-lt,
}
use marte2hieratika.Receiver.Threads.{Pool, Answers, next_mask, add_thread, add_threads}

-- No more threads than there may be, each on one CPU, and the next one too.
pub record IsPinned (p : Pool) : Type 0 where
  pub room : length p.thread_pool ≤ p.max_number_of_threads
  pub pinned : ArePinned p.number_of_cpus p.thread_pool
  pub next : IsOneCpu p.number_of_cpus p.current_cpu_mask
  pub few : p.number_of_cpus < 32

leb-false : (a b : ℕ) → leb a b ≡ false → b < a
leb-false a b e = ground arith

next_mask-IsOneCpu : (p : Pool) → IsPinned p → IsOneCpu p.number_of_cpus (next_mask p)
unfolding next_mask
next_mask-IsOneCpu p v =
    let (j, lt, e) = v.next in
    elim (Bool-cases (leb (one_shifted p.number_of_cpus) (shift_left p.current_cpu_mask))) [
      | inl b ↦ rw b (0, omega (arith, lt), refl)
      | inr b ↦
          let below : shift_left p.current_cpu_mask < one_shifted p.number_of_cpus =
            leb-false _ _ b in
          let limit = one_shifted_lem p.number_of_cpus v.few in
          let up : shift_left p.current_cpu_mask ≡ 2 ^ suc j =
            ap shift_left e ∙ shift_left_lem j (omega (arith, lt, v.few)) in
          rw b (suc j, pow-lt (suc j) p.number_of_cpus (omega (arith, below, limit, up)), up)
    ]

add_thread-IsPinned : (x : Answers) (p : Pool) → IsPinned p → IsPinned (add_thread x p).1
unfolding add_thread
add_thread-IsPinned x p v =
    let moved : IsPinned (record p { current_cpu_mask = next_mask p }) = record {
      room = v.room;
      pinned = v.pinned;
      next = next_mask-IsOneCpu p v;
      few = v.few;
    } in
    elim (Bool-cases (leb p.max_number_of_threads (length p.thread_pool))) [
      | inl full ↦ rw full v
      | inr free ↦
          let below : length p.thread_pool < p.max_number_of_threads = leb-false _ _ free in
          elim (Bool-cases x.is_valid) [
            | inr a ↦ rw (free, a) v
            | inl a ↦ elim (Bool-cases x.starts) [
              | inr b ↦ rw (free, a, b) moved
              | inl b ↦ elim (Bool-cases x.inserts) [
                | inr c ↦ rw (free, a, b, c) moved
                | inl c ↦
                    rw (free, a, b, c)
                      (record {
                        room =
                            omega
                              (arith, below, length-append p.thread_pool (p.current_cpu_mask ∷ []));
                        pinned =
                            append-ArePinned p.number_of_cpus p.thread_pool p.current_cpu_mask
                              v.pinned v.next;
                        next = next_mask-IsOneCpu p v;
                        few = v.few;
                      })
              ]
            ]
          ]
    ]

-- Whatever the framework answers, any number of calls of `AddThread` leaves no more threads than
-- there may be, each with the mask of exactly one CPU of those that there are, and such a mask for
-- the next thread, where this held before and there are fewer than 32 CPUs.
pub add_threads-IsPinned : (xs : List Answers) (p : Pool) → IsPinned p → IsPinned (add_threads xs p)
unfolding add_threads
add_threads-IsPinned [] p v = v
add_threads-IsPinned (x ∷ xs) p v =
    add_threads-IsPinned xs (add_thread x p).1 (add_thread-IsPinned x p v)
