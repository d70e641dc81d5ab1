-- ===== src/Sender/Pool/Round/Tiles.antt =====
-- A whole round of the pool threads against the window of the loop.
use marte2hieratika.Base.{
  Bool, ◌-◌, ℕ, suc, zero, ◌+◌, ◌≤◌, ◌<◌, ◌≡◌, refl, ap, sym, subst, ◌∙◌, true, List, [], ◌∷◌,
  append-nil, some, length, get_elem?, tally, sub32, inl, inr, arith, count, sum_to, sum_to-zero,
  sum_to-count, sum_to-add, sum_to-le,
}
use marte2hieratika.Subscriber.{PvDescriptor}
use marte2hieratika.Sender.Cycle.{Loop}
use marte2hieratika.Sender.Share.{list_positions, share_out}
use marte2hieratika.Sender.Share.Tiles.{IsSmall, share_out-tiles}
use marte2hieratika.Sender.Pool.{
  Phase, starting, connecting, idle, waiting, entering, sending, failing, Pool,
}
use marte2hieratika.Sender.Pool.Guarded.{rests, pool_threads, finished}
use marte2hieratika.Sender.Pool.Stuck.{handed, AllWait}
use marte2hieratika.Sender.Pool.Round.{Sends, carries, Fits, IsRunning}
use marte2hieratika.Sender.Pool.Round.Running.{Sends-Sent}

-- A thread carries a share or rests, not both.
carries-rests : (phases : List Phase) → tally carries phases + tally rests phases ≤ length phases
carries-rests [] = omega arith
carries-rests (phase ∷ phases) = omega (arith, one phase, carries-rests phases)
  where
    one : (f : Phase) → carries f + rests f ≤ 1
    one starting = omega arith
    one connecting = omega arith
    one idle = omega arith
    one waiting = omega arith
    one entering = omega arith
    one sending = omega arith
    one failing = omega arith

tally_wait : (phases : List Phase) → AllWait phases → tally carries phases ≡ 0
tally_wait [] h = refl
tally_wait (phase ∷ phases) h =
    let here : phase ≡ waiting = h 0 phase refl in
    omega (arith, ap carries here, tally_wait phases (λ k f e. h (suc k) f e))

share_small : (phase : Phase) (posted : Bool) (c : ℕ) → Fits phase posted c → c ≤ 1
share_small starting posted c h = absurd h
share_small connecting posted c h = absurd h
share_small idle posted c h = omega arith
share_small waiting posted c (inl h) = omega arith
share_small waiting posted c (inr (h, b)) = omega arith
share_small entering posted c h = omega arith
share_small sending posted c h = omega arith
share_small failing posted c h = absurd h

module _ {ℓ} {A : Type ℓ} where
  get_of_length : (xs : List A) (k : ℕ) → k < length xs → (a : A) × (get_elem? xs k ≡ some a)
  get_of_length [] k h = absurd (omega arith)
  get_of_length (x ∷ xs) zero h = (x, refl)
  get_of_length (x ∷ xs) (suc k) h = get_of_length xs k (omega arith)

-- Where all are counted, each thread has taken one share.
all_counted :
    (c : ℕ → ℕ) (q : Pool)
    → IsRunning c q
    → finished q ≡ pool_threads q
    → (sum_to (pool_threads q) c ≡ pool_threads q) × (c (pool_threads q - 1) ≡ 1)
all_counted c q v all =
    let few = carries-rests q.phases in
    let whole : sum_to (pool_threads q) c ≡ pool_threads q =
      omega (arith, v.total, v.guard.counted, v.guard.size, few, all) in
    let small : (k : ℕ) → k < pool_threads q → c k ≤ 1 = λ k lt.
      let (phase, e) = get_of_length q.phases k (omega (arith, lt, v.guard.size)) in
      share_small phase q.posted (c k) (v.fits k phase e) in
    (whole, last (pool_threads q) v.guard.some_thread whole small)
  where
    last : (n : ℕ) → 0 < n → sum_to n c ≡ n → ((k : ℕ) → k < n → c k ≤ 1) → c (n - 1) ≡ 1
    last zero h e small = absurd (omega arith)
    last (suc n) h e small =
        let before = sum_to-le n c (λ k lt. small k (omega arith)) in
        let at : suc n - 1 ≡ n = omega arith in
        rw at (omega (arith, before, e, small n (omega arith)))

handed-IsRunning :
    (l : Loop) (others : List Phase)
    → length others + 1 ≡ l.sender.number_of_pool_threads
    → IsSmall l.sender
    → l.sender.n_threads_finished ≡ 0
    → AllWait others
    → IsRunning (λ k. 0) (handed l others)
handed-IsRunning l others size v none_yet wait = record {
  guard = record {
    size = omega (arith, size);
    some_thread = v.threads;
    few = v.threads_small;
    counted = omega (arith, none_yet);
    closed = λ b. none_yet;
    seen_all = λ c f s all. cc;
  };
  fits = λ k phase e. subst (λ f. Fits f true 0) (sym (waits k phase e)) (inl refl);
  total =
      omega (arith, none_yet, tally_wait others wait, sum_to-zero l.sender.number_of_pool_threads);
}
  where
    waits : (k : ℕ) (phase : Phase) → get_elem? (waiting ∷ others) k ≡ some phase → phase ≡ waiting
    waits zero phase e = cc
    waits (suc k) phase e = wait k phase e

-- Each round of the loop that hands the variables out is sent whole. From a state in which all
-- threads wait and the event is posted, with none counted, in whatever order the threads and the
-- loop step, without an error of a request and without another round that hands out: once all
-- threads are counted again, the positions of the list that they took by their steps are, in the
-- order of these steps, those of the window, as many as the loop handed out, from its first one on,
-- around the list; and the copies of the list and the memory that they read are still those that
-- were handed out. There are fewer than 2^32 threads, one at least, the first position is inside
-- the list, and the number of the variables with that of the positions is below 2^32.
pub Sends-tiles :
    (pvs : List PvDescriptor) (l : Loop) (others : List Phase) (ps : List ℕ) (r : Pool)
    → length others + 1 ≡ l.sender.number_of_pool_threads
    → IsSmall l.sender
    → l.sender.n_threads_finished ≡ 0
    → AllWait others
    → Sends pvs (handed l others) ps r
    → r.loop.sender.n_threads_finished ≡ r.loop.sender.number_of_pool_threads
    → (ps
        ≡ list_positions l.sender.number_of_variables l.sender.current_idx_threads
            l.sender.number_of_changed_variables)
      × (r.loop.sender.index_list_threads ≡ l.sender.index_list_threads)
      × (r.loop.sender.memory_threads ≡ l.sender.memory_threads)
unfolding share_out
Sends-tiles pvs l others ps r size v none_yet wait run all =
    let s = Sends-Sent pvs (λ k. 0) run (handed-IsRunning l others size v none_yet wait) in
    let n = l.sender.number_of_pool_threads in
    let (whole, last) = all_counted s.shares r s.running all in
    let counts : sum_to n s.shares ≡ sum_to n (λ j. count j s.ids + 0) =
      ap (sum_to n) (λ i j. s.counted j i) in
    let sum : sum_to n s.shares ≡ length s.ids = omega (
      arith,
      counts,
      sum_to-add n (λ j. count j s.ids) (λ j. 0),
      sum_to-zero n,
      sum_to-count n s.ids s.below,
    ) in
    let as_many : length s.ids ≡ n =
      omega (arith, sum, ap (λ m. sum_to m s.shares) s.threads, whole, s.threads) in
    let index : sub32 n 1 ≡ pool_threads r - 1 =
      omega (arith, s.threads, v.threads, v.threads_small) in
    let once : count (sub32 n 1) s.ids ≡ 1 =
      rw index (omega (arith, s.counted (pool_threads r - 1), last)) in
    let taken : ps ≡ share_out l.sender s.ids =
      sym (append-nil ps) ∙ s.positions [] ∙ ap (share_out l.sender) (append-nil s.ids) in
    (taken ∙ share_out-tiles l.sender s.ids v as_many once, s.list, s.values)
