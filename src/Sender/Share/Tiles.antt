-- ===== src/Sender/Share/Tiles.antt =====
-- The shares of the pool threads against the window of the loop.
use marte2hieratika.Base.{
  ℕ, zero, suc, ◌+◌, ◌*◌, ◌/◌, ◌%◌, ◌<◌, ◌≡◌, refl, ap, List, [], ◌∷◌, ◌++◌, arith, ◌==◌, add32,
  sub32, u32_mod, Bool-cases, inl, inr, length, sym, count, hits,
}
use native.Mathlib.Nat.{mod-lt, mod-eq_of_lt, mod-add-mod, le-mul_of_pos_right}
use marte2hieratika.Sender.{PrioritySender}
use marte2hieratika.Sender.Share.{vars_per_thread, take_share, list_positions, share_out}

-- The variables that the threads of a list take together.
abbrev pub total_share : PrioritySender → List ℕ → ℕ
total_share t [] = 0
total_share t (id ∷ ids) = vars_per_thread t id + total_share t ids

-- The numbers of a sender are small, and there is a variable and a pool thread.
pub record IsSmall (t : PrioritySender) : Type 0 where
  pub threads : 0 < t.number_of_pool_threads
  pub threads_small : t.number_of_pool_threads < u32_mod
  pub idx_in : t.current_idx_threads < t.number_of_variables
  pub no_wrap : t.number_of_variables + t.number_of_changed_variables < u32_mod

list_positions-add :
    (n i a b : ℕ)
    → i < n
    → n + a < u32_mod
    → list_positions n i (a + b) ≡ list_positions n i a ++ list_positions n (add32 i a % n) b
unfolding list_positions
list_positions-add n i zero b hi hn =
    let whole : add32 i 0 ≡ i = omega arith in
    let start : add32 i 0 % n ≡ i = rw whole (mod-eq_of_lt hi) in
    let none : 0 + b ≡ b = omega arith in rw (start, none) refl
list_positions-add n i (suc a) b hi hn =
    let next = add32 i 1 % n in
    let next_in : next < n = mod-lt (add32 i 1) (omega arith) in
    let there : add32 next a % n ≡ add32 i (suc a) % n =
      let first : add32 i 1 ≡ i + 1 = omega arith in
      let same : next ≡ (i + 1) % n = ap (λ k. k % n) first in
      let left : add32 next a ≡ (i + 1) % n + a =
        rw (sym same) (mod-eq_of_lt (omega (arith, next_in))) in
      let right : add32 i (suc a) ≡ i + 1 + a = omega arith in
      rw (left, right) (mod-add-mod (i + 1) n a) in
    let more : suc a + b ≡ suc (a + b) = omega arith in
    rw (more, sym there) (ap (◌∷◌ i) (list_positions-add n next a b next_in (omega arith)))

share_quotient :
    (t : PrioritySender)
    → (0 < t.number_of_pool_threads)
    → (t.number_of_changed_variables / t.number_of_pool_threads) * t.number_of_pool_threads
        + t.number_of_changed_variables % t.number_of_pool_threads
      ≡ t.number_of_changed_variables
share_quotient t h = grind arith

vars_per_thread_lem :
    (t : PrioritySender) (id : ℕ)
    → IsSmall t
    → vars_per_thread t id
      ≡ t.number_of_changed_variables / t.number_of_pool_threads
        + hits (sub32 t.number_of_pool_threads 1) id
          * (t.number_of_changed_variables % t.number_of_pool_threads)
unfolding vars_per_thread
vars_per_thread_lem t id v =
    let share = t.number_of_changed_variables / t.number_of_pool_threads in
    let most = le-mul_of_pos_right share v.threads in
    elim (Bool-cases (id == sub32 t.number_of_pool_threads 1)) [
      | inl e ↦ rw e (omega (arith, most, share_quotient t v.threads, v.no_wrap))
      | inr e ↦ rw e (omega arith)
    ]

total_share_lem :
    (t : PrioritySender) (ids : List ℕ)
    → IsSmall t
    → total_share t ids
      ≡ t.number_of_changed_variables / t.number_of_pool_threads * length ids
        + count (sub32 t.number_of_pool_threads 1) ids
          * (t.number_of_changed_variables % t.number_of_pool_threads)
total_share_lem t [] v = omega arith
total_share_lem t (id ∷ ids) v =
    rw (vars_per_thread_lem t id v, total_share_lem t ids v) (grind arith)

total_share-moved :
    (t : PrioritySender) (i : ℕ) (ids : List ℕ)
    → total_share (record t { current_idx_threads = i }) ids ≡ total_share t ids
unfolding vars_per_thread
total_share-moved t i [] = refl
total_share-moved t i (id ∷ ids) = ap (◌+◌ (vars_per_thread t id)) (total_share-moved t i ids)

share_out_lem :
    (t : PrioritySender) (ids : List ℕ)
    → t.current_idx_threads < t.number_of_variables
    → t.number_of_variables + total_share t ids < u32_mod
    → share_out t ids
      ≡ list_positions t.number_of_variables t.current_idx_threads (total_share t ids)
unfolding share_out take_share
share_out_lem t [] hi hn = unfold list_positions in refl
share_out_lem t (id ∷ ids) hi hn =
    let k = vars_per_thread t id in
    let next = add32 t.current_idx_threads k % t.number_of_variables in
    let moved = total_share-moved t next ids in
    let ih =
      share_out_lem (record t { current_idx_threads = next }) ids (omega arith)
        (omega (arith, moved)) in
    rw (ih, moved)
      (sym (
        list_positions-add t.number_of_variables t.current_idx_threads k (total_share t ids) hi
          (omega arith)))

-- In whatever order the pool threads enter the lock of `SendVariables`, as many as there are and
-- the last one once, the positions that they take are, in that order, those of the window: as many
-- as the loop handed out, from its first one on, around the list. There is a thread and the first
-- position is in the list; the number of threads, and that of the variables with that of the
-- positions, are below 2^32.
pub share_out-tiles :
    (t : PrioritySender) (ids : List ℕ)
    → IsSmall t
    → length ids ≡ t.number_of_pool_threads
    → count (sub32 t.number_of_pool_threads 1) ids ≡ 1
    → share_out t ids
      ≡ list_positions t.number_of_variables t.current_idx_threads t.number_of_changed_variables
share_out-tiles t ids v all last =
    let total : total_share t ids ≡ t.number_of_changed_variables =
      rw (total_share_lem t ids v, last, all) (omega (arith, share_quotient t v.threads)) in
    rw (share_out_lem t ids v.idx_in (rw total v.no_wrap), total) refl
