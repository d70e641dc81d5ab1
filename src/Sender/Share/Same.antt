-- ===== src/Sender/Share/Same.antt =====
-- The fields that the shares of the pool threads depend on.
use marte2hieratika.Base.{
  ℕ, ◌≡◌, refl, ap, List, [], ◌∷◌, ◌++◌, add32, sub32, ◌==◌, if◌then◌else◌, ◌/◌, ◌%◌,
}
use marte2hieratika.Sender.{PrioritySender}
use marte2hieratika.Sender.Share.{vars_per_thread, take_share, list_positions, share_out}

abbrev vars_by : ℕ → ℕ → ℕ → ℕ
vars_by threads changed id =
    if id == sub32 threads 1
    then add32 (changed / threads) (changed % threads)
    else changed / threads

-- The shares, by the four fields alone.
shares_by : ℕ → ℕ → ℕ → ℕ → List ℕ → List ℕ
shares_by variables threads changed next [] = []
shares_by variables threads changed next (id ∷ ids) =
    let k = vars_by threads changed id in
    list_positions variables next k
    ++ shares_by variables threads changed (add32 next k % variables) ids

share_out_by :
    (t : PrioritySender) (ids : List ℕ)
    → share_out t ids
      ≡ shares_by t.number_of_variables t.number_of_pool_threads t.number_of_changed_variables
          t.current_idx_threads ids
unfolding share_out take_share shares_by vars_per_thread
share_out_by t [] = refl
share_out_by t (id ∷ ids) =
    let k = vars_by t.number_of_pool_threads t.number_of_changed_variables id in
    ap (λ xs. list_positions t.number_of_variables t.current_idx_threads k ++ xs)
      (share_out_by
        (record t { current_idx_threads = add32 t.current_idx_threads k % t.number_of_variables })
        ids)

pub share_out-same :
    (t u : PrioritySender) (ids : List ℕ)
    → u.number_of_variables ≡ t.number_of_variables
    → u.number_of_pool_threads ≡ t.number_of_pool_threads
    → u.number_of_changed_variables ≡ t.number_of_changed_variables
    → u.current_idx_threads ≡ t.current_idx_threads
    → share_out u ids ≡ share_out t ids
share_out-same t u ids variables threads changed next =
    simp (share_out_by, variables, threads, changed, next)
