-- ===== src/Sender/Cycle/Order.antt =====
-- The list of indices in the loop of the sender, and what each step does to its entries.
use marte2hieratika.Base.{
  sub32, sym, ap, subst, ℕ, zero, suc, ◌+◌, ◌<◌, ◌≡◌, refl, ◌∙◌, List, [], ◌∷◌, length, get_or, set,
  length-set, get_or-set_self, get_or-set_ne, count, hits, count-set, ltb, leb, ◌==◌, if◌then◌else◌,
  arith, ℕ_discrete, Bool-cases, inl, inr, ◌||◌,
}
use marte2hieratika.Subscriber.{PvDescriptor}
use marte2hieratika.Sender.{PrioritySender}
use marte2hieratika.Sender.Cycle.{
  swap, position, before, push_forward, insert_changed, insert_all_changed, choose, restart,
  schedule, hand_out, prepare, cycle, run_cycles, Loop, Input, size_at, max_signals,
}

-- The same entries, as often, in some order.
abbrev pub SameItems : List ℕ → List ℕ → Type 0
SameItems xs ys = (length ys ≡ length xs) × ((a : ℕ) → count a ys ≡ count a xs)

SameItems-trans : (xs ys zs : List ℕ) → SameItems xs ys → SameItems ys zs → SameItems xs zs
SameItems-trans xs ys zs p q = (q.0 ∙ p.0, λ a. q.1 a ∙ p.1 a)

entry_kept :
    (xs : List ℕ) (i j : ℕ) → i < length xs → get_or (set xs i (get_or xs j 0)) j 0 ≡ get_or xs j 0
entry_kept xs i j hi = elim (ℕ_discrete i j) [
  | yes e ↦
      subst (λ k. get_or (set xs i (get_or xs k 0)) k 0 ≡ get_or xs k 0) e
        (get_or-set_self xs i (get_or xs i 0) 0 hi)
  | no ne ↦ get_or-set_ne xs (get_or xs j 0) 0 ne
]

count-swap :
    (a : ℕ) (xs : List ℕ) (i j : ℕ)
    → i < length xs
    → j < length xs
    → count a (swap xs i j) ≡ count a xs
unfolding swap
count-swap a xs i j hi hj =
    let ys = set xs i (get_or xs j 0) in
    omega (
      arith,
      count-set a xs i (get_or xs j 0) hi,
      count-set a ys j (get_or xs i 0) (rw (length-set xs i (get_or xs j 0)) hj),
      ap (hits a) (entry_kept xs i j hi),
    )

swap-SameItems :
    (xs : List ℕ) (i j : ℕ) → i < length xs → j < length xs → SameItems xs (swap xs i j)
swap-SameItems xs i j hi hj = (length_swap, λ a. count-swap a xs i j hi hj)
  where
    length_swap : length (swap xs i j) ≡ length xs
    length_swap =
        unfold swap in
        length-set (set xs i (get_or xs j 0)) j (get_or xs i 0) ∙ length-set xs i (get_or xs j 0)

-- What the choice of the variables keeps of the sender.
record Reordered (t t' : PrioritySender) : Type 0 where
  items : SameItems t.index_list t'.index_list
  same_count : t'.number_of_variables ≡ t.number_of_variables
  same_idx : t'.current_idx ≡ t.current_idx
  same_threads : t'.index_list_threads ≡ t.index_list_threads

Reordered-refl : (t : PrioritySender) → Reordered t t
Reordered-refl t = record {
  items = (refl, λ a. refl);
  same_count = refl;
  same_idx = refl;
  same_threads = refl;
}

Reordered-trans : {t u w : PrioritySender} → Reordered t u → Reordered u w → Reordered t w
Reordered-trans {t} {u} {w} p q = record {
  items = SameItems-trans t.index_list u.index_list w.index_list p.items q.items;
  same_count = q.same_count ∙ p.same_count;
  same_idx = q.same_idx ∙ p.same_idx;
  same_threads = q.same_threads ∙ p.same_threads;
}

module _ (pvs : List PvDescriptor) where
  position_lt :
      (t : PrioritySender) (o : ℕ)
      → 0 < t.number_of_variables
      → position pvs t o < t.number_of_variables
  position_lt t o h = omega arith

  push_forward-SameItems :
      (t : PrioritySender) (size j : ℕ) (xs : List ℕ)
      → 0 < t.number_of_variables
      → length xs ≡ t.number_of_variables
      → SameItems xs (push_forward pvs t size j xs)
  unfolding push_forward
  push_forward-SameItems t size zero xs h e = (refl, λ a. refl)
  push_forward-SameItems t size (suc j) xs h e =
      let here = position pvs t (suc j) in
      let here_in : here < length xs = omega arith in
      let before_in : before pvs t here < length xs = ground arith in
      let moved = swap-SameItems xs (before pvs t here) here before_in here_in in
      elim (Bool-cases (ltb size (size_at pvs (before pvs t here)))) [
        | inl k ↦ rw k (
            SameItems-trans xs (swap xs (before pvs t here) here) _ moved
              (push_forward-SameItems t size j (swap xs (before pvs t here) here) h (moved.0 ∙ e)))
        | inr k ↦ rw k (refl, λ a. refl)
      ]

  insert_changed-Reordered :
      (t : PrioritySender) (i : ℕ)
      → 0 < t.number_of_variables
      → length t.index_list ≡ t.number_of_variables
      → Reordered t (insert_changed pvs t i)
  unfolding insert_changed
  insert_changed-Reordered t i h e =
      let here = position pvs t i in
      let front = position pvs t t.current_change_pos in
      let here_in : here < length t.index_list = omega arith in
      let front_in : front < length t.index_list = omega arith in
      let swapped = swap-SameItems t.index_list front here front_in here_in in
      elim (Bool-cases (get_or t.change_flag (get_or t.index_list here 0) 0 == 1)) [
        | inl k ↦ rw k (record {
          items = SameItems-trans t.index_list (swap t.index_list front here) _ swapped (
              push_forward-SameItems t (size_at pvs here) t.current_change_pos
                (swap t.index_list front here) h (swapped.0 ∙ e));
          same_count = refl;
          same_idx = refl;
          same_threads = refl;
        })
        | inr k ↦ rw k (Reordered-refl t)
      ]

  insert_all-Reordered :
      (t : PrioritySender) (k i : ℕ)
      → 0 < t.number_of_variables
      → length t.index_list ≡ t.number_of_variables
      → Reordered t (insert_all_changed pvs t k i)
  unfolding insert_all_changed
  insert_all-Reordered t zero i h e = Reordered-refl t
  insert_all-Reordered t (suc k) i h e =
      let p = insert_changed-Reordered t i h e in
      Reordered-trans p (
        insert_all-Reordered (insert_changed pvs t i) k (i + 1) (rw p.same_count h)
          (p.items.0 ∙ e ∙ sym p.same_count))

  choose-Reordered :
      (t : PrioritySender) (read : ℕ)
      → 0 < t.number_of_variables
      → length t.index_list ≡ t.number_of_variables
      → Reordered t (choose pvs t read).0
  unfolding choose
  choose-Reordered t read h e = elim (Bool-cases (leb t.number_of_chunks read)) [
    | inl k ↦ rw k (insert_all-Reordered t t.number_of_variables 0 h e)
    | inr k ↦ rw k (record {
      items = (refl, λ a. refl);
      same_count = refl;
      same_idx = refl;
      same_threads = refl;
    })
  ]

  restart-Reordered : (t : PrioritySender) (counter : ℕ) → Reordered t (restart pvs t counter)
  unfolding restart
  restart-Reordered t counter =
      elim (Bool-cases (
        ltb (sub32 t.number_of_variables (max_signals pvs t)) t.current_change_pos
        || leb t.reset_counter counter)) [
          | inl k ↦ rw k (record {
            items = (refl, λ a. refl);
            same_count = refl;
            same_idx = refl;
            same_threads = refl;
          })
          | inr k ↦ rw k (Reordered-refl t)
        ]

  schedule-Reordered :
      (t : PrioritySender) (read counter : ℕ)
      → 0 < t.number_of_variables
      → length t.index_list ≡ t.number_of_variables
      → Reordered t (schedule pvs t read counter).0
  unfolding schedule
  schedule-Reordered t read counter h e =
      let c = choose-Reordered t read h e in
      Reordered-trans c (
        Reordered-trans
          (record {
            items = (refl, λ a. refl);
            same_count = refl;
            same_idx = refl;
            same_threads = refl;
          })
          (restart-Reordered _ counter))

-- The list of a sender with `n` variables names each of them exactly once, and nothing else; so
-- does the copy of the pool threads; and the window starts inside.
pub record IsOrdered (t : PrioritySender) : Type 0 where
  pub positive : 0 < t.number_of_variables
  pub listed : length t.index_list ≡ t.number_of_variables
  pub each_once : (a : ℕ) → count a t.index_list ≡ (if ltb a t.number_of_variables then 1 else 0)
  pub threads_listed : length t.index_list_threads ≡ t.number_of_variables
  pub threads_each_once :
      (a : ℕ) → count a t.index_list_threads ≡ (if ltb a t.number_of_variables then 1 else 0)
  pub idx_in : t.current_idx < t.number_of_variables

Reordered-IsOrdered : {t t' : PrioritySender} → IsOrdered t → Reordered t t' → IsOrdered t'
Reordered-IsOrdered v p = record {
  positive = rw p.same_count v.positive;
  listed = p.items.0 ∙ v.listed ∙ sym p.same_count;
  each_once = λ a. rw p.same_count (p.items.1 a ∙ v.each_once a);
  threads_listed = rw (p.same_threads, p.same_count) v.threads_listed;
  threads_each_once = λ a. rw (p.same_threads, p.same_count) (v.threads_each_once a);
  idx_in = rw (p.same_idx, p.same_count) v.idx_in;
}

hand_out-IsOrdered : (t : PrioritySender) (n : ℕ) → IsOrdered t → IsOrdered (hand_out t n)
unfolding hand_out
hand_out-IsOrdered t n v = record {
  positive = v.positive;
  listed = v.listed;
  each_once = v.each_once;
  threads_listed = v.listed;
  threads_each_once = v.each_once;
  idx_in = omega (arith, v.positive);
}

prepare-IsOrdered :
    (pvs : List PvDescriptor) (l : Loop) (x : Input)
    → IsOrdered l.sender
    → IsOrdered (prepare pvs l x).sender
unfolding prepare
prepare-IsOrdered pvs l x v = elim (Bool-cases l.changed) [
  | inl k ↦ rw k v
  | inr k ↦ rw k (
      Reordered-IsOrdered synced
        (schedule-Reordered pvs _ x.chunks_read l.send_counter v.positive v.listed))
]
  where
    synced : IsOrdered (record (l.sender) { memory = x.memory; change_flag = x.flags })
    synced = record {
      positive = v.positive;
      listed = v.listed;
      each_once = v.each_once;
      threads_listed = v.threads_listed;
      threads_each_once = v.threads_each_once;
      idx_in = v.idx_in;
    }

cycle-IsOrdered :
    (pvs : List PvDescriptor) (l : Loop) (x : Input)
    → IsOrdered l.sender
    → IsOrdered (cycle pvs l x).sender
unfolding cycle
cycle-IsOrdered pvs l x v =
    let p = prepare pvs l x in
    let w = prepare-IsOrdered pvs l x v in
    elim (Bool-cases (x.finished == p.sender.number_of_pool_threads)) [
      | inl k ↦ rw k (hand_out-IsOrdered p.sender p.n_variables w)
      | inr k ↦ rw k w
    ]

-- However the flags change and whenever the pool threads finish, no round of the loop loses a
-- variable or doubles one: from a list, and a copy for the pool threads, that name every variable
-- exactly once, any number of rounds leaves such a list and copy, and the window starts inside the
-- list.
pub run_cycles-IsOrdered :
    (pvs : List PvDescriptor) (l : Loop) (xs : List Input)
    → IsOrdered l.sender
    → IsOrdered (run_cycles pvs l xs).sender
unfolding run_cycles
run_cycles-IsOrdered pvs l [] v = v
run_cycles-IsOrdered pvs l (x ∷ xs) v =
    run_cycles-IsOrdered pvs (cycle pvs l x) xs (cycle-IsOrdered pvs l x v)
