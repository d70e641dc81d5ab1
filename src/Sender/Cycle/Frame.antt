-- ===== src/Sender/Cycle/Frame.antt =====
-- What a round of the loop leaves of the fields that the pool threads read.
use marte2hieratika.Base.{
  ℕ, zero, suc, ◌+◌, ◌≡◌, refl, ap, ◌∙◌, Bool, true, false, ◌||◌, List, ltb, leb, ◌==◌,
  if◌then◌else◌, Bool-cases, inl, inr, get_or, sub32,
}
use marte2hieratika.Subscriber.{PvDescriptor}
use marte2hieratika.Sender.{PrioritySender}
use marte2hieratika.Sender.Cycle.{
  insert_changed, insert_all_changed, position, choose, clamp_count, fit_bytes, take_changed,
  restart, schedule, hand_out, prepare, cycle, max_signals, Loop, Input,
}

-- What the pool threads read, and `nThreadsFinished`.
pub record Shares : Type 0 where
  pub variables : ℕ
  pub threads : ℕ
  pub changed : ℕ
  pub next : ℕ
  pub finished : ℕ
  pub list : List ℕ
  pub values : List ℕ

abbrev pub shares : PrioritySender → Shares
shares t = record {
  variables = t.number_of_variables;
  threads = t.number_of_pool_threads;
  changed = t.number_of_changed_variables;
  next = t.current_idx_threads;
  finished = t.n_threads_finished;
  list = t.index_list_threads;
  values = t.memory_threads;
}

shares_if :
    (t u : PrioritySender) (b : Bool) → shares u ≡ shares t → shares (if b then u else t) ≡ shares t
shares_if t u true e = e
shares_if t u false e = refl

module _ (pvs : List PvDescriptor) where
  shares-insert_changed : (t : PrioritySender) (i : ℕ) → shares (insert_changed pvs t i) ≡ shares t
  unfolding insert_changed
  shares-insert_changed t i =
      shares_if t _ (get_or t.change_flag (get_or t.index_list (position pvs t i) 0) 0 == 1) refl

  shares-insert_all_changed :
      (t : PrioritySender) (k i : ℕ) → shares (insert_all_changed pvs t k i) ≡ shares t
  unfolding insert_all_changed
  shares-insert_all_changed t zero i = refl
  shares-insert_all_changed t (suc k) i =
      shares-insert_all_changed (insert_changed pvs t i) k (i + 1) ∙ shares-insert_changed t i

  shares-choose : (t : PrioritySender) (chunks : ℕ) → shares (choose pvs t chunks).0 ≡ shares t
  unfolding choose
  shares-choose t chunks = elim (Bool-cases (leb t.number_of_chunks chunks)) [
    | inl b ↦ rw b (shares-insert_all_changed t t.number_of_variables 0)
    | inr b ↦ rw b refl
  ]

  shares-restart : (t : PrioritySender) (counter : ℕ) → shares (restart pvs t counter) ≡ shares t
  unfolding restart
  shares-restart t counter =
      shares_if t _
        (ltb (sub32 t.number_of_variables (max_signals pvs t)) t.current_change_pos
          || leb t.reset_counter counter)
        refl

  shares-schedule :
      (t : PrioritySender) (chunks counter : ℕ)
      → shares (schedule pvs t chunks counter).0 ≡ shares t
  unfolding schedule
  shares-schedule t chunks counter =
      let (chosen, wanted) = choose pvs t chunks in
      let n = fit_bytes pvs chosen (clamp_count pvs chosen wanted) 0 0 in
      shares-restart (take_changed pvs chosen n) counter ∙ shares-choose t chunks

  shares-prepare : (l : Loop) (x : Input) → shares (prepare pvs l x).sender ≡ shares l.sender
  unfolding prepare
  shares-prepare l x = elim (Bool-cases (l.changed)) [
    | inl b ↦ rw b refl
    | inr b ↦ rw b (
        shares-schedule (record (l.sender) { memory = x.memory; change_flag = x.flags })
          x.chunks_read l.send_counter)
  ]

  threads_test :
      (l : Loop) (x : Input)
      → (x.finished == (prepare pvs l x).sender.number_of_pool_threads)
        ≡ (x.finished == l.sender.number_of_pool_threads)
  threads_test l x = ap (λ s. x.finished == s.threads) (shares-prepare l x)

  -- A round that does not hand out leaves what the pool threads read.
  pub shares-cycle :
      (l : Loop) (x : Input)
      → (x.finished == l.sender.number_of_pool_threads) ≡ false
      → shares (cycle pvs l x).sender ≡ shares l.sender
  unfolding cycle
  shares-cycle l x e = rw (threads_test l x ∙ e) (shares-prepare l x)

  -- A round that does starts the count again.
  pub cycle_handed :
      (l : Loop) (x : Input)
      → (x.finished == l.sender.number_of_pool_threads) ≡ true
      → ((cycle pvs l x).sender.n_threads_finished ≡ 0)
        × ((cycle pvs l x).sender.number_of_pool_threads ≡ l.sender.number_of_pool_threads)
  unfolding cycle hand_out
  cycle_handed l x e = rw (threads_test l x ∙ e) (refl, ap (λ s. s.threads) (shares-prepare l x))
