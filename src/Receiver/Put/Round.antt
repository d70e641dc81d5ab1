-- ===== src/Receiver/Put/Round.antt =====
-- One round of all threads that put.
use Prim.Native.Nat.{bit_or}
use marte2hieratika.Base.{
  take, copy_into, ℕ, zero, suc, ◌+◌, ◌-◌, ◌/◌, ◌≤◌, ◌<◌, ◌≡◌, refl, sym, ap, ◌∙◌, ◌⊎◌, inl, inr,
  List, [], ◌∷◌, ◌++◌, length, drop, get_or, replicate, length-replicate, copy_over, take-length,
  arith, ◌==◌, if◌then◌else◌, Bool-cases, u32_mod,
}
use marte2hieratika.Subscriber.{EpicsParserAndSubscriber}
use marte2hieratika.Subscriber.Memory.Ranges.{IsDivided, range_of-tiles}
use marte2hieratika.Receiver.{PvRecDescriptor, Receiver, no_pv}
use marte2hieratika.Receiver.Store.{synchronise}
use marte2hieratika.Receiver.Put.{range_of, Put, put_of, put_range, put_thread, synchronise_round}
use marte2hieratika.Subscriber.Memory

-- The numbers of a receiver as those of a data source with as many threads.
abbrev divided : Receiver → EpicsParserAndSubscriber
divided r = record {
  pv_descriptor = [];
  memory = [];
  memory_size = [];
  changed_flag_mem = [];
  number_of_variables = r.number_of_variables;
  number_of_pool_threads = r.number_of_init_threads;
  n_vars_per_chunk = r.number_of_variables / r.number_of_init_threads;
  max_array_size = r.max_array_size;
}

-- Enough variables for each thread.
pub record IsShared (r : Receiver) : Type 0 where
  pub threads : 0 < r.number_of_init_threads
  pub many : r.number_of_init_threads ≤ r.number_of_variables / r.number_of_init_threads
  pub small : r.number_of_variables < u32_mod

put_range-add :
    (r : Receiver) (i a b : ℕ) → put_range r i (a + b) ≡ put_range r i a ++ put_range r (i + a) b
unfolding put_range
put_range-add r i zero b =
    let none : 0 + b ≡ b = omega arith in let here : i + 0 ≡ i = omega arith in rw (none, here) refl
put_range-add r i (suc a) b =
    let more : suc a + b ≡ suc (a + b) = omega arith in
    let there : i + suc a ≡ i + 1 + a = omega arith in
    rw (more, there, put_range-add r (i + 1) a b)
      (elim (Bool-cases (get_or r.change_flag_2 i 0 == 1)) [
        | inl e ↦ rw e refl
        | inr e ↦ rw e refl
      ])

-- The puts of the threads up to `id`, one thread after another.
pub put_threads : Receiver → ℕ → List Put
put_threads r zero = []
put_threads r (suc id) = put_threads r id ++ put_thread r id

IsShared-IsDivided : (r : Receiver) → IsShared r → IsDivided (divided r)
IsShared-IsDivided r v = record {
  threads = v.threads;
  chunk = refl;
  many = v.many;
  small = v.small;
}

-- The ranges of the threads follow one on another.
range_of-tiled :
    (r : Receiver) (id : ℕ)
    → IsShared r
    → id < r.number_of_init_threads
    → ((range_of r 0).0 ≡ 0)
      × ((range_of r id).0 ≤ (range_of r id).1)
      × (((id + 1 < r.number_of_init_threads) × ((range_of r id).1 ≡ (range_of r (id + 1)).0))
          ⊎ ((id + 1 ≡ r.number_of_init_threads) × ((range_of r id).1 ≡ r.number_of_variables)))
unfolding range_of Memory.range_of
range_of-tiled r id v h = range_of-tiles (divided r) (IsShared-IsDivided r v) id h

-- Up to the last variable of a thread.
put_threads_range :
    (r : Receiver) (id : ℕ)
    → IsShared r
    → id < r.number_of_init_threads
    → put_threads r (suc id) ≡ put_range r 0 (range_of r id).1
unfolding put_threads put_thread
put_threads_range r zero v h =
    let first = (range_of-tiled r 0 v h).0 in
    let whole : (range_of r 0).1 - 0 ≡ (range_of r 0).1 = omega arith in rw (first, whole) refl
put_threads_range r (suc id) v h =
    let next : id + 1 ≡ suc id = omega arith in
    let before = range_of-tiled r id v (omega arith) in
    let here = range_of-tiled r (suc id) v h in
    let joined : (range_of r id).1 ≡ (range_of r (suc id)).0 = elim (before.2) [
      | inl more ↦ more.1 ∙ ap (λ k. (range_of r k).0) next
      | inr last ↦ absurd (omega (arith, last.0))
    ] in
    let whole : (range_of r (suc id)).0 + ((range_of r (suc id)).1 - (range_of r (suc id)).0)
        ≡ (range_of r (suc id)).1 =
      omega (arith, here.1) in
    let start : 0 + (range_of r (suc id)).0 ≡ (range_of r (suc id)).0 = omega arith in
    ap (λ l. l ++ put_thread r (suc id)) (put_threads_range r id v (omega arith))
    ∙ ap (λ k. put_range r 0 k ++ put_thread r (suc id)) joined
    ∙ ap
        (λ k.
          put_range r 0 (range_of r (suc id)).0
          ++ put_range r k ((range_of r (suc id)).1 - (range_of r (suc id)).0))
        (sym start)
    ∙ sym (put_range-add r 0 (range_of r (suc id)).0 _)
    ∙ ap (put_range r 0) whole

-- All threads together go through all variables.
put_threads_all :
    (r : Receiver)
    → IsShared r
    → put_threads r r.number_of_init_threads ≡ put_range r 0 r.number_of_variables
put_threads_all r v =
    let last = r.number_of_init_threads - 1 in
    let same : suc last ≡ r.number_of_init_threads = omega (arith, v.threads) in
    let tiled = range_of-tiled r last v (omega (arith, v.threads)) in
    let ends : (range_of r last).1 ≡ r.number_of_variables = elim (tiled.2) [
      | inl more ↦ absurd (omega (arith, more.0))
      | inr end ↦ end.1
    ] in
    ap (put_threads r) (sym same)
    ∙ put_threads_range r last v (omega (arith, v.threads))
    ∙ ap (put_range r 0) ends

-- The puts of all variables whose flag is 1, in their order, with the bytes of `memory`.
abbrev pub flagged_puts : List PvRecDescriptor → List ℕ → List ℕ → List Put
flagged_puts [] flags memory = []
flagged_puts (pv ∷ pvs) [] memory = []
flagged_puts (pv ∷ pvs) (flag ∷ flags) memory =
    let rest = flagged_puts pvs flags memory in
    if flag == 1
    then record {
      put_type = bit_or pv.pv_type 0x8000;
      elements = pv.number_of_elements;
      channel = pv.pv_name;
      bytes = drop pv.offset memory;
    }
      ∷ rest
    else rest

drop-here {ℓ} :
    {A : Type ℓ} (xs : List A) (i : ℕ) (a : A)
    → i < length xs
    → drop i xs ≡ get_or xs i a ∷ drop (i + 1) xs
drop-here [] i a h = absurd (omega arith)
drop-here (x ∷ xs) zero a h = refl
drop-here (x ∷ xs) (suc i) a h =
    let more : suc i + 1 ≡ suc (i + 1) = omega arith in rw more (drop-here xs i a (omega arith))

drop-all {ℓ} : {A : Type ℓ} (xs : List A) (i : ℕ) → length xs ≤ i → drop i xs ≡ []
drop-all [] zero h = refl
drop-all [] (suc i) h = refl
drop-all (x ∷ xs) zero h = absurd (omega arith)
drop-all (x ∷ xs) (suc i) h = drop-all xs i (omega arith)

put_range-flagged :
    (r : Receiver) (i k : ℕ)
    → i + k ≡ length r.pvs
    → i + k ≡ length r.change_flag_2
    → put_range r i k ≡ flagged_puts (drop i r.pvs) (drop i r.change_flag_2) r.memory_2
unfolding put_range put_of
put_range-flagged r i zero h g = rw (drop-all r.pvs i (omega arith)) refl
put_range-flagged r i (suc k) h g =
    ap (λ rest. if get_or r.change_flag_2 i 0 == 1 then put_of r i ∷ rest else rest)
      (put_range-flagged r (i + 1) k (omega arith) (omega arith))
    ∙ ap (λ flags. flagged_puts (get_or r.pvs i no_pv ∷ drop (i + 1) r.pvs) flags r.memory_2)
        (sym (drop-here r.change_flag_2 i 0 (omega arith)))
    ∙ ap (λ pvs. flagged_puts pvs (drop i r.change_flag_2) r.memory_2)
        (sym (drop-here r.pvs i no_pv (omega arith)))

-- The buffers have the sizes that `Start` gives them.
pub record IsBuffered (r : Receiver) : Type 0 where
  pub count : length r.pvs ≡ r.number_of_variables
  pub values : length r.memory ≡ r.total_memory_size
  pub copies : length r.memory_2 ≡ r.total_memory_size
  pub flags : length r.change_flag ≡ r.number_of_variables
  pub flag_copies : length r.change_flag_2 ≡ r.number_of_variables

-- After `Synchronise` all threads of `DiodeReceiverCycleLoop` together, one after the other, put
-- exactly the variables whose flag was set, each once and in order, with the bytes that the memory
-- held; the flags are reset and the memory stays. Each thread has at least as many variables as
-- there are threads, the variables are fewer than 2^32, and the buffers have the sizes that `Start`
-- gives them.
pub put_threads-synchronise_round :
    (r : Receiver)
    → IsShared r
    → IsBuffered r
    → (put_threads (synchronise_round r) r.number_of_init_threads
        ≡ flagged_puts r.pvs r.change_flag r.memory)
      × ((synchronise_round r).change_flag ≡ replicate r.number_of_variables 0)
      × ((synchronise_round r).memory ≡ r.memory)
unfolding synchronise_round synchronise
put_threads-synchronise_round r v b =
    let zeros = length-replicate {A = ℕ} r.number_of_variables 0 in
    let values =
      ap (λ n. copy_into r.memory_2 0 (take n r.memory)) (sym b.values)
      ∙ ap (copy_into r.memory_2 0) (take-length r.memory)
      ∙ copy_over r.memory_2 r.memory (omega (arith, b.values, b.copies)) in
    let flags =
      ap (λ n. copy_into r.change_flag_2 0 (take n r.change_flag)) (sym b.flags)
      ∙ ap (copy_into r.change_flag_2 0) (take-length r.change_flag)
      ∙ copy_over r.change_flag_2 r.change_flag (omega (arith, b.flags, b.flag_copies)) in
    let synced = synchronise_round r in
    (
      put_threads_all synced (record { threads = v.threads; many = v.many; small = v.small })
          ∙ put_range-flagged synced 0 r.number_of_variables (omega (arith, b.count))
              (omega (arith, ap length flags, b.flags))
          ∙ rw (values, flags) refl,
      copy_over r.change_flag (replicate r.number_of_variables 0) (omega (arith, b.flags, zeros)),
      refl,
    )
