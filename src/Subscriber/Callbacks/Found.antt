-- ===== src/Subscriber/Callbacks/Found.antt =====
-- A value from channel access, through the callbacks and `Synchronise`, in the memory of the sender.
use marte2hieratika.Base.{
  refl, subst, ap, length-set, get_or-set_self, take-length, take, ℕ, zero, suc, ◌+◌, ◌≤◌, ◌<◌, ◌≡◌,
  ◌⊎◌, inl, inr, ◌∙◌, List, [], ◌∷◌, length, slice, set, get_or, copy_into, length-copy_into,
  slice-copy_into_self, slice-copy_into_apart, arith, u32_mod,
}
use marte2hieratika.Subscriber.{PvDescriptor, EpicsParserAndSubscriber, value_size}
use marte2hieratika.Subscriber.Synchronise.{synchronise}
use marte2hieratika.Subscriber.Synchronise.Find.{Sizes, sizes_before, synchronise-find}
use marte2hieratika.Subscriber.Callbacks.{copy_to, get_value_callback, get_timeout_callback}

-- The memories and flags of the data source and of the sender, and a variable of the thread
-- `thread`: its value and its timestamp lie one behind the other in the memory of the thread.
pub record IsPlaced (t : EpicsParserAndSubscriber) (memory_out changed_flags : List ℕ) (thread : ℕ)
    (pv : PvDescriptor) : Type 0 where
  pub sizes : Sizes t.memory t.memory_size
  pub small : sizes_before t.memory_size (length t.memory_size) < u32_mod
  pub room : sizes_before t.memory_size (length t.memory_size) ≤ length memory_out
  pub flags : length t.changed_flag_mem ≡ t.number_of_variables
  pub flags_out : length changed_flags ≡ t.number_of_variables
  pub known : thread < length t.memory
  pub listed : pv.index < t.number_of_variables
  pub behind : pv.time_stamp ≡ pv.memory + value_size pv
  pub fits : pv.memory + value_size pv + 8 ≤ get_or t.memory_size thread 0

set-Sizes :
    (ms : List (List ℕ)) (ns : List ℕ) (k : ℕ) (m : List ℕ)
    → Sizes ms ns
    → length m ≡ length (get_or ms k [])
    → Sizes (set ms k m) ns
set-Sizes [] [] k m s e = tt
set-Sizes [] (n ∷ ns) k m s e = absurd s
set-Sizes (x ∷ xs) [] k m s e = absurd s
set-Sizes (x ∷ xs) (n ∷ ns) zero m s e = (e ∙ s.0, s.1)
set-Sizes (x ∷ xs) (n ∷ ns) (suc k) m s e = (s.0, set-Sizes xs ns k m s.1 e)

length-get_or :
    (ms : List (List ℕ)) (ns : List ℕ) (k : ℕ)
    → Sizes ms ns
    → k < length ms
    → length (get_or ms k []) ≡ get_or ns k 0
length-get_or [] ns k s lt = absurd (omega arith)
length-get_or (x ∷ xs) [] k s lt = absurd s
length-get_or (x ∷ xs) (n ∷ ns) zero s lt = s.0
length-get_or (x ∷ xs) (n ∷ ns) (suc k) s lt = length-get_or xs ns k s.1 (omega arith)

-- Two copies into one memory.
two_copies :
    (m v w : List ℕ) (p q : ℕ)
    → p + length v ≡ q
    → q + length w ≤ length m
    → let m' = copy_into (copy_into m p v) q w in
      (slice m' p (length v) ≡ v)
      × (slice m' q (length w) ≡ w)
      × ((a n : ℕ) → (a + n ≤ p) ⊎ (q + length w ≤ a) → slice m' a n ≡ slice m a n)
two_copies m v w p q e h =
    let same = length-copy_into m p v in
    (
      slice-copy_into_apart (copy_into m p v) q w p (length v) (inl (omega (arith, e)))
          ∙ slice-copy_into_self m p v (omega (arith, e)),
      slice-copy_into_self (copy_into m p v) q w (omega (arith, same)),
      λ a n apart. elim apart [
        | inl le ↦
            slice-copy_into_apart (copy_into m p v) q w a n (inl (omega (arith, e)))
            ∙ slice-copy_into_apart m p v a n (inl le)
        | inr le ↦
            slice-copy_into_apart (copy_into m p v) q w a n (inr le)
            ∙ slice-copy_into_apart m p v a n (inr (omega (arith, e)))
      ],
    )

-- The data source after both callbacks.
abbrev pub answered :
    ℕ → PvDescriptor → List ℕ → List ℕ → EpicsParserAndSubscriber → EpicsParserAndSubscriber
answered thread pv dbr stamp t =
    get_timeout_callback thread pv stamp (get_value_callback thread pv dbr t)

-- The memory of the thread after both.
abbrev both : ℕ → PvDescriptor → List ℕ → List ℕ → EpicsParserAndSubscriber → List ℕ
both thread pv dbr stamp t =
    copy_into (copy_into (get_or t.memory thread []) pv.memory dbr) pv.time_stamp stamp

module _ (t : EpicsParserAndSubscriber) (memory_out changed_flags : List ℕ) (thread : ℕ)
    (pv : PvDescriptor) (v : IsPlaced t memory_out changed_flags thread pv) (dbr stamp : List ℕ)
    (value : length dbr ≡ value_size pv) (eight : length stamp ≡ 8) where
  whole_value : take (value_size pv) dbr ≡ dbr
  whole_value = rw (← value) (take-length dbr)

  whole_stamp : take 8 stamp ≡ stamp
  whole_stamp = rw (← eight) (take-length stamp)

  after_value :
      (get_value_callback thread pv dbr t).memory
      ≡ set t.memory thread (copy_into (get_or t.memory thread []) pv.memory dbr)
  unfolding get_value_callback copy_to
  after_value = rw whole_value refl

  memory_kept :
      get_or (answered thread pv dbr stamp t).memory thread [] ≡ both thread pv dbr stamp t
  unfolding get_timeout_callback copy_to
  memory_kept =
      let first = copy_into (get_or t.memory thread []) pv.memory dbr in
      let there = get_or-set_self t.memory thread first [] v.known in
      let long = length-set t.memory thread first in
      rw (whole_stamp, after_value, there)
        (get_or-set_self (set t.memory thread first) thread (copy_into first pv.time_stamp stamp) []
          (omega (arith, long, v.known)))

  answered-Sizes : Sizes (answered thread pv dbr stamp t).memory t.memory_size
  unfolding get_timeout_callback copy_to
  answered-Sizes =
      let first = copy_into (get_or t.memory thread []) pv.memory dbr in
      rw (whole_stamp, after_value)
        (set-Sizes (set t.memory thread first) t.memory_size thread _
          (set-Sizes t.memory t.memory_size thread first v.sizes
            (length-copy_into (get_or t.memory thread []) pv.memory dbr))
          (length-copy_into (get_or (set t.memory thread first) thread []) pv.time_stamp stamp))

  answered-length : length (answered thread pv dbr stamp t).memory ≡ length t.memory
  unfolding get_timeout_callback copy_to
  answered-length = rw after_value (length-set _ thread _ ∙ length-set t.memory thread _)

  answered-flags :
      (answered thread pv dbr stamp t).changed_flag_mem ≡ set t.changed_flag_mem pv.index 1
  unfolding get_timeout_callback get_value_callback copy_to
  answered-flags = refl

  -- A value and a timestamp that channel access hands to the two callbacks of a variable stand,
  -- after `Synchronise` of EpicsParserAndSubscriber, in the memory that goes out, at the place of
  -- the variable behind the memories of the threads before, and the flag of the variable goes out
  -- set; the other parts of the memory of the thread go out as they were. The memories and flags
  -- have their sizes, the variable lies in the memory of its thread, the value has its bytes and
  -- the timestamp eight.
  pub callbacks-synchronise :
      let (out, flags, t') =
        synchronise (answered thread pv dbr stamp t) memory_out changed_flags in
      let start = sizes_before t.memory_size thread in
      (slice out (start + pv.memory) (value_size pv) ≡ dbr)
      × (slice out (start + pv.time_stamp) 8 ≡ stamp)
      × (get_or flags pv.index 0 ≡ 1)
      × ((a n : ℕ)
          → a + n ≤ get_or t.memory_size thread 0
          → (a + n ≤ pv.memory) ⊎ (pv.time_stamp + 8 ≤ a)
          → slice out (start + a) n ≡ slice (get_or t.memory thread []) a n)
  unfolding get_timeout_callback copy_to get_value_callback
  callbacks-synchronise =
      let t1 = answered thread pv dbr stamp t in
      let long = length-get_or t.memory t.memory_size thread v.sizes v.known in
      let found : (a n : ℕ)
          → a + n ≤ get_or t.memory_size thread 0
          → (slice (synchronise t1 memory_out changed_flags).0
                (sizes_before t.memory_size thread + a) n
              ≡ slice (both thread pv dbr stamp t) a n)
            × ((synchronise t1 memory_out changed_flags).1 ≡ set t.changed_flag_mem pv.index 1) =
        λ a n le.
          let e =
            synchronise-find t1 memory_out changed_flags thread a n answered-Sizes v.small v.room
              (ap length answered-flags ∙ length-set t.changed_flag_mem pv.index 1 ∙ v.flags)
              v.flags_out (omega (arith, answered-length, v.known)) le in
          (e.0 ∙ ap (λ m. slice m a n) memory_kept, e.1 ∙ answered-flags) in
      let copies =
        two_copies (get_or t.memory thread []) dbr stamp pv.memory pv.time_stamp
          (omega (arith, value, v.behind)) (omega (arith, eight, long, v.fits, v.behind)) in
      (
        (found pv.memory (value_size pv) (omega (arith, v.fits))).0
            ∙ subst (λ n. slice (both thread pv dbr stamp t) pv.memory n ≡ dbr) value copies.0,
        (found pv.time_stamp 8 (omega (arith, v.fits, v.behind))).0
            ∙ subst (λ n. slice (both thread pv dbr stamp t) pv.time_stamp n ≡ stamp) eight
                copies.1,
        ap (λ f. get_or f pv.index 0) (found 0 0 (omega arith)).1
            ∙ get_or-set_self t.changed_flag_mem pv.index 1 0 (omega (arith, v.flags, v.listed)),
        λ a n le apart.
            (found a n le).0
            ∙ copies.2 a n (elim apart [ inl h ↦ inl h | inr h ↦ inr (omega (arith, eight)) ]),
      )
