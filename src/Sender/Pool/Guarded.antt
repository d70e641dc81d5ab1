-- ===== src/Sender/Pool/Guarded.antt =====
-- The count of the threads that have finished, and who may be in `SendVariables`.
use marte2hieratika.Base.{
  ◌>>=◌, length-replicate, ◌≢◌, subst, WhereSome, if-WhereSome, bind-WhereSome, ◌⊎◌, ℕ, ◌+◌, ◌≤◌,
  ◌<◌, ◌≡◌, refl, ap, sym, ◌∙◌, Bool, true, false, ◌||◌, List, [], ◌∷◌, none, some, length,
  length-set, get_elem?, tally, tally-set, tally-lt-length, u32_mod, Bool-cases, Option-cases, inl,
  inr, arith,
}
use marte2hieratika.Subscriber.{PvDescriptor}
use marte2hieratika.Sender.{PrioritySender}
use marte2hieratika.Sender.Cycle.{Loop, Input, cycle}
use marte2hieratika.Sender.Cycle.Frame.{shares-cycle, cycle_handed}
use marte2hieratika.Sender.Share.{take_share}
use marte2hieratika.Sender.Pool.{
  Phase, starting, connecting, idle, waiting, entering, sending, failing, Pool, Action, thread,
  look, round, with_sender, move, finish, thread_step, hands_out, act, run, started,
}

-- A thread before one of the waits.
abbrev pub rests : Phase → ℕ
rests starting = 1
rests connecting = 0
rests idle = 0
rests waiting = 1
rests entering = 0
rests sending = 0
rests failing = 0

pub rests_small : (phase : Phase) → rests phase ≤ 1
rests_small starting = omega arith
rests_small connecting = omega arith
rests_small idle = omega arith
rests_small waiting = omega arith
rests_small entering = omega arith
rests_small sending = omega arith
rests_small failing = omega arith

abbrev pub pool_threads : Pool → ℕ
pool_threads p = p.loop.sender.number_of_pool_threads

abbrev pub finished : Pool → ℕ
finished p = p.loop.sender.n_threads_finished

-- No more threads are counted than rest; none while the event is posted; and where the loop has seen
-- all of them they are still counted.
pub record IsGuarded (p : Pool) : Type 0 where
  pub size : length p.phases ≡ pool_threads p
  pub some_thread : 0 < pool_threads p
  pub few : pool_threads p < u32_mod
  pub counted : finished p ≤ tally rests p.phases
  pub closed : p.posted ≡ true → finished p ≡ 0
  pub seen_all : (c f : ℕ) → p.seen ≡ some (c, f) → f ≡ pool_threads p → finished p ≡ pool_threads p

-- A step that leaves the count, to a phase without a wait or from none.
pub moved-IsGuarded :
    (p : Pool) (k : ℕ) (from to : Phase)
    → get_elem? p.phases k ≡ some from
    → (p.posted ≡ true) ⊎ (rests from ≤ rests to)
    → IsGuarded p
    → IsGuarded (move k to p)
moved-IsGuarded p k from to e h v =
    let moved = tally-set rests p.phases k from to e in
    record {
      size = length-set p.phases k to ∙ v.size;
      some_thread = v.some_thread;
      few = v.few;
      counted = elim h [
        | inl b ↦ omega (arith, v.closed b)
        | inr le ↦ omega (arith, moved, v.counted)
      ];
      closed = v.closed;
      seen_all = v.seen_all;
    }

-- Another state of the loop with the same count and the same number of threads.
pub loop-IsGuarded :
    (p : Pool) (l : Loop)
    → l.sender.number_of_pool_threads ≡ pool_threads p
    → l.sender.n_threads_finished ≡ finished p
    → IsGuarded p
    → IsGuarded (record p { loop = l })
loop-IsGuarded p l threads same v = record {
  size = v.size ∙ sym threads;
  some_thread = omega (arith, threads, v.some_thread);
  few = omega (arith, threads, v.few);
  counted = omega (arith, same, v.counted);
  closed = λ b. same ∙ v.closed b;
  seen_all = λ c f s all. same ∙ v.seen_all c f s (all ∙ threads) ∙ sym threads;
}

pub finish_lem :
    (p : Pool) (k : ℕ) (from : Phase)
    → get_elem? p.phases k ≡ some from
    → rests from ≡ 0
    → IsGuarded p
    → (finished (finish p) ≡ finished p + 1) × (finished p < pool_threads p)
unfolding finish
finish_lem p k from e h v =
    let below = tally-lt-length rests rests_small p.phases k from e h in
    (omega (arith, below, v.counted, v.size, v.few), omega (arith, below, v.counted, v.size))

pub finished-IsGuarded :
    (p : Pool) (k : ℕ) (from to : Phase)
    → get_elem? p.phases k ≡ some from
    → rests from ≡ 0
    → rests to ≡ 1
    → IsGuarded p
    → IsGuarded (move k to (finish p))
unfolding finish
finished-IsGuarded p k from to e h h' v =
    let moved = tally-set rests p.phases k from to e in
    let (more, below) = finish_lem p k from e h v in
    record {
      size = length-set p.phases k to ∙ v.size;
      some_thread = v.some_thread;
      few = v.few;
      counted = omega (arith, more, moved, v.counted);
      closed = λ b. cc;
      seen_all = λ c f s all. absurd (omega (arith, v.seen_all c f s all, below));
    }

pub thread_step-IsGuarded :
    (k : ℕ) (err : Bool) (phase : Phase) (p : Pool)
    → get_elem? p.phases k ≡ some phase
    → IsGuarded p
    → WhereSome IsGuarded (thread_step k err phase p)
unfolding thread_step take_share
thread_step-IsGuarded k err starting p e v =
    if-WhereSome IsGuarded p.posted (move k connecting p)
      (λ b. moved-IsGuarded p k starting connecting e (inl b) v)
thread_step-IsGuarded k err connecting p e v =
    let t : PrioritySender = record (p.loop.sender) { chunck_counter = 0 } in
    moved-IsGuarded (with_sender p t) k connecting idle e (inr (omega arith))
      (loop-IsGuarded p (record (p.loop) { sender = t }) refl refl v)
thread_step-IsGuarded k err idle p e v = finished-IsGuarded p k idle waiting e refl refl v
thread_step-IsGuarded k err waiting p e v =
    if-WhereSome IsGuarded p.posted (move k entering p)
      (λ b. moved-IsGuarded p k waiting entering e (inl b) v)
thread_step-IsGuarded k err entering p e v =
    let t = (take_share (p.loop.sender) k).0 in
    moved-IsGuarded (with_sender p t) k entering sending e (inr (omega arith))
      (loop-IsGuarded p (record (p.loop) { sender = t }) refl refl v)
thread_step-IsGuarded k true sending p e v =
    moved-IsGuarded p k sending failing e (inr (omega arith)) v
thread_step-IsGuarded k false sending p e v =
    moved-IsGuarded p k sending idle e (inr (omega arith)) v
thread_step-IsGuarded k err failing p e v = finished-IsGuarded p k failing starting e refl refl v

-- The pool as the round leaves it, where the test of the loop came out as `now`.
module _ (pvs : List PvDescriptor) (p : Pool) (c f : ℕ) (memory flags : List ℕ) where
  abbrev pub found : Input
  found = record { chunks_read = c; finished = f; memory = memory; flags = flags }

  abbrev pub after_round : Bool → Pool
  after_round now = record p {
    loop = cycle pvs p.loop found;
    posted = now || p.posted;
    seen = none;
  }

  pub round-IsGuarded :
      (now : Bool)
      → hands_out p f ≡ now
      → p.seen ≡ some (c, f)
      → IsGuarded p
      → IsGuarded (after_round now)
  round-IsGuarded true e s v =
      let (none_left, threads) = cycle_handed pvs p.loop found e in
      record {
        size = v.size ∙ sym threads;
        some_thread = omega (arith, threads, v.some_thread);
        few = omega (arith, threads, v.few);
        counted = omega (arith, none_left);
        closed = λ b. none_left;
        seen_all = λ c' f' s' all. cc;
      }
  round-IsGuarded false e s v =
      let same = shares-cycle pvs p.loop found e in
      let threads = ap (λ x. x.threads) same in
      let count = ap (λ x. x.finished) same in
      record {
        size = v.size ∙ sym threads;
        some_thread = omega (arith, threads, v.some_thread);
        few = omega (arith, threads, v.few);
        counted = omega (arith, count, v.counted);
        closed = λ b. count ∙ v.closed b;
        seen_all = λ c' f' s' all. cc;
      }

module _ (pvs : List PvDescriptor) where
  pub act-IsGuarded : (a : Action) (p : Pool) → IsGuarded p → WhereSome IsGuarded (act pvs a p)
  unfolding act
  act-IsGuarded (thread k err) p v =
      bind-WhereSome IsGuarded (get_elem? p.phases k) (λ phase. thread_step k err phase p)
        (λ phase e. thread_step-IsGuarded k err phase p e v)
  act-IsGuarded look p v = record {
    size = v.size;
    some_thread = v.some_thread;
    few = v.few;
    counted = v.counted;
    closed = v.closed;
    seen_all = λ c f s all. let same : finished p ≡ f = cc in same ∙ all;
  }
  act-IsGuarded (round memory flags) p v =
      bind-WhereSome IsGuarded p.seen _
        (λ (c, f) e. round-IsGuarded pvs p c f memory flags (hands_out p f) refl e v)

  run-IsGuarded :
      (actions : List Action) (p : Pool) → IsGuarded p → WhereSome IsGuarded (run pvs actions p)
  unfolding run
  run-IsGuarded [] p v = v
  run-IsGuarded (a ∷ rest) p v =
      bind-WhereSome IsGuarded (act pvs a p) (run pvs rest)
        (λ q e. run-IsGuarded rest q (subst (WhereSome IsGuarded) e (act-IsGuarded a p v)))

started-IsGuarded :
    (t : PrioritySender)
    → 0 < t.number_of_pool_threads
    → t.number_of_pool_threads < u32_mod
    → t.n_threads_finished ≡ 0
    → IsGuarded (started t)
unfolding started
started-IsGuarded t some_thread few none_yet = record {
  size = length-replicate t.number_of_pool_threads starting;
  some_thread = some_thread;
  few = few;
  counted = omega (arith, none_yet);
  closed = λ b. none_yet;
  seen_all = λ c f s all. cc;
}

all_rest :
    (p : Pool) (k : ℕ) (phase : Phase)
    → IsGuarded p
    → finished p ≡ pool_threads p
    → get_elem? p.phases k ≡ some phase
    → rests phase ≢ 0
all_rest p k phase v all e h =
    omega (arith, tally-lt-length rests rests_small p.phases k phase e h, v.counted, v.size, all)

-- A thread that waits for the event makes no step.
thread_step_shut :
    (k : ℕ) (err : Bool) (phase : Phase) (p : Pool)
    → rests phase ≢ 0
    → p.posted ≡ false
    → thread_step k err phase p ≡ none
unfolding thread_step
thread_step_shut k err starting p h b = rw b refl
thread_step_shut k err connecting p h b = absurd (h refl)
thread_step_shut k err idle p h b = absurd (h refl)
thread_step_shut k err waiting p h b = rw b refl
thread_step_shut k err entering p h b = absurd (h refl)
thread_step_shut k err sending p h b = absurd (h refl)
thread_step_shut k err failing p h b = absurd (h refl)

pub act_shut :
    (pvs : List PvDescriptor) (k : ℕ) (err : Bool) (p : Pool)
    → ((phase : Phase) → get_elem? p.phases k ≡ some phase → rests phase ≢ 0)
    → p.posted ≡ false
    → act pvs (thread k err) p ≡ none
unfolding act
act_shut pvs k err p h b = elim (Option-cases (get_elem? p.phases k)) [
  | inl e ↦ rw (e, ◌>>=◌) refl
  | inr (phase, e) ↦ rw (e, ◌>>=◌) (thread_step_shut k err phase p (h phase e) b)
]

-- In whatever order the loop of PrioritySender and its pool threads step from `Start` on, with
-- errors of requests and threads that start again, the loop copies the memory and the list only
-- while no thread reads them: wherever it has read that all threads have finished, no thread can
-- make a step before the loop's own, which posts the event. There is a thread, there are fewer than
-- 2^32 of them, and none is counted at the start.
pub run-act_shut :
    (pvs : List PvDescriptor) (actions : List Action) (t : PrioritySender) (q : Pool)
    → 0 < t.number_of_pool_threads
    → t.number_of_pool_threads < u32_mod
    → t.n_threads_finished ≡ 0
    → run pvs actions (started t) ≡ some q
    → (chunks : ℕ) → q.seen ≡ some (chunks, q.loop.sender.number_of_pool_threads)
    → (k : ℕ) (err : Bool) → act pvs (thread k err) q ≡ none
run-act_shut pvs actions t q some_thread few none_yet e chunks s k err =
    let v : IsGuarded q =
      subst (WhereSome IsGuarded) e
        (run-IsGuarded pvs actions (started t) (started-IsGuarded t some_thread few none_yet)) in
    let all = v.seen_all chunks (pool_threads q) s refl in
    let shut : q.posted ≡ false = elim (Bool-cases q.posted) [
      | inl b ↦ absurd (omega (arith, v.closed b, all, v.some_thread))
      | inr b ↦ b
    ] in
    act_shut pvs k err q (λ phase there. all_rest q k phase v all there) shut
