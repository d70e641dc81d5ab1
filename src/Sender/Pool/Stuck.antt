-- ===== src/Sender/Pool/Stuck.antt =====
-- A thread that comes late to the event.
use marte2hieratika.Base.{
  Option-cases, ℕ, zero, suc, ◌+◌, ◌<◌, ◌≡◌, ◌≢◌, refl, ap, sym, subst, ◌∙◌, Bool, true, false,
  List, [], ◌∷◌, none, some, length, get_elem?, add32, inl, inr, arith, WhereSome, bind-WhereSome,
  ◌>>=◌,
}
use marte2hieratika.Subscriber.{PvDescriptor}
use marte2hieratika.Sender.Cycle.{Loop, Input}
use marte2hieratika.Sender.Cycle.Frame.{shares-cycle}
use marte2hieratika.Sender.Share.{take_share}
use marte2hieratika.Sender.Pool.{
  Phase, waiting, Pool, Action, thread, look, round, finish, thread_step, hands_out, act, run,
}
use marte2hieratika.Sender.Pool.Guarded.{rests, pool_threads, finished, act_shut}

-- The event is not posted, every thread is before one of its waits, and the loop counts too few.
record IsStuck (p : Pool) : Type 0 where
  shut : p.posted ≡ false
  resting : (k : ℕ) (phase : Phase) → get_elem? p.phases k ≡ some phase → rests phase ≢ 0
  missing : finished p ≢ pool_threads p
  unseen : (c f : ℕ) → p.seen ≡ some (c, f) → f ≢ pool_threads p

module _ (pvs : List PvDescriptor) where
  round-IsStuck :
      (p : Pool) (c f : ℕ) (memory flags : List ℕ)
      → p.seen ≡ some (c, f)
      → IsStuck p
      → WhereSome IsStuck (act pvs (round memory flags) p)
  unfolding act
  round-IsStuck p c f memory flags s v =
      let ne = v.unseen c f s in
      let no : hands_out p f ≡ false = ground arith in
      let x : Input = record { chunks_read = c; finished = f; memory = memory; flags = flags } in
      let same = shares-cycle pvs p.loop x no in
      let threads = ap (λ t. t.threads) same in
      let count = ap (λ t. t.finished) same in
      rw (s, ◌>>=◌)
        (record {
          shut = rw (no, v.shut) refl;
          resting = v.resting;
          missing = λ e. v.missing (sym count ∙ e ∙ threads);
          unseen = λ c' f' s'. cc;
        })

  act-IsStuck : (a : Action) (p : Pool) → IsStuck p → WhereSome IsStuck (act pvs a p)
  act-IsStuck (thread k err) p v = rw (act_shut pvs k err p (v.resting k) v.shut) tt
  act-IsStuck look p v =
      unfold act in
      record {
        shut = v.shut;
        resting = v.resting;
        missing = v.missing;
        unseen = λ c f s e. let same : finished p ≡ f = cc in v.missing (same ∙ e);
      }
  act-IsStuck (round memory flags) p v = elim (Option-cases p.seen) [
    | inl e ↦ unfold act in rw (e, ◌>>=◌) tt
    | inr ((c, f), e) ↦ round-IsStuck p c f memory flags e v
  ]

  run-IsStuck :
      (actions : List Action) (p : Pool) → IsStuck p → WhereSome IsStuck (run pvs actions p)
  unfolding run
  run-IsStuck [] p v = v
  run-IsStuck (a ∷ rest) p v =
      bind-WhereSome IsStuck (act pvs a p) (run pvs rest)
        (λ q e. run-IsStuck rest q (subst (WhereSome IsStuck) e (act-IsStuck a p v)))

-- Just after the loop has handed the variables out: the event is posted, and every thread is before
-- the wait of the main stage.
abbrev pub handed : Loop → List Phase → Pool
handed l others = record { loop = l; posted = true; seen = none; phases = waiting ∷ others }

abbrev pub AllWait : List Phase → Type 0
AllWait phases = (k : ℕ) (phase : Phase) → get_elem? phases k ≡ some phase → phase ≡ waiting

-- The first thread sends and comes back before any other gets to the event.
abbrev pub one_fast : List Action
one_fast = thread 0 false ∷ thread 0 false ∷ thread 0 false ∷ thread 0 false ∷ []

abbrev one_back : Loop → List Phase → Pool
one_back l others =
    let t = (take_share l.sender 0).0 in
    record {
      loop = record l { sender = record t { n_threads_finished = add32 t.n_threads_finished 1 } };
      posted = false;
      seen = none;
      phases = waiting ∷ others;
    }

one_fast_lem :
    (pvs : List PvDescriptor) (l : Loop) (others : List Phase)
    → run pvs one_fast (handed l others) ≡ some (one_back l others)
unfolding run act thread_step finish
one_fast_lem pvs l others = refl

-- With two threads or more that all wait when the variables are handed out, none counted,, there is
-- an order of steps after which the event is never posted again and no thread ever makes a step,
-- whatever the loop does: the first thread takes its share, sends it without an error and is
-- counted, which resets the event, before another gets past its wait.
pub run-one_fast :
    (pvs : List PvDescriptor) (l : Loop) (others : List Phase)
    → length others + 1 ≡ l.sender.number_of_pool_threads
    → 0 < length others
    → l.sender.n_threads_finished ≡ 0
    → AllWait others
    → (q : Pool) × (run pvs one_fast (handed l others) ≡ some q)
      × ((actions : List Action) (r : Pool)
          → run pvs actions q ≡ some r
          → (r.posted ≡ false) × ((k : ℕ) (err : Bool) → act pvs (thread k err) r ≡ none))
run-one_fast pvs l others size more none_yet wait =
    let v : IsStuck (one_back l others) =
      unfold take_share in
      record {
        shut = refl;
        resting = rest;
        missing = λ e. absurd (omega (arith, size, more, none_yet, e));
        unseen = λ c f s. cc;
      } in
    (
      one_back l others,
      one_fast_lem pvs l others,
      λ actions r e.
          let w : IsStuck r =
            subst (WhereSome IsStuck) e (run-IsStuck pvs actions (one_back l others) v) in
          (w.shut, λ k err. act_shut pvs k err r (w.resting k) w.shut),
    )
  where
    rest : (k : ℕ) (phase : Phase) → get_elem? (waiting ∷ others) k ≡ some phase → rests phase ≢ 0
    rest zero phase e h = let same : waiting ≡ phase = cc in omega (arith, ap rests same, h)
    rest (suc k) phase e h = omega (arith, ap rests (wait k phase e), h)
