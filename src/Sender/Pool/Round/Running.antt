-- ===== src/Sender/Pool/Round/Running.antt =====
-- The shares that the threads take, step by step.
use marte2hieratika.Base.{
  append_assoc, append-AllBelow, count-append, Option-cases, ◌>>=◌, ℕ, ◌+◌, ◌<◌, ◌≡◌, ◌⊎◌, refl, ap,
  sym, subst, ◌∙◌, Bool, true, false, ◌||◌, List, [], ◌∷◌, ◌++◌, some, get_elem?, tally-set, inl,
  inr, arith, hits, count, sum_to-add, sum_to-hits, AllBelow, WhereSome, if-WhereSome,
  bind-WhereSome,
}
use marte2hieratika.Subscriber.{PvDescriptor}
use marte2hieratika.Sender.{PrioritySender}
use marte2hieratika.Sender.Cycle.Frame.{shares, shares-cycle}
use marte2hieratika.Sender.Share.{take_share, share_out}
use marte2hieratika.Sender.Share.Same.{share_out-same}
use marte2hieratika.Sender.Pool.{
  Phase, starting, connecting, idle, waiting, entering, sending, failing, Pool, thread, look, round,
  with_sender, move, finish, thread_step, hands_out, act, taken_at, positions_taken,
}
use marte2hieratika.Sender.Pool.Guarded.{
  IsGuarded, pool_threads, finish_lem, moved-IsGuarded, thread_step-IsGuarded, act-IsGuarded,
  round-IsGuarded, found,
}
use marte2hieratika.Sender.Pool.Round.{
  Sends, done, by_thread, by_look, by_round, carries, Fits, IsRunning, reset-Fits, length_of_get,
  moved-Fits,
}

-- From `p`, where the threads have taken `c` shares, the positions `ps` are taken on the way to `q`:
-- those of the threads `ids`, in their order.
pub record Sent (c : ℕ → ℕ) (p : Pool) (ps : List ℕ) (q : Pool) : Type 0 where
  pub ids : List ℕ
  pub below : AllBelow (pool_threads p) ids
  pub positions :
      (more : List ℕ) → ps ++ share_out q.loop.sender more ≡ share_out p.loop.sender (ids ++ more)
  pub shares : ℕ → ℕ
  pub counted : (j : ℕ) → shares j ≡ count j ids + c j
  pub running : IsRunning shares q
  pub threads : pool_threads q ≡ pool_threads p
  pub list : q.loop.sender.index_list_threads ≡ p.loop.sender.index_list_threads
  pub values : q.loop.sender.memory_threads ≡ p.loop.sender.memory_threads

-- A step without a share, that leaves what the shares depend on.
nothing_sent :
    (c : ℕ → ℕ) (p q : Pool)
    → IsRunning c q
    → q.loop.sender.number_of_variables ≡ p.loop.sender.number_of_variables
    → pool_threads q ≡ pool_threads p
    → q.loop.sender.number_of_changed_variables ≡ p.loop.sender.number_of_changed_variables
    → q.loop.sender.current_idx_threads ≡ p.loop.sender.current_idx_threads
    → q.loop.sender.index_list_threads ≡ p.loop.sender.index_list_threads
    → q.loop.sender.memory_threads ≡ p.loop.sender.memory_threads
    → Sent c p [] q
nothing_sent c p q v variables threads changed next list values = record {
  ids = [];
  below = tt;
  positions =
      λ more. share_out-same p.loop.sender q.loop.sender more variables threads changed next;
  shares = c;
  counted = λ j. omega arith;
  running = v;
  threads = threads;
  list = list;
  values = values;
}

module _ (c : ℕ → ℕ) (k : ℕ) (p : Pool) (v : IsRunning c p) where
  -- A step of a thread that leaves the sender.
  moved_on :
      (from to : Phase)
      → get_elem? p.phases k ≡ some from
      → carries from ≡ carries to
      → Fits to p.posted (c k)
      → IsGuarded (move k to p)
      → Sent c p [] (move k to p)
  moved_on from to e same here g =
      nothing_sent c p (move k to p)
        (record {
          guard = g;
          fits = moved-Fits p.phases k from to p.posted p.posted c c e v.fits here (λ j ne. refl);
          total = omega (arith, v.total, tally-set carries p.phases k from to e, same);
        })
        refl refl refl refl refl refl

  come_back :
      get_elem? p.phases k ≡ some idle
      → IsGuarded (move k waiting (finish p))
      → Sent c p [] (move k waiting (finish p))
  unfolding finish
  come_back e g =
      let (more, below) = finish_lem p k idle e refl v.guard in
      let one : c k ≡ 1 = v.fits k idle e in
      nothing_sent c p (move k waiting (finish p))
        (record {
          guard = g;
          fits =
              moved-Fits p.phases k idle waiting p.posted false c c e
                (λ j phase there. reset-Fits phase p.posted (c j) (v.fits j phase there))
                (inr (one, refl)) (λ j ne. refl);
          total = omega (arith, v.total, tally-set carries p.phases k idle waiting e, more);
        })
        refl refl refl refl refl refl

  abbrev with_share : PrioritySender
  with_share = (take_share (p.loop.sender) k).0

  take_one :
      get_elem? p.phases k ≡ some entering
      → IsGuarded (move k sending (with_sender p with_share))
      → Sent c p (taken_at entering k p.loop.sender) (move k sending (with_sender p with_share))
  unfolding taken_at take_share
  take_one e g =
      let none_yet : c k ≡ 0 = v.fits k entering e in
      let inside : k < pool_threads p =
        omega (arith, length_of_get p.phases k entering e, v.guard.size) in
      record {
        ids = k ∷ [];
        below = (inside, tt);
        positions = λ more. unfold share_out in refl;
        shares = λ j. hits j k + c j;
        counted = λ j. omega arith;
        running = record {
          guard = g;
          fits =
              moved-Fits p.phases k entering sending p.posted p.posted c (λ j. hits j k + c j) e
                v.fits (ground (arith, none_yet)) (λ j ne. ground arith);
          total = omega (
            arith,
            v.total,
            tally-set carries p.phases k entering sending e,
            sum_to-add (pool_threads p) (λ j. hits j k) c,
            sum_to-hits (pool_threads p) k inside,
          );
        };
        threads = refl;
        list = refl;
        values = refl;
      }

not_yet : {n : ℕ} {b : Bool} → (n ≡ 0) ⊎ ((n ≡ 1) × (b ≡ false)) → b ≡ true → n ≡ 0
not_yet (inl h) e = h
not_yet (inr (h, shut)) e = cc

module _ (c : ℕ → ℕ) (k : ℕ) (p : Pool) (v : IsRunning c p) where
  thread_step-Sent :
      (phase : Phase)
      → get_elem? p.phases k ≡ some phase
      → WhereSome IsGuarded (thread_step k false phase p)
      → WhereSome (Sent c p (taken_at phase k p.loop.sender)) (thread_step k false phase p)
  unfolding thread_step taken_at
  thread_step-Sent starting e g = absurd (v.fits k starting e)
  thread_step-Sent connecting e g = absurd (v.fits k connecting e)
  thread_step-Sent idle e g = come_back c k p v e g
  thread_step-Sent waiting e g = if-WhereSome (Sent c p []) p.posted (move k entering p) (λ b.
      moved_on c k p v waiting entering e refl (not_yet (v.fits k waiting e) b)
        (moved-IsGuarded p k waiting entering e (inl b) v.guard))
  thread_step-Sent entering e g = take_one c k p v e g
  thread_step-Sent sending e g = moved_on c k p v sending idle e refl (v.fits k sending e) g
  thread_step-Sent failing e g = absurd (v.fits k failing e)

-- A step of the loop that does not hand out.
loop_step-Sent :
    (c : ℕ → ℕ) (p q : Pool)
    → IsRunning c p
    → IsGuarded q
    → shares q.loop.sender ≡ shares p.loop.sender
    → q.phases ≡ p.phases
    → q.posted ≡ p.posted
    → Sent c p [] q
loop_step-Sent c p q v g same phases posted =
    let count = ap (λ x. x.finished) same in
    let threads = ap (λ x. x.threads) same in
    nothing_sent c p q
      (record {
        guard = g;
        fits = rw (phases, posted) v.fits;
        total = rw (threads, count, phases) v.total;
      })
      (ap (λ x. x.variables) same) threads (ap (λ x. x.changed) same) (ap (λ x. x.next) same)
      (ap (λ x. x.list) same) (ap (λ x. x.values) same)

module _ (pvs : List PvDescriptor) (c : ℕ → ℕ) (p : Pool) (v : IsRunning c p) where
  thread-Sent : (k : ℕ) → WhereSome (Sent c p (positions_taken k p)) (act pvs (thread k false) p)
  unfolding act positions_taken
  thread-Sent k = elim (Option-cases (get_elem? p.phases k)) [
    | inl e ↦ rw (e, ◌>>=◌) tt
    | inr (phase, e) ↦
        rw (e, ◌>>=◌, positions_taken)
          (thread_step-Sent c k p v phase e (thread_step-IsGuarded k false phase p e v.guard))
  ]

  look-Sent : WhereSome (Sent c p []) (act pvs look p)
  unfolding act
  look-Sent = loop_step-Sent c p _ v (unfold act in act-IsGuarded pvs look p v.guard) refl refl refl

  round-Sent :
      (memory flags : List ℕ)
      → ((chunks f : ℕ) → p.seen ≡ some (chunks, f) → hands_out p f ≡ false)
      → WhereSome (Sent c p []) (act pvs (round memory flags) p)
  unfolding act
  round-Sent memory flags keeps = bind-WhereSome (Sent c p []) p.seen _ (λ (chunks, f) e.
      let shut = keeps chunks f e in
      loop_step-Sent c p _ v
        (round-IsGuarded pvs p chunks f memory flags (hands_out p f) refl e v.guard)
        (shares-cycle pvs p.loop (found pvs p chunks f memory flags) shut) refl
        (ap (λ b. b || p.posted) shut))

-- A step, and what is sent after it.
Sent-trans :
    (c : ℕ → ℕ) (p q r : Pool) (ps qs : List ℕ) (s : Sent c p ps q)
    → Sent s.shares q qs r
    → Sent c p (ps ++ qs) r
Sent-trans c p q r ps qs s u = record {
  ids = s.ids ++ u.ids;
  below =
      append-AllBelow (pool_threads p) s.ids u.ids s.below
        (subst (λ n. AllBelow n u.ids) s.threads u.below);
  positions = λ more.
      append_assoc ps qs (share_out r.loop.sender more)
      ∙ ap (λ xs. ps ++ xs) (u.positions more)
      ∙ s.positions (u.ids ++ more)
      ∙ ap (share_out p.loop.sender) (sym (append_assoc s.ids u.ids more));
  shares = u.shares;
  counted = λ j. omega (arith, u.counted j, s.counted j, count-append s.ids u.ids j);
  running = u.running;
  threads = u.threads ∙ s.threads;
  list = u.list ∙ s.list;
  values = u.values ∙ s.values;
}

module _ (pvs : List PvDescriptor) where
  pub Sends-Sent :
      (c : ℕ → ℕ) {p r : Pool} {ps : List ℕ} → Sends pvs p ps r → IsRunning c p → Sent c p ps r
  Sends-Sent c {p} done v = nothing_sent c p p v refl refl refl refl refl refl
  Sends-Sent c {p} {r} (by_thread {q} {ps} k e rest) v =
      let s : Sent c p (positions_taken k p) q =
        subst (WhereSome (Sent c p (positions_taken k p))) e (thread-Sent pvs c p v k) in
      Sent-trans c p q r (positions_taken k p) ps s (Sends-Sent s.shares rest s.running)
  Sends-Sent c {p} {r} (by_look {q} {ps} e rest) v =
      let s : Sent c p [] q = subst (WhereSome (Sent c p [])) e (look-Sent pvs c p v) in
      Sent-trans c p q r [] ps s (Sends-Sent s.shares rest s.running)
  Sends-Sent c {p} {r} (by_round {q} {ps} memory flags keeps e rest) v =
      let s : Sent c p [] q =
        subst (WhereSome (Sent c p [])) e (round-Sent pvs c p v memory flags keeps) in
      Sent-trans c p q r [] ps s (Sends-Sent s.shares rest s.running)
