-- ===== src/Subscriber/Startup/Sound.antt =====
-- The invariant of the startup stages, and the steps of a thread up to its subscriptions.
use marte2hieratika.Base.{
  ℕ, zero, suc, ◌≤◌, ◌<◌, ◌≡◌, ◌≢◌, ◌⊎◌, inl, inr, refl, sym, subst, ◌∙◌, List, [], ◌∷◌, ◌++◌,
  Option, none, some, length, length-append, get_elem?, set, length-set, get_elem?-set_self,
  get_elem?-set_ne, arith, add32, u32_mod, tally, tally-set, tally-le-length, tally-lt-length,
}
use native.Mathlib.Decide.{ℕ_discrete}
use marte2hieratika.Marte.{StringHelper}
use marte2hieratika.Channels.{ChannelAccess, Channel}
use marte2hieratika.Subscriber.{EpicsParserAndSubscriber}
use marte2hieratika.Subscriber.Memory.Ranges.{IsDivided}
use marte2hieratika.Subscriber.Offsets.{remap_offsets}
use marte2hieratika.Subscriber.Startup.{
  ThreadStage, numbered, filled, subscribed, failed, Startup, fill_range,
}
use marte2hieratika.Subscriber.Startup.Filled.{
  SameNumbers, IsFilled, IsFresh, fill_range-SameNumbers, fill_range-IsFilled, kept-IsFilled,
  kept-IsFresh,
}

-- Whether a thread is counted in `initialisationDone`.
abbrev pub counts : ThreadStage → ℕ
counts numbered = 0
counts filled = 0
counts subscribed = 1
counts failed = 0

counts_small : (stage : ThreadStage) → counts stage ≤ 1
counts_small numbered = omega arith
counts_small filled = omega arith
counts_small subscribed = omega arith
counts_small failed = omega arith

counted : (stage : ThreadStage) → 0 < counts stage → stage ≡ subscribed
counted numbered h = absurd (omega arith)
counted filled h = absurd (omega arith)
counted subscribed h = refl
counted failed h = absurd (omega arith)

tally-numbered :
    (stages : List ThreadStage) → tally counts (stages ++ (numbered ∷ [])) ≡ tally counts stages
tally-numbered [] = refl
tally-numbered (x ∷ xs) = omega (arith, tally-numbered xs)

get_numbered :
    (stages : List ThreadStage) (k : ℕ)
    → (get_elem? (stages ++ (numbered ∷ [])) k ≡ get_elem? stages k)
      ⊎ ((get_elem? stages k ≡ none) × (get_elem? (stages ++ (numbered ∷ [])) k ≡ some numbered))
get_numbered [] zero = inr (refl, refl)
get_numbered [] (suc k) = inl refl
get_numbered (x ∷ xs) zero = inl refl
get_numbered (x ∷ xs) (suc k) = get_numbered xs k

-- All threads are counted.
pub all_counted :
    (stages : List ThreadStage) (n : ℕ)
    → length stages ≤ n
    → tally counts stages ≡ n
    → (length stages ≡ n)
      × ((k : ℕ) (stage : ThreadStage) → get_elem? stages k ≡ some stage → stage ≡ subscribed)
all_counted stages n few all = (
  omega (arith, few, all, tally-le-length counts counts_small stages),
  λ k stage e. elim (ℕ_discrete (counts stage) 0) [
    | yes z ↦
        absurd (omega (arith, few, all, tally-lt-length counts counts_small stages k stage e z))
    | no nz ↦ counted stage (omega arith)
  ],
)

module _ (s : StringHelper) (ca : ChannelAccess) (channels : ℕ → Channel)
    (t : EpicsParserAndSubscriber) (v : IsDivided t) where
  -- The range of a thread, by its stage.
  abbrev pub Laid : EpicsParserAndSubscriber → ℕ → Option ThreadStage → Type 0
  Laid q k none = IsFresh s ca channels t v q k
  Laid q k (some numbered) = IsFresh s ca channels t v q k
  Laid q k (some filled) = IsFilled s ca channels t v q k
  Laid q k (some subscribed) = IsFilled s ca channels t v q k
  Laid q k (some failed) = Unit {0}

  -- Some threads are still to be counted.
  pub record IsOpen (p : Startup) : Type 0 where
    pub same : SameNumbers t p.source
    pub number : p.threat_cnt ≡ length p.stages
    pub few : length p.stages ≤ t.number_of_pool_threads
    pub laid : (k : ℕ) → k < t.number_of_pool_threads → Laid p.source k (get_elem? p.stages k)
    pub done : p.initialisation_done ≡ tally counts p.stages
    pub not_all : p.initialisation_done < t.number_of_pool_threads

  -- All threads are counted, and the last one has moved the offsets.
  pub record IsReady (p : Startup) : Type 0 where
    pub before : EpicsParserAndSubscriber
    pub same : SameNumbers t before
    pub all_filled : (k : ℕ) → k < t.number_of_pool_threads → IsFilled s ca channels t v before k
    pub moved : p.source ≡ remap_offsets before
    pub whole : length p.stages ≡ t.number_of_pool_threads
    pub all : (k : ℕ) (stage : ThreadStage) → get_elem? p.stages k ≡ some stage → stage ≡ subscribed
    pub ready : p.initialisation_done ≡ t.number_of_pool_threads

  abbrev pub Sound : Startup → Type 0
  Sound p = IsOpen p ⊎ IsReady p

  pub Laid-IsFilled :
      (q : EpicsParserAndSubscriber) (k : ℕ) (o : Option ThreadStage)
      → o ≡ some subscribed
      → Laid q k o
      → IsFilled s ca channels t v q k
  Laid-IsFilled q k o e h = subst (Laid q k) e h

  pub numbered-Sound :
      (p : Startup)
      → t.number_of_pool_threads < u32_mod
      → length p.stages < t.number_of_pool_threads
      → IsOpen p
      → IsOpen
          (record p { threat_cnt = add32 p.threat_cnt 1; stages = p.stages ++ (numbered ∷ []) })
  numbered-Sound p small room o = record {
    same = o.same;
    number = omega (arith, o.number, room, small, length-append p.stages (numbered ∷ []));
    few = omega (arith, room, length-append p.stages (numbered ∷ []));
    laid = λ k lt. elim (get_numbered p.stages k) [
      | inl e ↦ subst (Laid p.source k) (sym e) (o.laid k lt)
      | inr (none_yet, e) ↦
          subst (Laid p.source k) (sym e) (subst (Laid p.source k) none_yet (o.laid k lt))
    ];
    done = omega (arith, o.done, tally-numbered p.stages);
    not_all = o.not_all;
  }

  pub get_below :
      (stages : List ThreadStage) (k : ℕ) (stage : ThreadStage)
      → get_elem? stages k ≡ some stage
      → k < length stages
  get_below [] k a e = cc
  get_below (x ∷ xs) zero a e = omega arith
  get_below (x ∷ xs) (suc k) a e = omega (arith, get_below xs k a e)

  pub get_there :
      (stages : List ThreadStage) (k : ℕ)
      → k < length stages
      → (stage : ThreadStage) × (get_elem? stages k ≡ some stage)
  get_there [] k h = absurd (omega arith)
  get_there (x ∷ xs) zero h = (x, refl)
  get_there (x ∷ xs) (suc k) h = get_there xs k (omega arith)

  -- A thread goes on to the stage `to`, over the data source `q`.
  pub Laid-set :
      (p : Startup) (k : ℕ) (from to : ThreadStage) (q : EpicsParserAndSubscriber)
      → get_elem? p.stages k ≡ some from
      → Laid q k (some to)
      → ((j : ℕ) → j < t.number_of_pool_threads → k ≢ j → Laid q j (get_elem? p.stages j))
      → (j : ℕ) → j < t.number_of_pool_threads
      → Laid q j (get_elem? (set p.stages k to) j)
  Laid-set p k from to q e here others j lt = elim (ℕ_discrete k j) [
    | yes same ↦
        let self = get_elem?-set_self p.stages k to (get_below p.stages k from e) in
        subst (λ i. Laid q i (get_elem? (set p.stages k to) i)) same
          (subst (Laid q k) (sym self) here)
    | no ne ↦ subst (Laid q j) (sym (get_elem?-set_ne p.stages to ne)) (others j lt ne)
  ]

  kept-Laid :
      (q : EpicsParserAndSubscriber) (same : SameNumbers t q) (k : ℕ)
      (lt : k < t.number_of_pool_threads)
      → IsFresh s ca channels t v q k
      → (j : ℕ) → j < t.number_of_pool_threads
      → k ≢ j
      → (o : Option ThreadStage) → Laid q j o
      → Laid (fill_range s ca channels q k) j o
  kept-Laid q same k lt fresh j jlt ne none h =
      kept-IsFresh s ca channels t v q same k lt fresh j jlt ne h
  kept-Laid q same k lt fresh j jlt ne (some numbered) h =
      kept-IsFresh s ca channels t v q same k lt fresh j jlt ne h
  kept-Laid q same k lt fresh j jlt ne (some filled) h =
      kept-IsFilled s ca channels t v q same k lt fresh j jlt ne h
  kept-Laid q same k lt fresh j jlt ne (some subscribed) h =
      kept-IsFilled s ca channels t v q same k lt fresh j jlt ne h
  kept-Laid q same k lt fresh j jlt ne (some failed) h = tt

  pub filled-Sound :
      (p : Startup) (k : ℕ)
      → get_elem? p.stages k ≡ some numbered
      → IsOpen p
      → IsOpen (record p {
        source = fill_range s ca channels p.source k;
        stages = set p.stages k filled;
      })
  filled-Sound p k e o =
      let lt : k < t.number_of_pool_threads =
        omega (arith, o.few, get_below p.stages k numbered e) in
      let fresh : IsFresh s ca channels t v p.source k = subst (Laid p.source k) e (o.laid k lt) in
      record {
        same = fill_range-SameNumbers s ca channels t v p.source o.same k lt fresh;
        number = o.number ∙ sym (length-set p.stages k filled);
        few = omega (arith, o.few, length-set p.stages k filled);
        laid =
            Laid-set p k numbered filled (fill_range s ca channels p.source k) e
              (fill_range-IsFilled s ca channels t v p.source o.same k lt fresh)
              λ j jlt ne.
                kept-Laid p.source o.same k lt fresh j jlt ne (get_elem? p.stages j) (o.laid j jlt);
        done = omega (arith, o.done, tally-set counts p.stages k numbered filled e);
        not_all = o.not_all;
      }

  pub failed-Sound :
      (p : Startup) (k : ℕ)
      → get_elem? p.stages k ≡ some numbered
      → IsOpen p
      → IsOpen (record p { stages = set p.stages k failed })
  failed-Sound p k e o = record {
    same = o.same;
    number = o.number ∙ sym (length-set p.stages k failed);
    few = omega (arith, o.few, length-set p.stages k failed);
    laid = Laid-set p k numbered failed p.source e tt λ j jlt ne. o.laid j jlt;
    done = omega (arith, o.done, tally-set counts p.stages k numbered failed e);
    not_all = o.not_all;
  }
