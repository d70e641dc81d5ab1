-- ===== src/Subscriber/Startup/Run.antt =====
-- Any run of the startup stages.
use marte2hieratika.Base.{
  Option-cases, Bool-cases, bind-WhereSome, if-WhereSome, WhereSome, ◌>>=◌, ℕ, ◌+◌, ◌-◌, ◌≤◌, ◌<◌,
  ◌≡◌, inl, inr, refl, ap, sym, subst, ◌∙◌, Bool, true, false, List, [], ◌∷◌, none, some, length,
  get_elem?, set, length-set, arith, add32, sub32, leb, ltb, u32_mod, tally-set, ltb→lt, leb→le,
  get_or,
}
use marte2hieratika.Marte.{StringHelper}
use marte2hieratika.Channels.{ChannelAccess, Channel}
use marte2hieratika.Subscriber.{EpicsParserAndSubscriber}
use marte2hieratika.Subscriber.Memory.Ranges.{IsDivided, multiple_in}
use marte2hieratika.Subscriber.Offsets.{remap_offsets}
use marte2hieratika.Subscriber.Startup.{
  ThreadStage, numbered, filled, subscribed, failed, Startup, ThreadStep, take_number, fill,
  subscribe, fill_step, count_thread, subscribe_step, startup_step, startup_run, not_started,
  is_initialised,
}
use marte2hieratika.Subscriber.Startup.Sound.{
  counts, all_counted, IsOpen, IsReady, Sound, Laid, Laid-IsFilled, numbered-Sound, get_below,
  get_there, Laid-set, filled-Sound, failed-Sound,
}

module _ (s : StringHelper) (ca : ChannelAccess) (channels : ℕ → Channel)
    (t : EpicsParserAndSubscriber) (v : IsDivided t) where
  module _ (small : t.number_of_pool_threads < u32_mod) where
    -- The last lock of `CreateSubscriptions`.
    subscribed-Sound :
        (p : Startup) (k : ℕ)
        → get_elem? p.stages k ≡ some filled
        → IsOpen s ca channels t v p
        → Sound s ca channels t v (count_thread (record p { stages = set p.stages k subscribed }))
    unfolding count_thread
    subscribed-Sound p k e o =
        let lt : k < t.number_of_pool_threads =
          omega (arith, o.few, get_below s ca channels t v p.stages k filled e) in
        let more = tally-set counts p.stages k filled subscribed e in
        let size = length-set p.stages k subscribed in
        let whole : add32 p.initialisation_done 1 ≡ p.initialisation_done + 1 =
          omega (arith, o.not_all, small) in
        let fewer : sub32 p.source.number_of_pool_threads 1 ≡ t.number_of_pool_threads - 1 =
          omega (arith, o.same.threads, o.not_all, small) in
        let laid =
          Laid-set s ca channels t v p k filled subscribed p.source e
            (subst (Laid s ca channels t v p.source k) e (o.laid k lt)) λ j jlt ne. o.laid j jlt in
        elim (Bool-cases (leb (sub32 p.source.number_of_pool_threads 1) p.initialisation_done)) [
          | inl b ↦
              let last : p.initialisation_done + 1 ≡ t.number_of_pool_threads =
                (let le : sub32 p.source.number_of_pool_threads 1 ≤ p.initialisation_done =
                    ground arith in
                  omega (arith, o.not_all, le, fewer)) in
              let (full, all) =
                all_counted (set p.stages k subscribed) t.number_of_pool_threads
                  (omega (arith, size, o.few)) (omega (arith, more, o.done, last)) in
              inr (record {
                before = p.source;
                same = o.same;
                all_filled = λ j jlt.
                    Laid-IsFilled s ca channels t v p.source j
                      (get_elem? (set p.stages k subscribed) j)
                      (let (stage, at) =
                          get_there s ca channels t v (set p.stages k subscribed) j
                            (omega (arith, full)) in
                        at ∙ ap some (all j stage at))
                      (laid j jlt);
                moved = rw b refl;
                whole = full;
                all = all;
                ready = whole ∙ last;
              })
          | inr b ↦ inl (record {
            same = rw b (o.same);
            number = o.number ∙ sym size;
            few = omega (arith, size, o.few);
            laid = rw b laid;
            done = omega (arith, whole, o.done, more);
            not_all =
                (let gt : p.initialisation_done < sub32 p.source.number_of_pool_threads 1 =
                    ground arith in
                  omega (arith, o.not_all, whole, gt, fewer));
          })
        ]

    fill_step-Sound :
        (k : ℕ) (ok : Bool) (stage : ThreadStage) (p : Startup)
        → get_elem? p.stages k ≡ some stage
        → IsOpen s ca channels t v p
        → WhereSome (Sound s ca channels t v) (fill_step s ca channels k ok stage p)
    unfolding fill_step
    fill_step-Sound k true numbered p e o = inl (filled-Sound s ca channels t v p k e o)
    fill_step-Sound k false numbered p e o = inl (failed-Sound s ca channels t v p k e o)
    fill_step-Sound k ok filled p e o = tt
    fill_step-Sound k ok subscribed p e o = tt
    fill_step-Sound k ok failed p e o = tt

    subscribe_step-Sound :
        (k : ℕ) (stage : ThreadStage) (p : Startup)
        → get_elem? p.stages k ≡ some stage
        → IsOpen s ca channels t v p
        → WhereSome (Sound s ca channels t v) (subscribe_step s ca channels k stage p)
    unfolding subscribe_step
    subscribe_step-Sound k filled p e o = subscribed-Sound p k e o
    subscribe_step-Sound k numbered p e o = tt
    subscribe_step-Sound k subscribed p e o = tt
    subscribe_step-Sound k failed p e o = tt

    -- No thread makes a step once all are counted.
    ready_done :
        (a : ThreadStep) (p : Startup)
        → IsReady s ca channels t v p
        → startup_step s ca channels a p ≡ none
    unfolding startup_step fill_step subscribe_step remap_offsets
    ready_done take_number p r =
        let same : p.source.number_of_pool_threads ≡ t.number_of_pool_threads =
          ap (λ (x : EpicsParserAndSubscriber). x.number_of_pool_threads) r.moved
          ∙ r.same.threads in
        let full : ltb (length p.stages) p.source.number_of_pool_threads ≡ false =
          ground (arith, r.whole, same) in
        rw full refl
    ready_done (fill k ok) p r = elim (Option-cases (get_elem? p.stages k)) [
      | inl e ↦ rw (e, ◌>>=◌) refl
      | inr (stage, e) ↦ rw (e, ◌>>=◌, r.all k stage e) refl
    ]
    ready_done (subscribe k) p r = elim (Option-cases (get_elem? p.stages k)) [
      | inl e ↦ rw (e, ◌>>=◌) refl
      | inr (stage, e) ↦ rw (e, ◌>>=◌, r.all k stage e) refl
    ]

    step-Sound :
        (a : ThreadStep) (p : Startup)
        → IsOpen s ca channels t v p
        → WhereSome (Sound s ca channels t v) (startup_step s ca channels a p)
    unfolding startup_step
    step-Sound take_number p o =
        if-WhereSome (Sound s ca channels t v)
          (ltb (length p.stages) p.source.number_of_pool_threads) _
          λ b. inl (
            numbered-Sound s ca channels t v p small (omega (arith, ltb→lt _ _ b, o.same.threads))
              o)
    step-Sound (fill k ok) p o =
        bind-WhereSome (Sound s ca channels t v) (get_elem? p.stages k)
          (λ stage. fill_step s ca channels k ok stage p)
          λ stage e. fill_step-Sound k ok stage p e o
    step-Sound (subscribe k) p o =
        bind-WhereSome (Sound s ca channels t v) (get_elem? p.stages k)
          (λ stage. subscribe_step s ca channels k stage p)
          λ stage e. subscribe_step-Sound k stage p e o

    run-Sound :
        (steps : List ThreadStep) (p : Startup)
        → Sound s ca channels t v p
        → WhereSome (Sound s ca channels t v) (startup_run s ca channels steps p)
    unfolding startup_run
    run-Sound [] p h = h
    run-Sound (a ∷ rest) p (inl o) =
        bind-WhereSome (Sound s ca channels t v) (startup_step s ca channels a p)
          (startup_run s ca channels rest)
          λ q e. run-Sound rest q (subst (WhereSome (Sound s ca channels t v)) e (step-Sound a p o))
    run-Sound (a ∷ rest) p (inr r) = rw (ready_done a p r, ◌>>=◌) tt

-- What `ParseAndSubscribe` leaves for the threads.
pub record IsParsed (t : EpicsParserAndSubscriber) : Type 0 where
  pub divided : IsDivided t
  pub described : length t.pv_descriptor ≡ t.number_of_variables
  pub sizes : length t.memory_size ≡ t.number_of_pool_threads
  pub empty : (k : ℕ) → get_or t.memory_size k 0 ≡ 0
  pub memories : length t.memory ≡ t.number_of_pool_threads

-- Every state that the threads come to satisfies the invariant.
pub startup_run-Sound :
    (s : StringHelper) (ca : ChannelAccess) (channels : ℕ → Channel) (t : EpicsParserAndSubscriber)
    (v : IsParsed t) (steps : List ThreadStep) (q : Startup)
    → startup_run s ca channels steps (not_started t) ≡ some q
    → Sound s ca channels t v.divided q
unfolding not_started
startup_run-Sound s ca channels t v steps q e =
    let fewer : t.number_of_pool_threads < u32_mod =
      omega (arith, multiple_in t v.divided 1 v.divided.threads, v.divided.many, v.divided.small) in
    let opened : IsOpen s ca channels t v.divided (not_started t) = record {
      same = record {
        variables = refl;
        threads = refl;
        chunk = refl;
        limit = refl;
        pvs = v.described;
        sizes = v.sizes;
        memories = v.memories;
      };
      number = refl;
      few = omega arith;
      laid = λ k lt. record { range = refl; size = v.empty k };
      done = refl;
      not_all = v.divided.threads;
    } in
    subst (WhereSome (Sound s ca channels t v.divided)) e
      (run-Sound s ca channels t v.divided fewer steps (not_started t) (inl opened))

-- Once `InitialisationDone` holds, all threads have laid out their ranges, and the offsets are moved.
pub startup_run-IsReady :
    (s : StringHelper) (ca : ChannelAccess) (channels : ℕ → Channel) (t : EpicsParserAndSubscriber)
    (v : IsParsed t) (steps : List ThreadStep) (q : Startup)
    → startup_run s ca channels steps (not_started t) ≡ some q
    → is_initialised q ≡ true
    → IsReady s ca channels t v.divided q
unfolding is_initialised
startup_run-IsReady s ca channels t v steps q e ready =
    elim (startup_run-Sound s ca channels t v steps q e) [
      | inl o ↦ absurd (omega (arith, o.not_all, leb→le _ _ ready, o.same.threads))
      | inr r ↦ r
    ]
