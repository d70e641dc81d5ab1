-- ===== src/Subscriber/Startup/Going.antt =====
-- The startup stages do not get stuck.
use marte2hieratika.Base.{
  ◌>>=◌, ℕ, suc, ◌<◌, ◌≡◌, ◌≢◌, ◌++◌, add32, inl, inr, refl, ap, ◌∙◌, true, false, List, [], ◌∷◌,
  some, length, get_elem?, tally, arith, lt→ltb, dec_lt,
}
use marte2hieratika.Marte.{StringHelper}
use marte2hieratika.Channels.{ChannelAccess, Channel}
use marte2hieratika.Subscriber.{EpicsParserAndSubscriber}
use marte2hieratika.Subscriber.Offsets.{remap_offsets}
use marte2hieratika.Subscriber.Startup.{
  ThreadStage, numbered, filled, subscribed, failed, Startup, ThreadStep, take_number, fill,
  subscribe, fill_step, subscribe_step, startup_step, startup_run, not_started, is_initialised,
}
use marte2hieratika.Subscriber.Startup.Sound.{counts}
use marte2hieratika.Subscriber.Startup.Run.{IsParsed, startup_run-Sound}

-- A thread that is not counted.
not_counted :
    (stages : List ThreadStage)
    → tally counts stages < length stages
    → (k : ℕ) × (stage : ThreadStage) × (get_elem? stages k ≡ some stage) × (counts stage ≡ 0)
not_counted [] h = absurd (omega arith)
not_counted (numbered ∷ xs) h = (0, numbered, refl, refl)
not_counted (filled ∷ xs) h = (0, filled, refl, refl)
not_counted (failed ∷ xs) h = (0, failed, refl, refl)
not_counted (subscribed ∷ xs) h =
    let (k, stage, e, z) = not_counted xs (omega arith) in (suc k, stage, e, z)

module _ (s : StringHelper) (ca : ChannelAccess) (channels : ℕ → Channel) where
  step_of :
      (p : Startup) (k : ℕ) (stage : ThreadStage)
      → get_elem? p.stages k ≡ some stage
      → counts stage ≡ 0
      → stage ≢ failed
      → (a : ThreadStep) × (p' : Startup) × (startup_step s ca channels a p ≡ some p')
  unfolding startup_step fill_step subscribe_step
  step_of p k numbered e z ok =
      (fill k true, _, ap (λ o. o >>= λ stage. fill_step s ca channels k true stage p) e)
  step_of p k filled e z ok =
      (subscribe k, _, ap (λ o. o >>= λ stage. subscribe_step s ca channels k stage p) e)
  step_of p k subscribed e z ok = absurd (omega arith)
  step_of p k failed e z ok = absurd (ok refl)

  step_number :
      (p : Startup)
      → length p.stages < p.source.number_of_pool_threads
      → (p' : Startup) × (startup_step s ca channels take_number p ≡ some p')
  unfolding startup_step
  step_number p h = (
    record p { threat_cnt = add32 p.threat_cnt 1; stages = p.stages ++ (numbered ∷ []) },
    rw (lt→ltb _ _ h) refl,
  )

  -- The startup stages do not get stuck: from whatever state the threads of
  -- EpicsParserAndSubscriber have come to, in any order and with any answers of channel access,
  -- some thread can make a step, as long as `InitialisationDone` does not hold and no thread has
  -- had an error. `ParseAndSubscribe` has left the descriptors, empty memories and a chunk for each
  -- thread at least as large as the number of threads.
  pub startup_run_going :
      (t : EpicsParserAndSubscriber) (v : IsParsed t) (steps : List ThreadStep) (q : Startup)
      → startup_run s ca channels steps (not_started t) ≡ some q
      → is_initialised q ≡ false
      → ((k : ℕ) → get_elem? q.stages k ≢ some failed)
      → (a : ThreadStep) × (q' : Startup) × (startup_step s ca channels a q ≡ some q')
  unfolding is_initialised remap_offsets
  startup_run_going t v steps q e early well =
      elim (startup_run-Sound s ca channels t v steps q e) [
        | inl o ↦ elim (dec_lt (length q.stages) q.source.number_of_pool_threads) [
          | yes more ↦ let (q', e') = step_number q more in (take_number, q', e')
          | no all ↦
              let (k, stage, at, z) =
                not_counted q.stages (omega (arith, o.done, o.not_all, all, o.same.threads)) in
              step_of q k stage at z λ bad. well k (at ∙ ap some bad)
        ]
        | inr r ↦
            let same : q.source.number_of_pool_threads ≡ t.number_of_pool_threads =
              ap (λ (x : EpicsParserAndSubscriber). x.number_of_pool_threads) r.moved
              ∙ r.same.threads in
            let fewer : q.initialisation_done < q.source.number_of_pool_threads = ground arith in
            absurd (omega (arith, same, fewer, r.ready))
      ]
