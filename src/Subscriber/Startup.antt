-- ===== src/Subscriber/Startup.antt =====
-- The startup stage of `EpicsParserAndSubscriber::Execute` in EpicsParserAndSubscriber.cpp: all its
-- threads, one step from each lock to the next, in any order. A thread is at its `threadId` in
-- `stages`, from the moment it has one. What a thread does that starts again after an error is not
-- modelled.
pub mod Rewrite
pub mod Filled
pub mod Sound
pub mod Run
pub mod Places
pub mod Regions
pub mod Found
pub mod Going
pub mod Tests
use marte2hieratika.Base.{
  ◌>>=◌, ℕ, ◌-◌, Bool, true, false, List, [], ◌∷◌, ◌++◌, Option, none, some, length, get_elem?, set,
  map, slice, copy_into, add32, sub32, ltb, leb, if◌then◌else◌,
}
use marte2hieratika.Marte.{StringHelper}
use marte2hieratika.Channels.{ChannelAccess, Channel}
use marte2hieratika.Subscriber.{PvDescriptor, EpicsParserAndSubscriber}
use marte2hieratika.Subscriber.Connect.{cainfo}
use marte2hieratika.Subscriber.Memory.{range_of, fill_memory_sizes}
use marte2hieratika.Subscriber.Offsets.{remap_offsets}

-- Where a thread is: it has its number; it has filled its memory; it has subscribed; or it had an
-- error.
pub data ThreadStage : Type 0 where
  numbered : ThreadStage
  filled : ThreadStage
  subscribed : ThreadStage
  failed : ThreadStage

-- The data source, `threatCnt`, `initialisationDone`, and the threads.
pub record Startup : Type 0 where
  pub source : EpicsParserAndSubscriber
  pub threat_cnt : ℕ
  pub initialisation_done : ℕ
  pub stages : List ThreadStage

-- A thread takes a number; the thread of a number creates its context and fills its memory, with
-- whether both succeed; it subscribes.
pub data ThreadStep : Type 0 where
  take_number : ThreadStep
  fill : ℕ → Bool → ThreadStep
  subscribe : ℕ → ThreadStep

-- `InitialisationDone`.
unfoldable pub is_initialised : Startup → Bool
is_initialised p = leb p.source.number_of_pool_threads p.initialisation_done

-- The last lock of `CreateSubscriptions`.
unfoldable pub count_thread : Startup → Startup
count_thread p = record p {
  source =
      if leb (sub32 p.source.number_of_pool_threads 1) p.initialisation_done
      then remap_offsets p.source
      else p.source;
  initialisation_done = add32 p.initialisation_done 1;
}

module _ (s : StringHelper) (ca : ChannelAccess) (channels : ℕ → Channel) where
  -- What channel access tells of a variable.
  abbrev pub asked : PvDescriptor → PvDescriptor
  asked pv = cainfo s ca pv (channels pv.index)

  -- `FillMemorySizes` of a thread, with what channel access tells.
  unfoldable pub fill_range : EpicsParserAndSubscriber → ℕ → EpicsParserAndSubscriber
  fill_range t k =
      let (beg, end) = range_of t k in
      let told = map asked (slice t.pv_descriptor beg (end - beg)) in
      fill_memory_sizes (record t { pv_descriptor = copy_into t.pv_descriptor beg told }) beg end k

  unfoldable pub fill_step : ℕ → Bool → ThreadStage → Startup → Option Startup
  fill_step k ok numbered p =
      if ok
      then some (record p { source = fill_range p.source k; stages = set p.stages k filled })
      else some (record p { stages = set p.stages k failed })
  fill_step k ok filled p = none
  fill_step k ok subscribed p = none
  fill_step k ok failed p = none

  unfoldable pub subscribe_step : ℕ → ThreadStage → Startup → Option Startup
  subscribe_step k filled p = some (count_thread (record p { stages = set p.stages k subscribed }))
  subscribe_step k numbered p = none
  subscribe_step k subscribed p = none
  subscribe_step k failed p = none

  -- A step; `none` where it is not possible.
  unfoldable pub startup_step : ThreadStep → Startup → Option Startup
  startup_step take_number p =
      if ltb (length p.stages) p.source.number_of_pool_threads
      then some
          (record p { threat_cnt = add32 p.threat_cnt 1; stages = p.stages ++ (numbered ∷ []) })
      else none
  startup_step (fill k ok) p = get_elem? p.stages k >>= λ stage. fill_step k ok stage p
  startup_step (subscribe k) p = get_elem? p.stages k >>= λ stage. subscribe_step k stage p

  unfoldable pub startup_run : List ThreadStep → Startup → Option Startup
  startup_run [] p = some p
  startup_run (a ∷ rest) p = startup_step a p >>= startup_run rest

-- Before the threads start.
unfoldable pub not_started : EpicsParserAndSubscriber → Startup
not_started t = record { source = t; threat_cnt = 0; initialisation_done = 0; stages = [] }
