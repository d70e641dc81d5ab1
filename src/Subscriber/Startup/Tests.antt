-- ===== src/Subscriber/Startup/Tests.antt =====
-- A data source of four variables and two threads.
use marte2hieratika.Base.{
  get_elem?, ◌≢◌, ℕ, zero, suc, ◌+◌, ◌≤◌, ◌≡◌, refl, true, List, [], ◌∷◌, some, get_or, slice,
  replicate, arith, copy_into, ltb, if◌then◌else◌,
}
use marte2hieratika.Marte.Plain.{plain, compare_text}
use marte2hieratika.Channels.{ChannelAccess, Channel, is_named}
use marte2hieratika.Subscriber.{PvDescriptor, no_pv, EpicsParserAndSubscriber}
use marte2hieratika.Subscriber.Connect.{cainfo, set_type}
use marte2hieratika.Subscriber.Memory.{
  range_of, discard_large, sum_sizes, place, lay_out, fill_memory_sizes,
}
use marte2hieratika.Subscriber.Offsets.{add_sizes, mem_cnt, remap_from, remap_offsets}
use marte2hieratika.Subscriber.Synchronise.{synchronise}
use marte2hieratika.Subscriber.Startup.{
  Startup, ThreadStep, take_number, fill, subscribe, subscribed, numbered, filled, failed,
  startup_run, not_started, is_initialised, fill_range, fill_step, count_thread, subscribe_step,
  startup_step,
}
use marte2hieratika.Subscriber.Startup.Run.{IsParsed}
use marte2hieratika.Subscriber.Startup.Regions.{
  descriptor, region_end, total_memory_size, RangesSmall, startup_run-apart,
}
use marte2hieratika.Subscriber.Startup.Places.{IsStamped}
use marte2hieratika.Subscriber.Startup.Going.{startup_run_going}
use marte2hieratika.Subscriber.Startup.Found.{startup_run-synchronise}

-- Every variable is a DBF_DOUBLE, by the last branch of `cainfo`, and has two elements.
abbrev quiet_access : ChannelAccess
quiet_access = record { type_to_text = λ k. []; dbf_double = 6; max_string_size = 40 }

abbrev two_elements : ℕ → Channel
two_elements k = record { created = true; state = 2; element_count = 2; field_type = 6 }

abbrev indexed : ℕ → PvDescriptor
indexed k = record no_pv { index = k }

abbrev local_pv : ℕ → ℕ → PvDescriptor
local_pv k offset = record {
  pv_type = 6;
  memory = offset;
  number_of_elements = 2;
  memory_size = 8;
  pv_name = [];
  index = k;
  time_stamp = offset + 16;
  offset = offset;
  type_id = 9;
}

abbrev four_variables : EpicsParserAndSubscriber
four_variables = record {
  pv_descriptor = indexed 0 ∷ indexed 1 ∷ indexed 2 ∷ indexed 3 ∷ [];
  memory = [] ∷ [] ∷ [];
  memory_size = 0 ∷ 0 ∷ [];
  changed_flag_mem = replicate 4 0;
  number_of_variables = 4;
  number_of_pool_threads = 2;
  n_vars_per_chunk = 2;
  max_array_size = 10;
}

-- The second thread fills its memory first, and the first one is the last.
abbrev crossed : List ThreadStep
crossed = take_number ∷ take_number ∷ fill 1 true ∷ subscribe 1 ∷ fill 0 true ∷ subscribe 0 ∷ []

abbrev started_pv : ℕ → ℕ → PvDescriptor
started_pv k offset = record (local_pv k offset) { offset = offset + (if ltb k 2 then 0 else 48) }

abbrev started_variables : Startup
started_variables = record {
  source = record four_variables {
    pv_descriptor = started_pv 0 0 ∷ started_pv 1 24 ∷ started_pv 2 0 ∷ started_pv 3 24 ∷ [];
    memory = replicate 48 0 ∷ replicate 48 0 ∷ [];
    memory_size = 48 ∷ 48 ∷ [];
  };
  threat_cnt = 2;
  initialisation_done = 2;
  stages = subscribed ∷ subscribed ∷ [];
}

crossed_run :
    startup_run plain quiet_access two_elements crossed (not_started four_variables)
    ≡ some started_variables
unfolding startup_run startup_step fill_step subscribe_step count_thread fill_range
    fill_memory_sizes lay_out place sum_sizes discard_large range_of remap_offsets remap_from
    mem_cnt add_sizes cainfo set_type is_named compare_text not_started copy_into
crossed_run = refl

four_variables-IsParsed : IsParsed four_variables
four_variables-IsParsed = record {
  divided = record { threads = omega arith; chunk = refl; many = omega arith; small = omega arith };
  described = refl;
  sizes = refl;
  empty = no_sizes;
  memories = refl;
}
  where
    no_sizes : (k : ℕ) → get_or four_variables.memory_size k 0 ≡ 0
    no_sizes zero = refl
    no_sizes (suc zero) = refl
    no_sizes (suc (suc k)) = refl

small_ranges : RangesSmall plain quiet_access two_elements four_variables four_variables-IsParsed
unfolding range_of discard_large cainfo set_type is_named compare_text
small_ranges zero h = omega arith
small_ranges (suc zero) h = omega arith
small_ranges (suc (suc k)) h = absurd (omega arith)

startup_run-apart_example :
    (region_end (descriptor started_variables.source 1)
      ≤ (descriptor started_variables.source 2).offset)
    × (region_end (descriptor started_variables.source 2)
        ≤ total_memory_size started_variables.source)
    × IsStamped (descriptor started_variables.source 1)
    × IsStamped (descriptor started_variables.source 2)
unfolding is_initialised
startup_run-apart_example =
    startup_run-apart plain quiet_access two_elements four_variables four_variables-IsParsed crossed
      started_variables 1 2 small_ranges crossed_run refl (omega arith) (omega arith) (omega arith)

-- The memories of the threads, after some values have come.
abbrev filled_memories : List (List ℕ)
filled_memories = replicate 48 1 ∷ replicate 48 2 ∷ []

startup_run-synchronise_example :
    slice
      (synchronise
        (record (started_variables.source) { memory = filled_memories })
        (replicate 96 0)
        (replicate 4 0)).0
      72
      16
    ≡ slice (replicate 48 2) 24 16
unfolding is_initialised
startup_run-synchronise_example =
    startup_run-synchronise plain quiet_access two_elements four_variables four_variables-IsParsed
      crossed started_variables filled_memories (replicate 96 0) (replicate 4 0) 3 16 small_ranges
      crossed_run refl (omega arith) (omega arith) (refl, (refl, tt)) refl refl (omega arith)
      (omega arith)

-- The second thread has filled its memory.
abbrev half_way : List ThreadStep
half_way = take_number ∷ take_number ∷ fill 1 true ∷ []

abbrev half_started : Startup
half_started = record {
  source = record four_variables {
    pv_descriptor = indexed 0 ∷ indexed 1 ∷ local_pv 2 0 ∷ local_pv 3 24 ∷ [];
    memory = [] ∷ replicate 48 0 ∷ [];
    memory_size = 0 ∷ 48 ∷ [];
  };
  threat_cnt = 2;
  initialisation_done = 0;
  stages = numbered ∷ filled ∷ [];
}

half_run :
    startup_run plain quiet_access two_elements half_way (not_started four_variables)
    ≡ some half_started
unfolding startup_run startup_step fill_step subscribe_step count_thread fill_range
    fill_memory_sizes lay_out place sum_sizes discard_large range_of cainfo set_type is_named
    compare_text not_started copy_into
half_run = refl

none_failed : (k : ℕ) → get_elem? half_started.stages k ≢ some failed
none_failed zero = λ e. cc
none_failed (suc zero) = λ e. cc
none_failed (suc (suc k)) = λ e. cc

startup_run_going_example :
    (a : ThreadStep) × (q' : Startup) × (startup_step plain quiet_access two_elements a half_started
      ≡ some q')
unfolding is_initialised
startup_run_going_example =
    startup_run_going plain quiet_access two_elements four_variables four_variables-IsParsed
      half_way half_started half_run refl none_failed
