-- ===== src/Subscriber/Parse.antt =====
-- `ParseAndSubscribe` in EpicsParserAndSubscriber.cpp, up to the start of its threads: the two passes
-- over the variables of the input file, in their order, which `GetVariable` reads.
pub mod Selected
use marte2hieratika.Base.{
  ℕ, ◌+◌, ◌/◌, Bool, true, false, List, [], ◌∷◌, leb, ◌==◌, ◌||◌, if◌then◌else◌, get_or, set, add32,
  replicate, length,
}
use marte2hieratika.Marte.{Text, StringHelper}
use marte2hieratika.Subscriber.{PvDescriptor, no_pv, EpicsParserAndSubscriber}

module _ (s : StringHelper) where
  open s use {compare}

  -- The first pass: how many descriptors are made.
  pub count_variables : Text → ℕ → List Text → Bool → ℕ → ℕ
  count_variables first max [] start n = n
  count_variables first max (v ∷ vs) start n =
      let start' = start || (compare v first == 0) in
      let n' = if start' then n + 1 else n in
      let rest = count_variables first max vs start' n' in
      if start' then (if leb max n' then n' else rest) else rest

  -- The second pass fills in the index and the name of each.
  pub fill_descriptors : Text → ℕ → List Text → Bool → ℕ → List PvDescriptor → List PvDescriptor
  fill_descriptors first max [] start counter pvs = pvs
  fill_descriptors first max (v ∷ vs) start counter pvs =
      let start' = start || (compare v first == 0) in
      let named = record (get_or pvs counter no_pv) { index = counter; pv_name = v } in
      let pvs' = if start' then set pvs counter named else pvs in
      let counter' = if start' then counter + 1 else counter in
      let rest = fill_descriptors first max vs start' counter' pvs' in
      if start' then (if leb max counter' then pvs' else rest) else rest

  -- `ParseAndSubscribe` before `Start`, where the file opens and the memory is there.
  pub parse : EpicsParserAndSubscriber → Text → ℕ → List Text → EpicsParserAndSubscriber
  parse t first max vs =
      let n = count_variables first max vs false 0 in
      record t {
        number_of_variables = n;
        pv_descriptor = fill_descriptors first max vs false 0 (replicate n no_pv);
        changed_flag_mem = replicate n 0;
        n_vars_per_chunk = n / t.number_of_pool_threads;
        memory = replicate t.number_of_pool_threads [];
        memory_size = replicate t.number_of_pool_threads 0;
      }
