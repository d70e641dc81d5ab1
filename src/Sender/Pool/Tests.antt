-- ===== src/Sender/Pool/Tests.antt =====
-- The loop and its pool threads at concrete schedules.
use marte2hieratika.Base.{
  ℕ, zero, suc, ◌≡◌, refl, Bool, false, List, [], ◌∷◌, Option, none, some, arith,
}
use marte2hieratika.Subscriber.{PvDescriptor}
use marte2hieratika.Sender.{PrioritySender}
use marte2hieratika.Sender.Cycle.{Loop}
use marte2hieratika.Sender.Share.{list_positions, take_share}
use marte2hieratika.Sender.Share.Tiles.{IsSmall}
use marte2hieratika.Sender.Pool.{
  waiting, Pool, Action, thread, look, act, run, started, thread_step, finish,
}
use marte2hieratika.Sender.Pool.Guarded.{run-act_shut}
use marte2hieratika.Sender.Pool.Stuck.{handed, AllWait, one_fast, run-one_fast}
use marte2hieratika.Sender.Pool.Round.{Sends, done, by_thread}
use marte2hieratika.Sender.Pool.Round.Tiles.{Sends-tiles}

-- Five variables, of which three go out, and two threads.
abbrev two_threads : PrioritySender
two_threads = record {
  index_list = 4 ∷ 3 ∷ 2 ∷ 1 ∷ 0 ∷ [];
  index_list_threads = 4 ∷ 3 ∷ 2 ∷ 1 ∷ 0 ∷ [];
  memory = [];
  memory_threads = [];
  change_flag = 0 ∷ 0 ∷ 0 ∷ 0 ∷ 0 ∷ [];
  number_of_variables = 5;
  current_idx = 1;
  current_idx_threads = 3;
  current_change_pos = 0;
  number_of_signal_to_be_sent = 2;
  number_of_pool_threads = 2;
  n_threads_finished = 0;
  chunck_counter = 0;
  number_of_chunks = 2;
  number_of_changed_variables = 3;
  max_bytes_per_cycle = 100;
  max_var_size = 100;
  chunk_size = 1;
  reset_counter = 120;
  send_only_changed = 0;
}

abbrev new_loop : Loop
new_loop = record { sender = two_threads; changed = false; n_variables = 0; send_counter = 0 }

abbrev pvs : List PvDescriptor
pvs = []

record SendsFrom (p : Pool) : Type 0 where
  positions : List ℕ
  last : Pool
  sends : Sends pvs p positions last

-- The threads step in the order of the list.
in_turn : List ℕ → (p : Pool) → SendsFrom p
in_turn [] p = record { positions = []; last = p; sends = done }
in_turn (k ∷ ks) p = next (act pvs (thread k false) p) refl (in_turn ks)
  where
    next :
        (o : Option Pool)
        → act pvs (thread k false) p ≡ o
        → ((q : Pool) → SendsFrom q)
        → SendsFrom p
    next none e rest = record { positions = []; last = p; sends = done }
    next (some q) e rest =
        let s = rest q in record { positions = _; last = s.last; sends = by_thread k e s.sends }

abbrev turns : SendsFrom (handed new_loop (waiting ∷ []))
turns = in_turn (1 ∷ 0 ∷ 0 ∷ 1 ∷ 0 ∷ 1 ∷ 1 ∷ 0 ∷ []) (handed new_loop (waiting ∷ []))

one_waits : AllWait (waiting ∷ [])
one_waits zero phase e = cc
one_waits (suc k) phase e = cc

two_threads-IsSmall : IsSmall two_threads
two_threads-IsSmall = record {
  threads = omega arith;
  threads_small = omega arith;
  idx_in = omega arith;
  no_wrap = omega arith;
}

all_back : turns.last.loop.sender.n_threads_finished ≡ turns.last.loop.sender.number_of_pool_threads
unfolding in_turn act thread_step finish take_share
all_back = refl

Sends-tiles_example :
    (turns.positions ≡ list_positions 5 3 3)
    × (turns.last.loop.sender.index_list_threads ≡ 4 ∷ 3 ∷ 2 ∷ 1 ∷ 0 ∷ [])
    × (turns.last.loop.sender.memory_threads ≡ [])
Sends-tiles_example =
    Sends-tiles pvs new_loop (waiting ∷ []) turns.positions turns.last refl two_threads-IsSmall refl
      one_waits turns.sends all_back

run-one_fast_example :
    (q : Pool) × (run pvs one_fast (handed new_loop (waiting ∷ [])) ≡ some q)
    × ((actions : List Action) (r : Pool)
        → run pvs actions q ≡ some r
        → (r.posted ≡ false) × ((k : ℕ) (err : Bool) → act pvs (thread k err) r ≡ none))
run-one_fast_example = run-one_fast pvs new_loop (waiting ∷ []) refl (omega arith) refl one_waits

abbrev both_back : List Action
both_back =
    thread 0 false
    ∷ thread 1 false
    ∷ thread 1 false
    ∷ thread 0 false
    ∷ thread 1 false
    ∷ thread 0 false
    ∷ look
    ∷ []

abbrev both_seen : Pool
both_seen = record {
  loop = record new_loop { sender = record two_threads { n_threads_finished = 2 } };
  posted = false;
  seen = some (0, 2);
  phases = waiting ∷ waiting ∷ [];
}

both_back_lem : run pvs both_back (started two_threads) ≡ some both_seen
unfolding run act thread_step finish started
both_back_lem = refl

run-act_shut_example : act pvs (thread 1 false) both_seen ≡ none
run-act_shut_example =
    run-act_shut pvs both_back two_threads both_seen (omega arith) (omega arith) refl both_back_lem
      0 refl 1 false
