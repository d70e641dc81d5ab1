-- ===== src/Sender/Pool.antt =====
-- The loop of PrioritySender.cpp and its pool threads side by side: `PrioritySenderCycleLoop` and
-- `ThreadCycle`, one step from each lock or wait to the next, in any order. A thread is at its index
-- in `phases`, which stands for its number.
pub mod Guarded
pub mod Round
pub mod Stuck
pub mod Tests
use marte2hieratika.Base.{
  replicate, ◌>>=◌, ℕ, Bool, true, false, ◌||◌, List, [], ◌∷◌, ◌++◌, Option, none, some, get_elem?,
  set, add32, ◌==◌, if◌then◌else◌,
}
use marte2hieratika.Subscriber.{PvDescriptor}
use marte2hieratika.Sender.{PrioritySender}
use marte2hieratika.Sender.Cycle.{Loop, cycle}
use marte2hieratika.Sender.Share.{vars_per_thread, take_share, list_positions}

-- Where a thread is: before `eventSem.Wait` of the startup stage, before its lock, before the lock of
-- the main stage, before `eventSem.Wait`, before the lock of `SendVariables`, in the rest of
-- `SendVariables`, and before the lock of the last stage, in which a thread goes that had an error.
pub data Phase : Type 0 where
  starting : Phase
  connecting : Phase
  idle : Phase
  waiting : Phase
  entering : Phase
  sending : Phase
  failing : Phase

-- The loop, whether `eventSem` is posted, what the loop has read of `chunckCounter` and
-- `nThreadsFinished`, and the threads.
pub record Pool : Type 0 where
  pub loop : Loop
  pub posted : Bool
  pub seen : Option (ℕ × ℕ)
  pub phases : List Phase

-- A step of a thread, with whether its request had an error; the first lock of the loop; and the rest
-- of its round, with the memory and the flags that `Synchronise` copies.
pub data Action : Type 0 where
  thread : ℕ → Bool → Action
  look : Action
  round : List ℕ → List ℕ → Action

-- What `Start` leads to, and the first lines of the loop: the event is posted, and the threads wait
-- for it.
pub started : PrioritySender → Pool
started t = record {
  loop = record { sender = t; changed = false; n_variables = 0; send_counter = 0 };
  posted = true;
  seen = none;
  phases = replicate t.number_of_pool_threads starting;
}

abbrev pub with_sender : Pool → PrioritySender → Pool
with_sender p t = record p { loop = record (p.loop) { sender = t } }

abbrev pub move : ℕ → Phase → Pool → Pool
move k phase p = record p { phases = set p.phases k phase }

-- `eventSem.Reset(); nThreadsFinished++`, under the lock.
pub finish : Pool → Pool
finish p =
    let t = p.loop.sender in
    record (with_sender p (record t { n_threads_finished = add32 t.n_threads_finished 1 })) {
      posted = false;
    }

-- The step of a thread from its phase; `none` while it waits.
pub thread_step : ℕ → Bool → Phase → Pool → Option Pool
thread_step k err starting p = if p.posted then some (move k connecting p) else none
thread_step k err connecting p =
    some (move k idle (with_sender p (record (p.loop.sender) { chunck_counter = 0 })))
thread_step k err idle p = some (move k waiting (finish p))
thread_step k err waiting p = if p.posted then some (move k entering p) else none
thread_step k err entering p =
    some (move k sending (with_sender p (take_share (p.loop.sender) k).0))
thread_step k err sending p = some (move k (if err then failing else idle) p)
thread_step k err failing p = some (move k starting (finish p))

-- The round hands the variables out, and posts the event.
abbrev pub hands_out : Pool → ℕ → Bool
hands_out p finished = finished == p.loop.sender.number_of_pool_threads

pub act : List PvDescriptor → Action → Pool → Option Pool
act pvs (thread k err) p = get_elem? p.phases k >>= λ phase. thread_step k err phase p
act pvs look p =
    let t = p.loop.sender in
    some (record p { seen = some (t.chunck_counter, t.n_threads_finished) })
act pvs (round memory flags) p = p.seen >>= λ (chunks, finished). some (record p {
  loop =
      cycle pvs p.loop
        (record { chunks_read = chunks; finished = finished; memory = memory; flags = flags });
  posted = hands_out p finished || p.posted;
  seen = none;
})

-- Actions one after another; `none` where one of them is not possible.
pub run : List PvDescriptor → List Action → Pool → Option Pool
run pvs [] p = some p
run pvs (a ∷ rest) p = act pvs a p >>= run pvs rest

-- The positions of the list that a thread takes by its step, from its phase.
pub taken_at : Phase → ℕ → PrioritySender → List ℕ
taken_at entering k t =
    list_positions t.number_of_variables (take_share t k).1 (vars_per_thread t k)
taken_at starting k t = []
taken_at connecting k t = []
taken_at idle k t = []
taken_at waiting k t = []
taken_at sending k t = []
taken_at failing k t = []

pub positions_taken : ℕ → Pool → List ℕ
positions_taken k p = elim (get_elem? p.phases k) [
  | none ↦ []
  | some phase ↦ taken_at phase k p.loop.sender
]
