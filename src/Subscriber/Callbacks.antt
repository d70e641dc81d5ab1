-- ===== src/Subscriber/Callbacks.antt =====
-- `GetValueCallback` and `GetTimeoutCallback` in EpicsParserAndSubscriber.cpp: what channel access
-- calls on a new value of a variable, whose pointers are into the memory of the thread `thread`.
pub mod Found
use marte2hieratika.Base.{ℕ, List, [], take, set, get_or, copy_into}
use marte2hieratika.Subscriber.{PvDescriptor, EpicsParserAndSubscriber, value_size}

-- `Copy` to a position of the memory of a thread.
pub copy_to : ℕ → ℕ → List ℕ → EpicsParserAndSubscriber → EpicsParserAndSubscriber
copy_to thread position bytes t = record t {
  memory = set t.memory thread (copy_into (get_or t.memory thread []) position bytes);
}

-- `dbr` is what `args.dbr` points to.
pub get_value_callback :
    ℕ → PvDescriptor → List ℕ → EpicsParserAndSubscriber → EpicsParserAndSubscriber
get_value_callback thread pv dbr t =
    let copied = copy_to thread pv.memory (take (value_size pv) dbr) t in
    record copied { changed_flag_mem = set t.changed_flag_mem pv.index 1 }

-- `stamp` is the `epicsTimeStamp` of `args.dbr`, and its eight bytes are copied.
pub get_timeout_callback :
    ℕ → PvDescriptor → List ℕ → EpicsParserAndSubscriber → EpicsParserAndSubscriber
get_timeout_callback thread pv stamp t = copy_to thread pv.time_stamp (take 8 stamp) t
