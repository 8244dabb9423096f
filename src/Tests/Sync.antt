-- ===== src/Tests/Sync.antt =====
-- Condition variables and the mutex at the store of the tests: items 1 and 2 wait for the
-- condition variable 100, their timers are 25 and 26.
use jkyi_libco.Base.{
  ◌+◌, ◌≡◌, refl, [], ◌∷◌, arith, Ptr, true, false, none, some, if◌then◌else◌, ltb, ◌&&◌, ◌⊎◌, null,
  Bool, List, ◌++◌, length,
}
use jkyi_libco.Base.Run.{Run, ok, fault, out_of_fuel}
use jkyi_libco.Link.{Store, add_tail, write, detached, no_ends}
use jkyi_libco.Link.View.{Lists, Represents, allocated}
use jkyi_libco.Cond.{Sync, cond_signal, timedwait_begin}
use jkyi_libco.Cond.Signal.{woken, cond_signal-fifo}
use jkyi_libco.Mutex.{Mutex, make_mutex, co_lock}
use jkyi_libco.Mutex.Order.{lock_order}
use jkyi_libco.Mutex.Protocol.{System, Step, locks, here, next, start, step}
use jkyi_libco.Mutex.Exclusion.{mutual_exclusion}
use jkyi_libco.Tests.States.{store, lists, store-Represents, wheel}

abbrev pub timers : Store
timers = record {
  node = λ p. if ltb 24 p && ltb p 29 then some detached else none;
  ends = λ l. no_ends;
}

abbrev pub no_lists : Lists
no_lists l = []

pub timers-Represents : Represents timers no_lists
timers-Represents = record {
  null_free = refl;
  no_null_list = refl;
  ends = λ l. refl;
  chain = λ l. tt;
  distinct = λ l. tt;
  member = λ p n e h. ground arith;
}

abbrev pub sync : Sync
sync = record { items = store; timers = timers; wheel = wheel; expire = λ p. 0; arg = λ p. 0 }

signal_example :
    (s t : Store) × (cond_signal 500 100 sync ≡ ok (record sync { items = s; timers = t }))
    × Represents s (write lists 100 (2 ∷ []))
    × Represents t (woken 500 1 no_lists)
    × ((q : Ptr) → allocated s q ≡ allocated store q)
    × ((q : Ptr) → allocated t q ≡ allocated timers q)
signal_example =
    cond_signal-fifo 500 100 1 (2 ∷ []) sync lists no_lists store-Represents timers-Represents refl
      (omega arith) refl

-- A coroutine takes the free lock 300, and a second one has to wait for it.
abbrev free_lock : System
unfolding make_mutex
free_lock = record { mutex = make_mutex 300; items = store; holders = 0; woken = [] }

abbrev taken_lock : System
taken_lock = record {
  mutex = record { cond = 300; count = 1 };
  items = store;
  holders = 1;
  woken = [];
}

abbrev takes : Step 500 free_lock taken_lock
unfolding co_lock make_mutex
takes =
    locks 7 8 12 sync sync false taken_lock.mutex no_lists refl timers-Represents (omega arith) refl
      refl (omega arith) refl refl

exclusion_example : (1 + 0 ≡ 1) ⊎ ((1 + 0 ≡ 0) × ((store.ends 300).head ≡ null))
unfolding make_mutex
exclusion_example =
    mutual_exclusion 500 300 {t = taken_lock} store lists (omega arith) (omega arith)
      store-Represents refl (next here takes)

abbrev sync_of : Run (Bool × Mutex × Sync) → Sync
sync_of (ok (waits, m, y)) = y
sync_of fault = sync
sync_of out_of_fuel = sync

abbrev queued_lock : System
unfolding co_lock add_tail timedwait_begin
queued_lock = record {
  mutex = record { cond = 300; count = 2 };
  items = (sync_of (co_lock 9 8 13 taken_lock.mutex sync)).items;
  holders = 1;
  woken = [];
}

abbrev asks_too : Step 500 taken_lock queued_lock
unfolding co_lock add_tail queued_lock timedwait_begin
asks_too =
    locks 9 8 13 sync (sync_of (co_lock 9 8 13 taken_lock.mutex sync)) true queued_lock.mutex
      no_lists refl timers-Represents (omega arith) refl refl (omega arith) refl refl

order_example : (later : List Ptr) × (7 ∷ 9 ∷ [] ≡ 7 ∷ [] ++ later) × (2 ≡ 1 + length later)
unfolding make_mutex takes asks_too
order_example =
    lock_order 500 300 {t = queued_lock} {asked = 7 ∷ 9 ∷ []} {entered = 7 ∷ []} store lists
      (omega arith) (omega arith) store-Represents refl (step (step start takes) asks_too)
