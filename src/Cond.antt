-- ===== src/Cond.antt =====
-- The condition variables of co_routine.cc, lines 960 to 1044.
pub mod Signal
pub mod Wait
pub mod Serving
pub mod Rounds
use jkyi_libco.Base.{
  ℕ, zero, suc, ◌+◌, ◌%◌, true, false, ltb, Ptr, null, ◌==◌, if◌then◌else◌, Option, some, none,
}
use jkyi_libco.Base.Run.{Run, ok, out_of_fuel, ◌>>=◌}
use jkyi_libco.Link.{Store, no_ends, write, remove_from_link, add_tail, pop_head, calloc, free}
use jkyi_libco.Timeout.{Wheel, u64, add_timeout}

-- The address of the member `timeout` of the stCoCondItem_t at `psi`: it stands behind three
-- pointers.
abbrev pub timeout_of : Ptr → Ptr
timeout_of psi = psi + 24

-- What the functions share: the items of all condition variables, and the timers, with their
-- deadlines and the coroutine that each of them wakes.
pub record Sync : Type 0 where
  pub items : Store
  pub timers : Store
  pub wheel : Wheel
  pub expire : Ptr → ℕ
  pub arg : Ptr → Ptr

-- co_cond_alloc: `cc` is what calloc returns, and its list is empty.
unfoldable pub cond_alloc : (cc : Ptr) → Sync → Ptr × Sync
cond_alloc cc y = (cc, record y { items = record y.items { ends = write y.items.ends cc no_ends } })

-- co_cond_pop
unfoldable pub cond_pop : Ptr → Sync → Run (Ptr × Sync)
cond_pop link y =
    let p = (y.items.ends link).head in
    if p == null
    then ok (p, y)
    else (do items ← pop_head link y.items; ok (p, record y { items = items }))

-- The waiter that has been popped goes to the active list.
unfoldable pub activate : Ptr → Ptr → Sync → Run Sync
activate active sp y = do
  timers ← remove_from_link (timeout_of sp) y.timers
  timers ← add_tail active (timeout_of sp) timers
  ok (record y { timers = timers })

-- co_cond_signal. `active` is pstActiveList.
unfoldable pub cond_signal : (active si : Ptr) → Sync → Run Sync
unfolding cond_pop activate
cond_signal active si y = do
  (sp, y) ← cond_pop si y
  if sp == null then ok y else activate active sp y

-- co_cond_broadcast: a signal in each round, until nobody waits.
unfoldable pub cond_broadcast : ℕ → (active si : Ptr) → Sync → Run Sync
unfolding cond_pop activate
cond_broadcast zero active si y = out_of_fuel
cond_broadcast (suc fuel) active si y = do
  (sp, y) ← cond_pop si y
  elim (sp == null) [
    | true ↦ ok y
    | false ↦ activate active sp y >>= λ y. cond_broadcast fuel active si y
  ]

-- The item of a wait that begins: calloc clears it, and its timer is given the coroutine.
unfoldable pub new_item : (psi self expire : ℕ) → Sync → Sync
new_item psi self expire y = record y {
  items = calloc psi y.items;
  timers = calloc (timeout_of psi) y.timers;
  expire = write y.expire (timeout_of psi) expire;
  arg = write y.arg (timeout_of psi) self;
}

-- `AddTail(link,psi)`, after which the coroutine yields.
unfoldable pub enqueue : (link psi : Ptr) → Sync → Run (Option ℕ × Sync)
enqueue link psi y = do items ← add_tail link psi y.items; ok (none, record y { items = items })

-- co_cond_timedwait up to the yield. `psi` is what calloc returns, `self` the running coroutine;
-- `ms` is `none` where the argument is not positive. The result is the value to return at once,
-- or `none` where the coroutine yields.
unfoldable pub timedwait_begin : (link psi self : Ptr) → Option ℕ → ℕ → Sync → Run (Option ℕ × Sync)
unfolding new_item enqueue
timedwait_begin link psi self none now y = enqueue link psi (new_item psi self 0 y)
timedwait_begin link psi self (some ms) now y = do
  let y = new_item psi self ((now + ms) % u64) y
  (ret, wheel, timers) ← add_timeout y.wheel (timeout_of psi) y.expire now y.timers
  let y = record y { wheel = wheel; timers = timers }
  if ret == 0
      then enqueue link psi y
      else ok
          (some ret, record y { items = free psi y.items; timers = free (timeout_of psi) y.timers })

-- co_cond_timedwait after the yield: the item leaves the queue and is freed, its timer with it.
unfoldable pub timedwait_end : (psi : Ptr) → Sync → Run Sync
timedwait_end psi y = do
  items ← remove_from_link psi y.items
  ok (record y { items = free psi items; timers = free (timeout_of psi) y.timers })
