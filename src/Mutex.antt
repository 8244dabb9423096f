-- ===== src/Mutex.antt =====
-- clsCoMutex of co_comm.cc: a lock for coroutines over one condition variable.
pub mod Protocol
pub mod Steps
pub mod Exclusion
pub mod Order
use jkyi_libco.Base.{
  ℕ, ◌+◌, ◌-◌, ◌%◌, ◌^◌, true, false, Bool, ltb, Ptr, null, if◌then◌else◌, Option, some, none, ◌&&◌,
}
use jkyi_libco.Base.Run.{Run, ok, ◌>>=◌}
use jkyi_libco.Timeout.{u32}
use jkyi_libco.Cond.{Sync, cond_signal, timedwait_begin, timedwait_end}

-- `count` is the two's complement word of the `int` m_iWaitItemCnt.
pub record Mutex : Type 0 where
  pub cond : Ptr
  pub count : ℕ

-- The constructor, with the address that co_cond_alloc gives.
unfoldable pub make_mutex : Ptr → Mutex
make_mutex cond = record { cond = cond; count = 0 }

-- `m_iWaitItemCnt > 0`
abbrev pub is_positive : ℕ → Bool
is_positive count = ltb 0 count && ltb count (2 ^ 31)

-- CoLock, up to the yield of a coroutine that has to wait; `true` where it waits.
unfoldable pub co_lock : (psi self now : ℕ) → Mutex → Sync → Run (Bool × Mutex × Sync)
co_lock psi self now m y =
    let m' : Mutex = record m { count = (m.count + 1) % u32 } in
    if is_positive m.count
    then (do (_, y) ← timedwait_begin m.cond psi self none now y; ok (true, m', y))
    else ok (false, m', y)

-- CoLock, after the yield.
unfoldable pub co_lock_resumed : Ptr → Sync → Run Sync
co_lock_resumed = timedwait_end

-- CoUnLock
unfoldable pub co_unlock : Ptr → Mutex → Sync → Run (Mutex × Sync)
co_unlock active m y = do
  y ← cond_signal active m.cond y
  ok (record m { count = (m.count + u32 - 1) % u32 }, y)
