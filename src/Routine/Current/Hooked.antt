-- ===== src/Routine/Current/Hooked.antt =====
-- Hooks are switched on and off for the running coroutine only.
use jkyi_libco.Base.{◌≡◌, ◌≢◌, arith, true, false, some, Ptr, null}
use jkyi_libco.Base.Run.{ok}
use jkyi_libco.Routine.{Co, Thread, set_co}
use jkyi_libco.Routine.Current.{
  get_curr_thread_co, co_enable_hook_sys, co_disable_hook_sys, co_is_enable_sys_hook, co_self,
}

-- Where a coroutine runs, switching the hooks on succeeds and the test then says so; switching
-- them off, from there or at once, likewise. No other coroutine's flag is touched, and the same
-- coroutine goes on running.
co_is_enable_sys_hook-co_enable_hook_sys :
    (t : Thread) (p : Ptr) (c : Co)
    → co_self (some t) ≡ ok p
    → p ≢ null
    → t.co p ≡ some c
    → (u v : Thread) × (co_enable_hook_sys (some t) ≡ ok (some u))
      × (co_is_enable_sys_hook (some u) ≡ ok true)
      × (co_disable_hook_sys (some u) ≡ ok (some v))
      × (co_is_enable_sys_hook (some v) ≡ ok false)
      × (co_self (some v) ≡ ok p)
      × ((q : Ptr) → q ≢ p → u.co q ≡ t.co q)
      × ((q : Ptr) → q ≢ p → v.co q ≡ t.co q)
unfolding co_enable_hook_sys co_disable_hook_sys co_is_enable_sys_hook get_curr_thread_co co_self
co_is_enable_sys_hook-co_enable_hook_sys t p c runs nn at =
    let u = set_co p (record c { hooked = true }) t in
    let v = set_co p (record c { hooked = false }) u in
    (
      u,
      v,
      ground (arith, runs, nn, at),
      ground (arith, runs, nn, at),
      ground (arith, runs, nn, at),
      ground (arith, runs, nn, at),
      runs,
      λ q ne. ground arith,
      λ q ne. ground arith,
    )
