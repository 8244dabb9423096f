-- ===== src/Routine/Current.antt =====
-- The running coroutine and its hooks, co_routine.cc: GetCurrCo, GetCurrThreadCo (lines 780 to
-- 788), co_disable_hook_sys, co_is_enable_sys_hook, co_self (941 to 958); and co_enable_hook_sys of
-- co_hook_sys_call.cc (832 to 837). `none` is a thread without an environment.
pub mod Hooked
use jkyi_libco.Base.{
  ℕ, ◌-◌, Bool, true, false, ◌||◌, Option, none, some, Ptr, null, ◌==◌, ltb, if◌then◌else◌,
}
use jkyi_libco.Base.Run.{Run, ok, fault, ◌>>=◌}
use jkyi_libco.Routine.{Co, Env, Thread, load_co, set_co, max_calls}

-- An index out of pCallStack is a fault.
unfoldable pub get_curr_co : Env → Run Ptr
get_curr_co env =
    if env.size == 0 || ltb max_calls env.size then fault else ok (env.call_stack (env.size - 1))

unfoldable pub get_curr_thread_co : Option Thread → Run Ptr
unfolding get_curr_co
get_curr_thread_co none = ok null
get_curr_thread_co (some t) = get_curr_co t.env

-- co_self
unfoldable pub co_self : Option Thread → Run Ptr
unfolding get_curr_thread_co
co_self t = get_curr_thread_co t

-- cEnableSysHook of the coroutine at `p`, if there is one.
abbrev pub set_hooked : Bool → Ptr → Option Thread → Run (Option Thread)
set_hooked on p none = ok none
set_hooked on p (some t) =
    if p == null
    then ok (some t)
    else (do c ← load_co t p; ok (some (set_co p (record c { hooked = on }) t)))

-- co_enable_hook_sys
unfoldable pub co_enable_hook_sys : Option Thread → Run (Option Thread)
unfolding get_curr_thread_co
co_enable_hook_sys t = get_curr_thread_co t >>= λ co. set_hooked true co t

-- co_disable_hook_sys
unfoldable pub co_disable_hook_sys : Option Thread → Run (Option Thread)
unfolding get_curr_thread_co
co_disable_hook_sys t = get_curr_thread_co t >>= λ co. set_hooked false co t

-- co_is_enable_sys_hook
unfoldable pub co_is_enable_sys_hook : Option Thread → Run Bool
unfolding get_curr_thread_co
co_is_enable_sys_hook none = ok false
co_is_enable_sys_hook (some t) = do
  co ← get_curr_thread_co (some t)
  if co == null then ok false else (do c ← load_co t co; ok c.hooked)
