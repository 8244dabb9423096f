-- ===== src/Routine/Start.antt =====
-- The environment of a thread, co_routine.cc: co_create, co_release (lines 438 to 447 and 465 to
-- 467), co_yield_ct (520 to 522), co_init_curr_thread_env, co_get_curr_thread_env (640 to 661),
-- SetEpoll and co_get_epoll_ct (902 to 911).
pub mod First
use jkyi_libco.Base.{ℕ, ◌+◌, ◌*◌, Bool, true, false, Option, none, some, Ptr, null, if◌then◌else◌}
use jkyi_libco.Base.Run.{Run, ok, fault, ◌>>=◌}
use jkyi_libco.Link.{write}
use jkyi_libco.Routine.{
  Co, Env, Thread, ShareStack, load_co, set_co, co_create_env, co_create_shared, co_free,
  co_yield_env,
}
use jkyi_libco.Epoll.{Resources, CoEpoll, Places, alloc_epoll}

-- The thread. `env` of `thread` is what gCoEnvPerThread points to where that is not NULL, and
-- `epoll` is its pEpoll.
pub record Life : Type 0 where
  pub initialized : Bool
  pub thread : Thread
  pub epoll : Option CoEpoll
  pub resources : Resources

-- What malloc and calloc give for the main coroutine, its stack, and the scheduler, with the
-- descriptor of epoll.
pub record MainPlaces : Type 0 where
  pub self : Ptr
  pub stack : Ptr
  pub buffer : Ptr
  pub epoll : Places
  pub fd : ℕ

-- co_get_curr_thread_env
abbrev pub co_get_curr_thread_env : Life → Option Thread
co_get_curr_thread_env s = if s.initialized then some s.thread else none

-- SetEpoll
abbrev pub set_epoll : CoEpoll → Life → Life
set_epoll ev s = record s { epoll = some ev }

-- What calloc leaves of an environment.
abbrev pub new_env : Env
new_env = record { call_stack = λ i. null; size = 0; pending = null; occupy = null }

-- co_init_curr_thread_env. Without attributes the stack has 128 kilobytes. coctx_init of the main
-- coroutine's registers is in Context.
unfoldable pub co_init_curr_thread_env : MainPlaces → (now : ℕ) → Life → Run Life
unfolding co_create_env alloc_epoll
co_init_curr_thread_env p now s = do
  let t : Thread = record s.thread { env = new_env }
  let t = co_create_env p.self p.stack p.buffer null null (128 * 1024) t
  c ← load_co t p.self
  let t = set_co p.self (record c { is_main = true }) t
  let t : Thread = record t {
    env = record t.env {
      call_stack = write t.env.call_stack t.env.size p.self;
      size = t.env.size + 1;
    };
  }
  let (ev, r) = alloc_epoll p.epoll p.fd now s.resources
  ok (set_epoll ev (record s { initialized = true; thread = t; resources = r }))

-- `if(!co_get_curr_thread_env()) co_init_curr_thread_env()`
unfoldable pub ensure_env : MainPlaces → (now : ℕ) → Life → Run Life
unfolding co_init_curr_thread_env
ensure_env p now s = if s.initialized then ok s else co_init_curr_thread_env p now s

-- co_create without a shared stack: `*ppco` is `co`.
unfoldable pub co_create :
    MainPlaces → (now : ℕ) → (co stack buffer func arg size : ℕ) → Life → Run Life
unfolding ensure_env co_create_env
co_create p now co stack buffer func arg size s = do
  s ← ensure_env p now s
  ok (record s { thread = co_create_env co stack buffer func arg size s.thread })

-- co_get_epoll_ct
unfoldable pub co_get_epoll_ct : MainPlaces → (now : ℕ) → Life → Run (Option CoEpoll × Life)
unfolding ensure_env
co_get_epoll_ct p now s = do s ← ensure_env p now s; ok (s.epoll, s)

-- co_release
unfoldable pub co_release : Ptr → Thread → Run Thread
unfolding co_free
co_release co t = co_free co t

-- co_yield_ct, up to the switch of the registers.
unfoldable pub co_yield_ct : Ptr → Life → Run Life
unfolding co_yield_env
co_yield_ct sp s =
    if s.initialized then (do t ← co_yield_env sp s.thread; ok (record s { thread = t })) else fault
