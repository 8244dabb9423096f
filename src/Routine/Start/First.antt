-- ===== src/Routine/Start/First.antt =====
-- The first co_create of a thread, a run of the new coroutine up to its first yield, and the way
-- back.
use jkyi_libco.Base.{
  ℕ, ◌+◌, ◌*◌, ◌≡◌, ◌≢◌, refl, arith, true, false, some, Ptr, null, ==_refl, ==_ne,
}
use jkyi_libco.Base.Run.{ok}
use jkyi_libco.Link.{write}
use jkyi_libco.Routine.{
  Co, Thread, new_co, set_co, co_create_env, co_resume, co_yield_env, swap_out,
}
use jkyi_libco.Routine.Current.{co_self, get_curr_co, get_curr_thread_co}
use jkyi_libco.Epoll.{alloc_epoll}
use jkyi_libco.Routine.Start.{
  Life, MainPlaces, co_init_curr_thread_env, co_create, co_get_curr_thread_env, ensure_env, new_env,
}

-- What co_create leaves of a thread without an environment.
abbrev pub Ready : MainPlaces → (co func arg : Ptr) → Life → Type 0
Ready p co func arg s =
    (s.initialized ≡ true)
    × (s.thread.env.size ≡ 1)
    × (s.thread.env.call_stack 0 ≡ p.self)
    × (s.thread.co p.self ≡ some (record (new_co null null p.stack false) { is_main = true }))

-- The thread with its main coroutine.
abbrev first_thread : MainPlaces → Life → Thread
first_thread p s =
    let t =
      co_create_env p.self p.stack p.buffer null null (128 * 1024)
        (record s.thread { env = new_env }) in
    let t = set_co p.self (record (new_co null null p.stack false) { is_main = true }) t in
    record t { env = record new_env { call_stack = write new_env.call_stack 0 p.self; size = 1 } }

abbrev first_life : MainPlaces → ℕ → Life → Life
first_life p now s = record {
  initialized = true;
  thread = first_thread p s;
  epoll = some (alloc_epoll p.epoll p.fd now s.resources).0;
  resources = (alloc_epoll p.epoll p.fd now s.resources).1;
}

init_runs :
    (p : MainPlaces) (now : ℕ) (s : Life)
    → co_init_curr_thread_env p now s ≡ ok (first_life p now s)
unfolding co_init_curr_thread_env co_create_env
init_runs p now s = ground (arith, ==_refl p.self)

co_create_runs :
    (p : MainPlaces) (now co stack buffer func arg size : ℕ) (s : Life)
    → s.initialized ≡ false
    → co_create p now co stack buffer func arg size s
      ≡ ok (record (first_life p now s) {
        thread = co_create_env co stack buffer func arg size (first_thread p s);
      })
unfolding co_create ensure_env
co_create_runs p now co stack buffer func arg size s h = ground (arith, h, init_runs p now s)

-- A switch between two coroutines with stacks of their own.
swap_runs :
    (curr next sp : Ptr) (t : Thread) (c n : Co)
    → t.co curr ≡ some c
    → t.co next ≡ some n
    → curr ≢ next
    → n.is_share ≡ false
    → swap_out curr next sp t
      ≡ ok (record (set_co curr (record c { sp = sp }) t) {
        env = record t.env { pending = null; occupy = null };
      })
unfolding swap_out
swap_runs curr next sp t c n h h' ne own = ground (arith, h, h', ==_ne next curr)

-- The thread before the switch of co_resume.
abbrev called : (co : Ptr) → Co → Thread → Thread
called co n t = record (set_co co (record n { started = true }) t) {
  env = record t.env { call_stack = write t.env.call_stack t.env.size co; size = t.env.size + 1 };
}

-- In a thread without an environment no coroutine runs. The first co_create gives it one with a
-- main coroutine, which is the one that runs. Then co_resume of the new coroutine succeeds, it is
-- started, and it runs; and after it yields the main coroutine runs again.
pub co_create_first :
    (p : MainPlaces) (now co stack buffer func arg size sp sp' : ℕ) (s : Life)
    → s.initialized ≡ false
    → p.self ≢ null
    → co ≢ null
    → p.self ≢ co
    → (z : Life) × (u v : Thread) × (m c : Co) × (co_self (co_get_curr_thread_env s) ≡ ok null)
      × (co_create p now co stack buffer func arg size s ≡ ok z)
      × (co_self (co_get_curr_thread_env z) ≡ ok p.self)
      × (z.thread.co p.self ≡ some m)
      × (m.is_main ≡ true)
      × (co_resume co sp z.thread ≡ ok u)
      × (co_self (some u) ≡ ok co)
      × (u.co co ≡ some c)
      × (c.started ≡ true)
      × (co_yield_env sp' u ≡ ok v)
      × (co_self (some v) ≡ ok p.self)
unfolding co_self get_curr_thread_co get_curr_co co_resume co_yield_env co_create_env
co_create_first p now co stack buffer func arg size sp sp' s h nn nc ne =
    let z : Life = record (first_life p now s) {
      thread = co_create_env co stack buffer func arg size (first_thread p s);
    } in
    let m : Co = record (new_co null null p.stack false) { is_main = true } in
    let n = new_co func arg stack false in
    let main : z.thread.co p.self ≡ some m = ground (arith, ==_refl p.self) in
    let new : z.thread.co co ≡ some n = ground (arith, ==_refl co) in
    let t = called co n z.thread in
    let out =
      swap_runs p.self co sp t m (record n { started = true }) (ground (arith, main))
        (ground (arith, ==_refl co)) ne refl in
    let u : Thread = record (set_co p.self (record m { sp = sp }) t) {
      env = record t.env { pending = null; occupy = null };
    } in
    let back : Thread = record u { env = record u.env { size = 1 } } in
    let again =
      swap_runs co p.self sp' back (record n { started = true }) (record m { sp = sp })
        (ground (arith, ==_refl co)) (ground (arith, ==_refl p.self)) (ground (arith)) refl in
    let v : Thread = record (set_co co (record n { started = true; sp = sp' }) back) {
      env = record back.env { pending = null; occupy = null };
    } in
    (
      z,
      u,
      v,
      m,
      record n { started = true },
      ground (arith, h),
      co_create_runs p now co stack buffer func arg size s h,
      refl,
      main,
      refl,
      ground (arith, new, out),
      refl,
      ground (arith, ==_refl co),
      refl,
      ground (arith, again),
      refl,
    )
