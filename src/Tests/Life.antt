-- ===== src/Tests/Life.antt =====
-- A thread that is given its environment, and coroutines with data of their own.
use jkyi_libco.Base.{
  ℕ, ◌+◌, ◌≡◌, ◌≢◌, inl, refl, arith, true, false, none, some, [], Ptr, null, ◌==◌, if◌then◌else◌,
}
use jkyi_libco.Base.Run.{ok}
use jkyi_libco.Routine.{Co, Thread, new_co, co_resume, co_yield_env}
use jkyi_libco.Routine.Current.{co_self, get_curr_thread_co, get_curr_co}
use jkyi_libco.Routine.Start.{Life, MainPlaces, co_create, co_get_curr_thread_env, new_env}
use jkyi_libco.Routine.Start.First.{co_create_first}
use jkyi_libco.Specific.{Pthread, Specs, Wrapper, co_getspecific, co_setspecific, make_key, arrow}
use jkyi_libco.Specific.Isolated.{Runs, co_getspecific-co_setspecific}
use jkyi_libco.Specific.Stable.{arrow_stable}

abbrev bare : Thread
bare = record { co = λ p. none; stack = λ p. none; env = new_env; mem = λ a. 0 }

abbrev life : Life
life = record {
  initialized = false;
  thread = bare;
  epoll = none;
  resources = record { blocks = []; wheels = λ p. none; fds = [] };
}

abbrev places : MainPlaces
places = record {
  self = 10;
  stack = 11;
  buffer = 4096;
  epoll = record {
    ctx = 1;
    timeout = 2;
    items = 3;
    returned = 2;
    active_list = 4;
    timeout_list = 5;
  };
  fd = 3;
}

first_example :
    (z : Life) × (u v : Thread) × (m c : Co) × (co_self (co_get_curr_thread_env life) ≡ ok null)
    × (co_create places 7 20 21 9000 66 0 4096 life ≡ ok z)
    × (co_self (co_get_curr_thread_env z) ≡ ok 10)
    × (z.thread.co 10 ≡ some m)
    × (m.is_main ≡ true)
    × (co_resume 20 5000 z.thread ≡ ok u)
    × (co_self (some u) ≡ ok 20)
    × (u.co 20 ≡ some c)
    × (c.started ≡ true)
    × (co_yield_env 9900 u ≡ ok v)
    × (co_self (some v) ≡ ok 10)
first_example =
    co_create_first places 7 20 21 9000 66 0 4096 5000 9900 life refl (omega arith) (omega arith)
      (omega arith)

-- The thread where the coroutine at `p` runs.
abbrev running : Ptr → Thread
running p = record bare {
  co = λ q. if q == p then some (new_co 66 0 21 false) else none;
  env = record new_env { call_stack = λ i. p; size = 2 };
}

running-Runs : (p : Ptr) → p ≢ null → Runs p (running p)
unfolding get_curr_thread_co get_curr_co
running-Runs p nn = (refl, nn, new_co 66 0 21 false, ground arith, refl)

abbrev pthread : Pthread ℕ
pthread = record { get = λ key w. 0; set = λ key v w. (0, w); key_create = λ w. (w, w + 1) }

abbrev specs : Specs ℕ
specs = record { thread = some (running 20); spec = λ p k. 0; world = 4 }

specific_example :
    (z : Specs ℕ) × (co_setspecific pthread 4 77 specs ≡ ok (0, z))
    × (co_getspecific pthread 4 z ≡ ok 77)
    × (z.world ≡ 4)
    × (co_getspecific pthread 4 (record z { thread = some (running 30) })
        ≡ co_getspecific pthread 4 (record specs { thread = some (running 30) }))
specific_example =
    co_getspecific-co_setspecific pthread 20 (running 20) 4 77 specs refl
      (running-Runs 20 (omega arith)) (omega arith) 30 (running 30) 4
      (running-Runs 30 (omega arith)) (omega arith) (inl (omega arith))

abbrev wrapper : Wrapper
wrapper = record { once = false; key = 0; init = false }

stable_example :
    (a b : Ptr) × (w : Wrapper) × (y z : Specs ℕ) × (arrow pthread 700 wrapper specs ≡ ok (a, w, y))
    × (a ≢ null)
    × (arrow pthread 800 w (record y { thread = some (running 30) }) ≡ ok (b, w, z))
    × (b ≢ null)
    × (arrow pthread 900 w (record z { thread = some (running 20) })
        ≡ ok (a, w, record z { thread = some (running 20) }))
unfolding arrow make_key
stable_example =
    arrow_stable pthread 20 30 700 800 900 (running 20) (running 30) (running 20) wrapper specs refl
      (running-Runs 20 (omega arith)) (running-Runs 30 (omega arith))
      (running-Runs 20 (omega arith)) (omega arith) (omega arith) (omega arith) (omega arith)
