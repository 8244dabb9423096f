-- ===== src/Tests/Switch.antt =====
-- Two coroutines, 20 and 30, on the shared stack 50, which ends at 1000; 20 occupies it. The main
-- coroutine is 10.
use jkyi_libco.Base.{
  ℕ, ◌+◌, ◌*◌, ◌%◌, ◌≤◌, ◌<◌, ◌≡◌, ◌⊎◌, refl, inl, inr, true, false, none, some, [], ◌∷◌, arith,
  Ptr, ◌==◌, if◌then◌else◌,
}
use jkyi_libco.Base.Run.{Run, ok, fault, out_of_fuel}
use jkyi_libco.Routine.{
  Co, StackMem, Thread, new_co, stack_size, swap_out, swap_in, co_free, co_resume, co_yield_env,
  save_stack_buffer, load_pointer,
}
use jkyi_libco.Routine.Size.{stack_size_bounds}
use jkyi_libco.Routine.Entered.{Holds}
use jkyi_libco.Routine.Switch.{switch-keeps, swap_in-co_free}
use jkyi_libco.Routine.Calls.{Switched, co_yield_env-co_resume}

abbrev main : Co
main = record (new_co 0 0 40 false) { is_main = true }

abbrev first : Co
first = record (new_co 7 0 50 true) { started = true; sp = 997 }

abbrev second : Co
second = record (new_co 8 0 50 true) {
  started = true;
  sp = 998;
  save_size = 2;
  save_buffer = some (5 ∷ 6 ∷ []);
}

abbrev shared : StackMem
shared = record { occupy = 20; size = 100; bp = 1000; buffer = 900 }

abbrev thread : Thread
thread = record {
  co = λ p.
      if p == 10
      then some main
      else if p == 20
      then some first
      else if p == 30
      then some second
      else none;
  stack = λ q. if q == 50 then some shared else none;
  env = record { call_stack = λ i. 10; size = 1; pending = 0; occupy = 0 };
  mem = λ q. q;
}

abbrev first_holds :
    Holds
      (record thread {
        co = λ p. if p == 10 then some (record main { sp = 2000 }) else thread.co p;
      })
      20
      (997 ∷ 998 ∷ 999 ∷ [])
first_holds = record {
  co = first;
  stack = shared;
  at = refl;
  on = refl;
  content = inl (refl, omega arith, refl);
}

second_holds :
    Holds
      (record thread {
        co = λ p. if p == 10 then some (record main { sp = 2000 }) else thread.co p;
      })
      30
      (5 ∷ 6 ∷ [])
second_holds = record {
  co = second;
  stack = shared;
  at = refl;
  on = refl;
  content = inr (omega arith, refl, refl, omega arith);
}

-- The environment stands where the eight bytes at 100 point to.
abbrev home : Ptr
home = 7740114806721897828

switch_example :
    (u v : Thread) × (swap_out 10 30 2000 thread ≡ ok u)
    × (swap_in 100 home u ≡ ok v)
    × Holds v 20 (997 ∷ 998 ∷ 999 ∷ [])
    × (v.stack 50 ≡ some (record shared { occupy = 30 }))
switch_example =
    switch-keeps 10 30 2000 thread main second shared refl refl refl refl 100 home first
      (5 ∷ 6 ∷ []) (997 ∷ 998 ∷ 999 ∷ []) 20 refl (omega arith) (omega arith) refl refl
      (omega arith) (omega arith) second_holds first_holds (λ n. absurd (n refl))

freed_example :
    (u v : Thread) × (co_free 20 thread ≡ ok u)
    × (swap_out 10 30 2000 u ≡ ok v)
    × (v.mem ≡ thread.mem)
    × (swap_in 100 7 v ≡ (if load_pointer thread.mem 100 == 7 then ok v else fault))
freed_example =
    swap_in-co_free 100 7 20 10 30 2000 thread first main second shared refl refl refl refl refl
      refl refl refl (omega arith) (omega arith) (omega arith)

abbrev asked : ℕ
asked = 5000

size_example :
    (4096 ≤ stack_size 5000)
    × (stack_size 5000 ≤ 1024 * 1024 * 8)
    × (stack_size 5000 % 4096 ≡ 0)
    × ((asked ≡ 0)
        ⊎ ((1024 * 1024 * 8 < 5000) ⊎ ((5000 ≤ stack_size 5000) × (stack_size 5000 < 5000 + 4096))))
size_example = stack_size_bounds 5000 (omega arith)

-- The thread of a run that has not faulted.
abbrev thread_of : Run Thread → Thread
thread_of (ok t) = t
thread_of fault = thread
thread_of out_of_fuel = thread

abbrev resumed : Thread
unfolding co_resume swap_out save_stack_buffer
resumed = thread_of (co_resume 30 2000 thread)

abbrev yielded : Thread
unfolding co_yield_env swap_out save_stack_buffer
yielded = thread_of (co_yield_env 3000 resumed)

nested_example :
    Switched 10 30 2000 resumed
    × Switched 30 10 3000 yielded
    × (yielded.env.size ≡ 1)
    × ((i : ℕ) → i < 1 → yielded.env.call_stack i ≡ 10)
unfolding resumed yielded co_resume co_yield_env swap_out save_stack_buffer
nested_example =
    co_yield_env-co_resume 30 2000 3000 thread resumed resumed yielded refl (refl, refl) refl

-- Before the first coroutine has been put on the call stack.
abbrev bare : Thread
bare = record thread { env = record thread.env { size = 0 } }
