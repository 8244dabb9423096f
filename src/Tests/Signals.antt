-- ===== src/Tests/Signals.antt =====
-- A coroutine whose timer, 27, is over at 21 milliseconds, and that signals the condition variable
-- 100 then. The items 1 and 2 wait for it: the timer of the first, 25, is on the wheel, that of the
-- second, 26, is not.
use jkyi_libco.Base.{
  ◌≡◌, ◌⊎◌, ltb, ◌<◌, ◌≤◌, refl, none, some, false, true, List, [], ◌∷◌, ◌++◌, arith, Ptr, has,
  ◌==◌, if◌then◌else◌, inl, inr, eq-cases, ==_ne, map,
}
use jkyi_libco.Base.Run.{Run, ok, fault, out_of_fuel}
use jkyi_libco.Link.{Store, detached, no_ends, join, pop_head, remove_from_link, add_tail}
use jkyi_libco.Link.View.{Lists, Represents}
use jkyi_libco.Timeout.{slot, take_all_timeout}
use jkyi_libco.Timeout.Add.{OnTime}
use jkyi_libco.Timeout.Expiry.{turned}
use jkyi_libco.Cond.{timeout_of, cond_signal, timedwait_end}
use jkyi_libco.Cond.Serving.{Queue, signals, signals-Wakes, left_by, WaitsFor}
use jkyi_libco.Cond.Rounds.{round-cond_signal}
use jkyi_libco.Loop.{Sched, round}
use jkyi_libco.Loop.Serving.{IsServing, Fit, quiet}
use jkyi_libco.Loop.Serving.Batch.{hit}
use jkyi_libco.Loop.Serving.Waking.{round-wakes}
use jkyi_libco.Tests.States.{store, lists, store-Represents, wide, wide-IsWheel, node, ends}

abbrev timers : Store
timers = record {
  node = λ p.
      if p == 27
      then some (node 0 0 110)
      else if p == 25
      then some (node 0 0 120)
      else if p == 26
      then some detached
      else none;
  ends = λ l. if l == 110 then ends 27 27 else if l == 120 then ends 25 25 else no_ends;
}

abbrev on_wheel : Lists
on_wheel l = if l == 110 then 27 ∷ [] else if l == 120 then 25 ∷ [] else []

timers-Represents : Represents timers on_wheel
timers-Represents = record {
  null_free = refl;
  no_null_list = refl;
  ends = λ l. ground arith;
  chain = λ l. elim (eq-cases l 110) [
    | inl e ↦ rw e (refl, tt)
    | inr n ↦
        rw (==_ne l 110 n)
          (elim (eq-cases l 120) [ inl e ↦ rw e (refl, tt) | inr n' ↦ rw (==_ne l 120 n') tt ])
  ];
  distinct = λ l. elim (eq-cases l 110) [
    | inl e ↦ rw e (refl, tt)
    | inr n ↦
        rw (==_ne l 110 n)
          (elim (eq-cases l 120) [ inl e ↦ rw e (refl, tt) | inr n' ↦ rw (==_ne l 120 n') tt ])
  ];
  member = λ p n e h. ground arith;
}

abbrev until : Ptr → Ptr
until p = if p == 27 then 21 else if p == 25 then 31 else 0

abbrev pool : List Ptr
pool = 25 ∷ 26 ∷ 27 ∷ []

abbrev waiting : Sched Queue
waiting = record {
  timers = timers;
  wheel = wide;
  expire = until;
  timed_out = λ p. false;
  owner = λ item. none;
  polls = λ p. quiet;
  world = record { items = store; resumed = [] };
}

on_wheel-OnTime : OnTime wide on_wheel until
unfolding slot
on_wheel-OnTime d p lt m = ground arith

waiting-IsServing : IsServing 70000 70001 pool waiting on_wheel
waiting-IsServing = record {
  view = timers-Represents;
  wheel = wide-IsWheel;
  out_a = λ h. omega arith;
  out_t = λ h. omega arith;
  idle = refl;
  on_time = on_wheel-OnTime;
  unmarked = λ k x ne m. refl;
  attached = λ k x ne m. refl;
  ready = λ x m. refl;
  room = omega arith;
  pooled = λ k x m. ground arith;
}

waiters-Fit : (q : Ptr) → has q (25 ∷ 26 ∷ []) ≡ true → Fit pool waiting q
waiters-Fit q m = (ground arith, ground arith, refl)

wakes_example :
    (z : Sched Queue) × (M : Lists) × (ys rs : List Ptr) × (round 7 70000 70001 [] 21
        (signals 70000 100 (ltb 26))
        waiting
      ≡ ok z)
    × IsServing 70000 70001 pool z M
    × WaitsFor 100 (ltb 26) (25 ∷ 26 ∷ []) z.world rs
    × ((q : Ptr) → has q rs ≡ true → Fit pool z q)
    × ((q : Ptr) → has q (25 ∷ 26 ∷ []) ≡ true → (has q rs ≡ true) ⊎ (has q ys ≡ true))
    × (M 70000 ≡ [])
    × (z.wheel ≡ turned wide 21)
    × (z.world.resumed ≡ [] ++ ys)
    × ((q : Ptr)
        → (has q (on_wheel 70000) ≡ true)
          ⊎ ((hit waiting.owner [] q ≡ true)
              ⊎ ((d : Ptr) × (d < 60000)
                  × (has q (on_wheel (slot wide d)) ≡ true)
                  × (until q ≤ 21)))
        → has q ys ≡ true)
    × ((q d : Ptr)
        → d < 60000
        → has q (on_wheel (slot wide d)) ≡ true
        → (has q ys ≡ true) ⊎ ((has q (M (slot wide d)) ≡ true) × (z.expire q ≡ until q)))
wakes_example =
    round-wakes 70000 70001 pool (omega arith) (omega arith) (omega arith)
      (signals 70000 100 (ltb 26)) (λ w. w.resumed) (WaitsFor 100 (ltb 26) (25 ∷ 26 ∷ []))
      (signals-Wakes 70000 70001 pool (omega arith) (omega arith) 100 (ltb 26) (25 ∷ 26 ∷ [])) 7 21
      [] (25 ∷ 26 ∷ []) waiting on_wheel waiting-IsServing (lists, store-Represents, refl, refl)
      waiters-Fit tt (omega arith) (omega arith) (omega arith) (omega arith) (omega arith)

served_example :
    (z : Sched Queue) × (M D : Lists) × (round 7 70000 70001 [] 21
        (signals 70000 100 (ltb 26))
        waiting
      ≡ ok z)
    × IsServing 70000 70001 pool z M
    × Represents z.world.items D
    × ((q : Ptr)
        → (has q (on_wheel 70000) ≡ true)
          ⊎ ((hit waiting.owner [] q ≡ true)
              ⊎ ((d : Ptr) × (d < 60000)
                  × (has q (on_wheel (slot wide d)) ≡ true)
                  × (until q ≤ 21)))
        → has q z.world.resumed ≡ true)
    × (map timeout_of (D 100) ≡ left_by (ltb 26) z.world.resumed (25 ∷ 26 ∷ []))
    × ((q : Ptr)
        → has q (25 ∷ 26 ∷ []) ≡ true
        → (has q (map timeout_of (D 100)) ≡ true) ⊎ (has q z.world.resumed ≡ true))
served_example =
    round-cond_signal 70000 70001 pool (omega arith) (omega arith) (omega arith) 100 (ltb 26) 7 21
      [] waiting on_wheel lists waiting-IsServing store-Represents refl waiters-Fit tt (omega arith)
      (omega arith) (omega arith) (omega arith) (omega arith)

abbrev resumed_in : Run (Sched Queue) → List Ptr
resumed_in (ok z) = z.world.resumed
resumed_in fault = []
resumed_in out_of_fuel = []

-- Both have been resumed, the one that signals before the one that it wakes.
signals_run :
    resumed_in (round 7 70000 70001 [] 21 (signals 70000 100 (ltb 26)) waiting) ≡ 27 ∷ 25 ∷ []
unfolding round signals timedwait_end take_all_timeout join pop_head cond_signal remove_from_link
    add_tail
signals_run = refl

-- The first waiter times out and signals: it has left the queue, and the second one is woken.
timed_out_run :
    resumed_in (round 7 70000 70001 [] 31 (signals 70000 100 (λ p. p == 25)) waiting)
    ≡ 27 ∷ 25 ∷ 26 ∷ []
unfolding round signals timedwait_end take_all_timeout join pop_head cond_signal remove_from_link
    add_tail
timed_out_run = refl
