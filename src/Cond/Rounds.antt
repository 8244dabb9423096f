-- ===== src/Cond/Rounds.antt =====
-- A round of co_eventloop (co_routine.cc, lines 689 to 748) in which coroutines call co_cond_signal
-- (lines 980 to 991) and run on in co_cond_timedwait (lines 1024 to 1027): who is woken.
use jkyi_libco.Base.{
  ℕ, ◌+◌, ◌-◌, ◌^◌, ◌≤◌, ◌<◌, ◌≡◌, ◌≢◌, ◌⊎◌, refl, sym, ap, ◌∙◌, Bool, true, List, [], ◌++◌, map,
  length, Ptr, null, has, inl, inr,
}
use jkyi_libco.Base.Run.{ok}
use jkyi_libco.Link.View.{Lists, Represents}
use jkyi_libco.Timeout.{slot}
use jkyi_libco.Cond.{timeout_of}
use jkyi_libco.Cond.Serving.{Queue, signals, signals-Wakes, left_by, WaitsFor}
use jkyi_libco.Loop.{Sched, round}
use jkyi_libco.Loop.Serving.{IsServing, Fit}
use jkyi_libco.Loop.Serving.Batch.{hit, Known}
use jkyi_libco.Loop.Serving.Waking.{round-wakes}

-- Each coroutine that is resumed runs on as `signals` has it: it ends its co_cond_timedwait if it waits
-- there, signals the condition variable `si` if it is one of `speaks`, and does no more. The state is as between two
-- rounds, the waiters of `si` have timers that are in use and not marked as timed out before their
-- time, the clock has moved less than 2 ^ 31 - 1 milliseconds, each event is for a coroutine that
-- waits, and `fuel` is more than the items in use and the waiters. Then a round with any events ends
-- without a fault. Whoever was active, had an event, or had a deadline that is over, has been resumed.
-- The queue of `si` is what the resumptions leave of it, in their order: the one that is resumed
-- leaves the queue, by time-out or woken, and each that signals takes the longest waiter of the
-- others. Each waiter that the queue has lost has been resumed in this same round, whatever its
-- deadline.
pub round-cond_signal :
    (active timeout : ℕ) (pool : List Ptr)
    → active ≢ null
    → timeout ≢ null
    → active ≢ timeout
    → (si : Ptr) (speaks : Ptr → Bool) (fuel now : ℕ) (es : List (Ptr × ℕ)) (s : Sched Queue)
      (L C : Lists)
    → IsServing active timeout pool s L
    → Represents s.world.items C
    → s.world.resumed ≡ []
    → ((q : Ptr) → has q (map timeout_of (C si)) ≡ true → Fit pool s q)
    → Known s.owner L es
    → s.wheel.start ≤ now
    → now - s.wheel.start + 1 < 2 ^ 31
    → now < 2 ^ 62
    → s.wheel.idx + (now - s.wheel.start) < 2 ^ 62
    → length pool + length (map timeout_of (C si)) < fuel
    → (z : Sched Queue) × (M D : Lists) × (round fuel active timeout es now
          (signals active si speaks)
          s
        ≡ ok z)
      × IsServing active timeout pool z M
      × Represents z.world.items D
      × ((q : Ptr)
          → (has q (L active) ≡ true)
            ⊎ ((hit s.owner es q ≡ true)
                ⊎ ((d : ℕ) × (d < s.wheel.size)
                    × (has q (L (slot s.wheel d)) ≡ true)
                    × (s.expire q ≤ now)))
          → has q z.world.resumed ≡ true)
      × (map timeout_of (D si) ≡ left_by speaks z.world.resumed (map timeout_of (C si)))
      × ((q : Ptr)
          → has q (map timeout_of (C si)) ≡ true
          → (has q (map timeout_of (D si)) ≡ true) ⊎ (has q z.world.resumed ≡ true))
round-cond_signal active timeout pool na nt apart si speaks fuel now es s L C v queue none_yet fit
      known since short small idx enough =
    let all = map timeout_of (C si) in
    let start : all ≡ left_by speaks s.world.resumed all = rw none_yet refl in
    let (
      z,
      M,
      ys,
      rs,
      run,
      v',
      (D, view, exact, counted),
      fit',
      gone,
      none_left,
      wheel,
      log,
      hits,
      others,
    ) =
      round-wakes active timeout pool na nt apart (signals active si speaks) (λ w. w.resumed)
        (WaitsFor si speaks all) (signals-Wakes active timeout pool na apart si speaks all) fuel now
        es all s L v (C, queue, refl, start) fit known since short small idx enough in
    let all_new : z.world.resumed ≡ ys = log ∙ ap (λ (l : List Ptr). l ++ ys) none_yet in
    (
      z,
      M,
      D,
      run,
      v',
      view,
      λ q h. ap (has q) all_new ∙ hits q h,
      sym exact ∙ counted,
      λ q m. elim (gone q m) [
        | inl left ↦ inl (ap (has q) (sym exact) ∙ left)
        | inr woken ↦ inr (ap (has q) all_new ∙ woken)
      ],
    )
