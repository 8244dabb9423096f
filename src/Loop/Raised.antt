-- ===== src/Loop/Raised.antt =====
-- A round of co_eventloop (co_routine.cc, lines 689 to 748) that finds an item active, and one in
-- which epoll has an event for a coroutine that waits in co_poll_inner.
use jkyi_libco.Base.{
  ℕ, ◌+◌, ◌-◌, ◌*◌, ◌^◌, ◌≤◌, ◌<◌, ◌≡◌, ◌≢◌, sym, ap, true, false, some, List, [], ◌∷◌, ◌++◌, arith,
  Ptr, null, has, has-append, subst, ◌∙◌,
}
use jkyi_libco.Base.Run.{Run, ok}
use jkyi_libco.Link.{Node}
use jkyi_libco.Link.View.{allocated}
use jkyi_libco.Timeout.{slot}
use jkyi_libco.Timeout.Slots.{slot-IsSlot}
use jkyi_libco.Timeout.Take.{gather}
use jkyi_libco.Timeout.Expiry.{count_due}
use jkyi_libco.Loop.{Sched, round, raise}
use jkyi_libco.Loop.Drain.{run_all}
use jkyi_libco.Loop.Round.{round_kept}
use jkyi_libco.Loop.Wakes.{IsLoop, IsLoop-left, few_due}
use jkyi_libco.Loop.Events.{round_event, Prepared}

module _ {W : Type 0} (active timeout most : ℕ) (na : active ≢ null) (nt : timeout ≢ null)
    (apart : active ≢ timeout) (process : Ptr → Sched W → Run (Sched W)) (act : Ptr → W → W)
    (runs : (q : Ptr) (s : Sched W) → process q s ≡ ok (record s { world = act q s.world })) where
  -- A round without events processes what is active.
  pub round-IsLoop :
      (fuel now p : ℕ) (u : Sched W) (y : IsLoop active timeout most u)
      → has p (y.L active) ≡ true
      → u.wheel.start ≤ now
      → now - u.wheel.start + 1 < 2 ^ 31
      → now < 2 ^ 62
      → u.wheel.idx + (now - u.wheel.start) < 2 ^ 62
      → most < fuel
      → most + u.wheel.size * most < fuel
      → (z : Sched W) × (xs : List Ptr) × (round fuel active timeout [] now process u ≡ ok z)
        × (z.world ≡ run_all act xs u.world)
        × (has p xs ≡ true)
        × (z.polls ≡ u.polls)
        × ((q : Ptr) → allocated z.timers q ≡ allocated u.timers q)
        × IsLoop active timeout most z
  round-IsLoop fuel now p u y here since short small idx enough more =
      let (z, M, run, view, world, none_a, none_t, wheel, on_time, expire, polls, nodes, kept) =
        round_kept active timeout now process act runs u y.L y.view y.wheel fuel na nt apart y.out_a
          y.out_t since short y.idle y.on_time y.unmarked
          (λ d. omega (arith, y.few (slot u.wheel d) (slot-IsSlot u.wheel y.wheel d)))
          (few_due active timeout most na nt u now y fuel more) in
      let (loop, same) =
        IsLoop-left active timeout most na nt u z now y since M small idx view none_a none_t wheel
          on_time kept in
      (
        z,
        y.L active ++ gather u.wheel y.L 0 (count_due u.wheel now),
        run,
        world,
        ground
            (arith, here, has-append p (y.L active) (gather u.wheel y.L 0 (count_due u.wheel now))),
        polls,
        nodes,
        loop,
      )

module _ {W : Type 0} (active timeout most : ℕ) (na : active ≢ null) (nt : timeout ≢ null)
    (apart : active ≢ timeout) (process : Ptr → Sched W → Run (Sched W)) (act : Ptr → W → W)
    (runs : (q : Ptr) (s : Sched W) → process q s ≡ ok (record s { world = act q s.world })) where
  -- A round with one event, and what it leaves of the stPoll_t.
  pub round_raised :
      (fuel now item p i mask : ℕ) (s : Sched W) (n : Node)
      → IsLoop active timeout most s
      → s.owner item ≡ some (p, i)
      → s.timers.node p ≡ some n
      → s.timed_out p ≡ false
      → (s.polls p).detached ≡ false
      → s.wheel.start ≤ now
      → now - s.wheel.start + 1 < 2 ^ 31
      → now < 2 ^ 62
      → s.wheel.idx + (now - s.wheel.start) < 2 ^ 62
      → most + 1 < fuel
      → (most + 1) + s.wheel.size * (most + 1) < fuel
      → (z : Sched W) × (xs : List Ptr) × (round fuel active timeout
            ((item, mask) ∷ [])
            now
            process
            s
          ≡ ok z)
        × (z.world ≡ run_all act xs s.world)
        × (has p xs ≡ true)
        × (z.polls p ≡ raise i mask (s.polls p))
        × (allocated z.timers p ≡ true)
        × IsLoop active timeout (most + 1) z
  round_raised fuel now item p i mask s n x owner at fresh first since short small idx enough more =
      let (u, y, prepared, here, raised, alive, world, wheel) =
        Prepared active timeout most p i mask s n x na apart at fresh first in
      let (z, xs, run, after, hit, polls, nodes, loop) =
        round-IsLoop active timeout (most + 1) na nt apart process act runs fuel now p u y here
          (subst (λ w. w.start ≤ now) (sym wheel) since)
          (subst (λ w. now - w.start + 1 < 2 ^ 31) (sym wheel) short) small
          (subst (λ w. w.idx + (now - w.start) < 2 ^ 62) (sym wheel) idx) enough
          (subst (λ w. (most + 1) + w.size * (most + 1) < fuel) (sym wheel) more) in
      (
        z,
        xs,
        round_event fuel active timeout now item p i mask process s u y.L owner prepared y.view
              y.idle
            ∙ run,
        after ∙ ap (run_all act xs) world,
        hit,
        ap (λ f. f p) polls ∙ raised,
        nodes p ∙ alive,
        loop,
      )
