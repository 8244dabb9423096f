-- ===== src/Loop/Serving/Turn.antt =====
-- A round of co_eventloop (co_routine.cc, lines 689 to 748) with any events, and with coroutines
-- that wait again.
use jkyi_libco.Base.{
  ℕ, ◌+◌, ◌-◌, ◌^◌, ◌≤◌, ◌<◌, ◌≡◌, ◌≢◌, ◌⊎◌, ◌↔◌, refl, ap, ◌∙◌, true, false, List, [], map, ◌++◌,
  arith, Ptr, null, length, has, Distinct,
}
use jkyi_libco.Base.Run.{Run, ok}
use jkyi_libco.Link.View.{Lists}
use jkyi_libco.Timeout.{slot}
use jkyi_libco.Timeout.Expiry.{turned}
use jkyi_libco.Loop.{Sched, PollState, round}
use jkyi_libco.Loop.Serving.{IsServing, Resumes, seen, length-serving}
use jkyi_libco.Loop.Serving.Pass.{drain-serves}
use jkyi_libco.Loop.Serving.Batch.{hit, recorded, Known}
use jkyi_libco.Loop.Serving.Ready.{round_ready}

module _ {W A : Type 0} (active timeout : ℕ) (pool : List Ptr) (na : active ≢ null)
    (nt : timeout ≢ null) (apart : active ≢ timeout) (process : Ptr → Sched W → Run (Sched W))
    (report : Ptr → PollState → A) (resumed : W → List (Ptr × A))
    (resumes : Resumes active timeout pool process report resumed) where
  -- A coroutine that is resumed frees what it waits with and may wait again; it makes nothing else
  -- active and moves no other item. The clock has moved less than 2 ^ 31 - 1 milliseconds, each event is
  -- for a coroutine that waits, and `fuel` is more than the number of items in use. Then a round
  -- with any events ends without a fault: the coroutines that it resumes are exactly those that
  -- were active, that have an event, or whose deadline is over, each of them once; nothing is left
  -- active, and every other timer stays where it is, with its deadline. Each coroutine finds
  -- recorded what the events say of it, in order, when it is resumed.
  pub round-serves :
      (fuel now : ℕ) (es : List (Ptr × ℕ)) (s : Sched W) (L : Lists)
      → IsServing active timeout pool s L
      → Known s.owner L es
      → s.wheel.start ≤ now
      → now - s.wheel.start + 1 < 2 ^ 31
      → now < 2 ^ 62
      → s.wheel.idx + (now - s.wheel.start) < 2 ^ 62
      → length pool < fuel
      → (z : Sched W) × (M : Lists) × (xs : List Ptr) × (round fuel active timeout es now process s
          ≡ ok z)
        × IsServing active timeout pool z M
        × (M active ≡ [])
        × (z.wheel ≡ turned s.wheel now)
        × (resumed z.world ≡ resumed s.world ++ map (seen report (recorded s.owner es s.polls)) xs)
        × Distinct xs
        × ((q : Ptr)
            → (has q xs ≡ true) ↔ (
                (has q (L active) ≡ true)
                ⊎ ((hit s.owner es q ≡ true)
                    ⊎ ((d : ℕ) × (d < s.wheel.size)
                        × (has q (L (slot s.wheel d)) ≡ true)
                        × (s.expire q ≤ now)))))
        × ((q d : Ptr)
            → d < s.wheel.size
            → has q xs ≡ false
            → has q (L (slot s.wheel d)) ≡ true
            → (has q (M (slot s.wheel d)) ≡ true)
              × (z.expire q ≡ s.expire q)
              × (z.polls q ≡ recorded s.owner es s.polls q))
  round-serves fuel now es s L v known since short small idx enough =
      let (u, N, run, v₁, wheel, expire, world, polls, members, stay, fit) =
        round_ready active timeout pool na nt apart process fuel now es s L v known since short
          small idx enough in
      let (z, M, run', v', none_left, wheel', log, others) =
        drain-serves active timeout pool apart now process report resumed resumes fuel (N active) u
          N v₁ refl (ap (λ w. w.start) wheel)
          (omega (arith, length-serving active timeout pool u N active v₁)) in
      (
        z,
        M,
        N active,
        run ∙ run',
        v',
        none_left,
        wheel' ∙ wheel,
        rw (log, world, polls) refl,
        v₁.view.distinct active,
        members,
        λ q d lt out m.
            let (m', until, poll) = others q (slot s.wheel d) out (stay q d lt out m) in
            (m', until ∙ ap (λ f. f q) expire, poll ∙ ap (λ f. f q) polls),
      )
