-- ===== src/Wait/Answered.antt =====
-- A poll for one descriptor, from the first half of co_poll_inner over a round of co_eventloop to
-- the second half (co_routine.cc, lines 689 to 748 and 794 to 896).
use jkyi_libco.Base.{
  ℕ, ◌+◌, ◌-◌, ◌*◌, ◌^◌, ◌≤◌, ◌<◌, ◌≡◌, ◌≢◌, refl, sym, ap, ◌∙◌, subst, arith, true, false, Bool,
  some, none, List, [], ◌∷◌, Ptr, null, length, get_elem?, ==_refl, ◌&&◌, has,
}
use Prim.Native.Nat.{min}
use jkyi_libco.Base.Run.{Run, ok}
use jkyi_libco.Link.{Node}
use jkyi_libco.Cond.Signal.{allocated-node}
use jkyi_libco.Fd.{is_fd}
use jkyi_libco.Poll.{Pollfd, poll_event2epoll, epoll_event2poll}
use jkyi_libco.Loop.{Sched, round, raise}
use jkyi_libco.Loop.Drain.{run_all}
use jkyi_libco.Loop.Wakes.{IsLoop}
use jkyi_libco.Loop.Raised.{round_raised}
use jkyi_libco.Wait.{Epoll, yields, is_eperm, poll_begin, poll_end, register_all, new_poll}
use jkyi_libco.Wait.Woken.{poll_begin-Waits}
use jkyi_libco.Wait.End.{poll_end-frees}

-- The item of the only entry belongs to the poll.
register_one :
    {W : Type 0} (epoll : Epoll W) (alone : Bool) (p : Ptr) (item : ℕ → Ptr) (f : Pollfd)
    (s : Sched W)
    → is_fd f.fd ≡ true
    → is_eperm (epoll.add f.fd (item 0) (poll_event2epoll f.events) s.world).0 ≡ false
    → (register_all epoll alone p item 0 (f ∷ []) s).1.owner (item 0) ≡ some (p, 0)
unfolding register_all
register_one epoll alone p item f s valid added = ground (arith, valid, added, ==_refl (item 0))

-- A list of one entry is known by it.
only_entry : (gs : List Pollfd) (g : Pollfd) → length gs ≡ 1 → get_elem? gs 0 ≡ some g → gs ≡ g ∷ []
only_entry [] g n h = cc
only_entry (x ∷ []) g n h = ground (arith, h)
only_entry (x ∷ y ∷ gs) g n h = absurd (omega (arith, n))

-- One event has been counted since the poll began.
answer :
    {W : Type 0} (epoll : Epoll W) (p mask : ℕ) (f : Pollfd) (z u : Sched W) (gs : List Pollfd)
    → z.polls p ≡ raise 0 mask new_poll
    → poll_end epoll p (f ∷ []) z ≡ ok ((z.polls p).raised, gs, u)
    → length gs ≡ 1
    → get_elem? gs 0 ≡ some (record f { revents = (z.polls p).revents 0 })
    → poll_end epoll p (f ∷ []) z ≡ ok (1, record f { revents = epoll_event2poll mask } ∷ [], u)
answer epoll p mask f z u gs raised ends size entry =
    let count : (z.polls p).raised ≡ 1 = ap (λ q. q.raised) raised in
    let events : (z.polls p).revents 0 ≡ epoll_event2poll mask = ap (λ q. q.revents 0) raised in
    let only : gs ≡ record f { revents = epoll_event2poll mask } ∷ [] =
      only_entry gs _ size
        (subst (λ e. get_elem? gs 0 ≡ some (record f { revents = e })) events entry) in
    ends ∙ rw (count, only) refl

module _ {W : Type 0} (epoll : Epoll W)
    (adds : (fd : ℕ) (item : Ptr) (events : ℕ) (w : W)
      → is_eperm (epoll.add fd item events w).0 ≡ false)
    (active timeout most p now ms : ℕ) (item : ℕ → Ptr) (f : Pollfd) (pollfunc : Bool) (s : Sched W)
    (x : IsLoop active timeout most s) (nn : p ≢ null) (gone : s.timers.node p ≡ none)
    (since : s.wheel.start ≤ now) (small : now < 2 ^ 62) (positive : ms < 2 ^ 31)
    (near : now + min ms 40000 < s.wheel.start + s.wheel.size) where
  -- What the first half leaves for the event.
  waiting :
      is_fd f.fd ≡ true
      → (y : Sched W) × (n : Node) × (poll_begin epoll p item (f ∷ []) ms pollfunc now s
          ≡ ok (yields, y))
        × IsLoop active timeout (most + 1) y
        × (y.wheel ≡ s.wheel)
        × (y.owner (item 0) ≡ some (p, 0))
        × (y.timers.node p ≡ some n)
        × (y.timed_out p ≡ false)
        × (y.polls p ≡ new_poll)
  waiting valid =
      let (y, run, until, wheel, waits, mark, polls, alive, owner) =
        poll_begin-Waits epoll adds active timeout most p now ms item (f ∷ []) pollfunc s x nn gone
          since small positive near in
      let (n, at) = allocated-node y.timers p alive in
      (
        y,
        n,
        run,
        waits.loop,
        wheel,
        ap (λ g. g (item 0)) owner
            ∙ register_one epoll (true && pollfunc) p item f _ valid
                (adds f.fd (item 0) (poll_event2epoll f.events) _),
        at,
        mark,
        polls,
      )

  -- Adding an event to epoll never fails with EPERM. The state of the loop is as between two
  -- rounds, the descriptor is not negative, and the time limit is not negative and lies on the
  -- wheel. Then co_poll_inner yields. In a round of co_eventloop in which epoll has an event for
  -- that descriptor, less than 2 ^ 31 - 1 milliseconds after the last one, and where processing an item
  -- leaves the timers and the lists alone and `fuel` is more than the items that the round can
  -- find, the coroutine is resumed. Then the second half of co_poll_inner returns 1, and the entry
  -- with the mask of the event as poll has it; the descriptor has been taken out of epoll, and the
  -- stPoll_t is freed.
  pub poll_end-poll_begin :
      (process : Ptr → Sched W → Run (Sched W)) (act : Ptr → W → W) (fuel next mask : ℕ)
      → is_fd f.fd ≡ true
      → active ≢ null
      → timeout ≢ null
      → active ≢ timeout
      → ((q : Ptr) (s : Sched W) → process q s ≡ ok (record s { world = act q s.world }))
      → s.wheel.start ≤ next
      → next - s.wheel.start + 1 < 2 ^ 31
      → next < 2 ^ 62
      → s.wheel.idx + (next - s.wheel.start) < 2 ^ 62
      → most + 1 + 1 < fuel
      → (most + 1 + 1) + s.wheel.size * (most + 1 + 1) < fuel
      → (y z u : Sched W) × (xs : List Ptr) × (poll_begin epoll p item (f ∷ []) ms pollfunc now s
          ≡ ok (yields, y))
        × (round fuel active timeout ((item 0, mask) ∷ []) next process y ≡ ok z)
        × (z.world ≡ run_all act xs y.world)
        × (has p xs ≡ true)
        × (poll_end epoll p (f ∷ []) z
            ≡ ok (1, record f { revents = epoll_event2poll mask } ∷ [], u))
        × (u.world ≡ epoll.del f.fd z.world)
        × (u.timers.node p ≡ none)
  poll_end-poll_begin process act fuel next mask valid na nt apart runs since' short small' idx
        enough more =
      let (y, n, begun, loop, wheel, owner, at, mark, polls) = waiting valid in
      let (z, xs, run, world, hit, raised, alive, after) =
        round_raised active timeout (most + 1) na nt apart process act runs fuel next (item 0) p 0
          mask y n loop owner at mark (rw polls refl)
          (subst (λ w. w.start ≤ next) (sym wheel) since')
          (subst (λ w. next - w.start + 1 < 2 ^ 31) (sym wheel) short) small'
          (subst (λ w. w.idx + (next - w.start) < 2 ^ 62) (sym wheel) idx) enough
          (subst (λ w. (most + 1 + 1) + w.size * (most + 1 + 1) < fuel) (sym wheel) more) in
      let (m, at') = allocated-node z.timers p alive in
      let (gs, u, ends, size, entry, removed, freed, rest) =
        poll_end-frees epoll p (f ∷ []) z after.L m 0 f after.view at' refl in
      (
        y,
        z,
        u,
        xs,
        begun,
        run,
        world,
        hit,
        answer epoll p mask f z u gs (raised ∙ ap (raise 0 mask) polls) ends size entry,
        removed ∙ rw valid refl,
        freed,
      )
