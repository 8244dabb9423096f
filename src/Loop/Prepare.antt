-- ===== src/Loop/Prepare.antt =====
-- OnPollPreparePfn: an event is recorded, and its stPoll_t becomes active once, however many of
-- its events come.
use jkyi_libco.Base.{
  ℕ, ◌+◌, ◌%◌, ◌≡◌, ◌≢◌, refl, true, some, inl, inr, Bool-cases, arith, Ptr, null, if◌then◌else◌,
}
use jkyi_libco.Base.Run.{ok}
use jkyi_libco.Link.{Node, write}
use jkyi_libco.Link.View.{Lists, Represents, allocated}
use jkyi_libco.Link.Move.{moved, moved-Updates}
use jkyi_libco.Timeout.{u32}
use jkyi_libco.Poll.{epoll_event2poll}
use jkyi_libco.Loop.{Sched, raise, on_poll_prepare}

-- The handler, with what it leaves alone.
pub on_poll_prepare_kept :
    {W : Type 0} (active p : Ptr) (i events : ℕ) (s : Sched W) (L : Lists) (n : Node)
    → Represents s.timers L
    → s.timers.node p ≡ some n
    → active ≢ null
    → (z : Sched W) × (on_poll_prepare active p i events s ≡ ok z)
      × Represents z.timers (if (s.polls p).detached then L else moved active p L)
      × ((z.polls p).raised ≡ ((s.polls p).raised + 1) % u32)
      × ((z.polls p).revents i ≡ epoll_event2poll events)
      × ((z.polls p).detached ≡ true)
      × (z.world ≡ s.world)
      × ((q : Ptr) → allocated z.timers q ≡ allocated s.timers q)
      × (z.wheel ≡ s.wheel)
      × (z.expire ≡ s.expire)
      × (z.timed_out ≡ s.timed_out)
      × (z.polls ≡ write s.polls p (raise i events (s.polls p)))
      × (z.owner ≡ s.owner)
unfolding on_poll_prepare
on_poll_prepare_kept active p i events s L n r e nn = elim (Bool-cases (s.polls p).detached) [
  | inl again ↦ rw again (
    record s { polls = write s.polls p (raise i events (s.polls p)) },
    refl,
    r,
    ground arith,
    ground arith,
    ground arith,
    refl,
    λ q. refl,
    refl,
    refl,
    refl,
    refl,
    refl,
  )
  | inr first ↦
      let (t, run, r', same) = moved-Updates s.timers L active p n r e nn in
      rw first (
        record s { timers = t; polls = write s.polls p (raise i events (s.polls p)) },
        ground (arith, run),
        r',
        ground arith,
        ground arith,
        ground arith,
        refl,
        same,
        refl,
        refl,
        refl,
        refl,
        refl,
      )
]

-- In a store of well-formed lists, where the stPoll_t at `p` is allocated, OnPollPreparePfn does not
-- fault. It counts the event and stores its mask at entry `i`. If it is the first event, the
-- stPoll_t leaves the list that it is in, the wheel, and goes to the end of the active list, and it
-- is marked; if it is marked already, no list changes.
on_poll_prepare-activates :
    {W : Type 0} (active p : Ptr) (i events : ℕ) (s : Sched W) (L : Lists) (n : Node)
    → Represents s.timers L
    → s.timers.node p ≡ some n
    → active ≢ null
    → (z : Sched W) × (on_poll_prepare active p i events s ≡ ok z)
      × Represents z.timers (if (s.polls p).detached then L else moved active p L)
      × ((z.polls p).raised ≡ ((s.polls p).raised + 1) % u32)
      × ((z.polls p).revents i ≡ epoll_event2poll events)
      × ((z.polls p).detached ≡ true)
      × (z.world ≡ s.world)
      × ((q : Ptr) → allocated z.timers q ≡ allocated s.timers q)
on_poll_prepare-activates active p i events s L n r e nn =
    let (z, run, view, raised, revents, detached, world, same, wheel, expire, marks, polls, owner) =
      on_poll_prepare_kept active p i events s L n r e nn in
    (z, run, view, raised, revents, detached, world, same)
