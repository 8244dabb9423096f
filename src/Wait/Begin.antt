-- ===== src/Wait/Begin.antt =====
-- The first half of co_poll_inner: when it waits, until when, and when it does not.
use jkyi_libco.Base.{
  ℕ, ◌+◌, ◌-◌, ◌^◌, ◌≤◌, ◌<◌, ◌≡◌, ◌≢◌, refl, true, false, Bool, Bool-cases, ◌&&◌, none, some, List,
  [], ◌∷◌, ◌++◌, inl, inr, arith, Ptr, null, length, ◌==◌, ==_refl, subst,
}
use Prim.Native.Nat.{min}
use jkyi_libco.Base.Run.{ok}
use jkyi_libco.Link.{write, calloc, free, detached}
use jkyi_libco.Link.View.{Lists, Represents, allocated}
use jkyi_libco.Link.Alloc.{calloc-Represents}
use jkyi_libco.Timeout.{slot}
use jkyi_libco.Timeout.Slots.{IsWheel}
use jkyi_libco.Timeout.Add.{add_timeout-refused, add_timeout-Updates}
use jkyi_libco.Fd.{is_fd}
use jkyi_libco.Poll.{Pollfd, poll_event2epoll}
use jkyi_libco.Loop.{Sched}
use jkyi_libco.Wait.{
  Epoll, returns, yields, not_added, cut, deadline, is_eperm, register_all, poll_begin, new_poll,
}

module _ {W : Type 0} (epoll : Epoll W)
    (adds : (fd : ℕ) (item : Ptr) (events : ℕ) (w : W)
      → is_eperm (epoll.add fd item events w).0 ≡ false) where
  -- Registering leaves the timers alone.
  register-keeps :
      (alone : Bool) (p : Ptr) (item : ℕ → Ptr) (i : ℕ) (fs : List Pollfd) (s : Sched W)
      → ((register_all epoll alone p item i fs s).0 ≡ false)
        × ((register_all epoll alone p item i fs s).1.timers ≡ s.timers)
        × ((register_all epoll alone p item i fs s).1.wheel ≡ s.wheel)
        × ((register_all epoll alone p item i fs s).1.expire ≡ s.expire)
        × ((register_all epoll alone p item i fs s).1.timed_out ≡ s.timed_out)
        × ((register_all epoll alone p item i fs s).1.polls ≡ s.polls)
  unfolding register_all
  register-keeps alone p item i [] s = (refl, refl, refl, refl, refl, refl)
  register-keeps alone p item i (f ∷ fs) s =
      let s₁ : Sched W = record s { owner = write s.owner (item i) (some (p, i)) } in
      let w = (epoll.add f.fd (item i) (poll_event2epoll f.events) s.world).1 in
      let added = register-keeps alone p item (i + 1) fs (record s₁ { world = w }) in
      let skipped = register-keeps alone p item (i + 1) fs s₁ in
      elim (Bool-cases (is_fd f.fd)) [
        | inl valid ↦
            ground (arith, valid, added, adds f.fd (item i) (poll_event2epoll f.events) s.world)
        | inr negative ↦ ground (arith, negative, skipped)
      ]

  module _ (p : Ptr) (item : ℕ → Ptr) (fds : List Pollfd) (pollfunc : Bool) (now : ℕ) (s : Sched W)
      (v : IsWheel s.wheel) (since : s.wheel.start ≤ now) (small : now < 2 ^ 62) where
    abbrev pub fresh : Sched W
    fresh = record s {
      timers = calloc p s.timers;
      timed_out = write s.timed_out p false;
      owner = write s.owner p none;
      polls = write s.polls p new_poll;
    }

    abbrev registered : Sched W
    registered = (register_all epoll (length fds == 1 && pollfunc) p item 0 fds fresh).1

    -- The wait, with what it leaves alone.
    pub poll_begin_kept :
        (timeout : ℕ) (L : Lists)
        → Represents s.timers L
        → p ≢ null
        → s.timers.node p ≡ none
        → timeout < 2 ^ 31
        → (z : Sched W) × (poll_begin epoll p item fds timeout pollfunc now s ≡ ok (yields, z))
          × (z.expire p ≡ now + min timeout 40000)
          × Represents z.timers (
              let at =
                slot s.wheel (min (now + min timeout 40000 - s.wheel.start) (s.wheel.size - 1)) in
              write L at (L at ++ p ∷ []))
          × (z.wheel ≡ s.wheel)
          × (z.timed_out ≡ write s.timed_out p false)
          × ((q : Ptr) → q ≢ p → z.expire q ≡ s.expire q)
          × (z.polls ≡ write s.polls p new_poll)
          × (allocated z.timers p ≡ true)
          × (z.owner
              ≡ (register_all epoll (length fds == 1 && pollfunc) p item 0 fds fresh).1.owner)
          × (z.world
              ≡ (register_all epoll (length fds == 1 && pollfunc) p item 0 fds fresh).1.world)
    unfolding poll_begin cut deadline
    poll_begin_kept timeout L r nn absent positive =
        let (going, timers, wheel, expire, marks, polls_kept) =
          register-keeps (length fds == 1 && pollfunc) p item 0 fds fresh in
        let until = deadline now (cut timeout) in
        let at : until ≡ now + min timeout 40000 = ground arith in
        let expire₁ = write s.expire p until in
        let placed : expire₁ p ≡ now + min timeout 40000 = ground (arith, at, ==_refl p) in
        let (t, run, r', same) =
          add_timeout-Updates s.wheel p expire₁ now (calloc p s.timers) v L detached
            (calloc-Represents s.timers L p r nn absent) (ground (arith, ==_refl p)) refl since
            (ground (arith, at, ==_refl p)) (ground (arith, at, ==_refl p)) in
        (
          record registered {
            expire = write registered.expire p until;
            timers = t;
            wheel = s.wheel;
          },
          ground (arith, going, timers, wheel, expire, run),
          ground (arith, at, ==_refl p),
          subst
              (λ (e : ℕ). Represents t (
                let at = slot s.wheel (min (e - s.wheel.start) (s.wheel.size - 1)) in
                write L at (L at ++ p ∷ [])))
              placed r',
          refl,
          marks,
          λ q ne. ground (arith, expire),
          polls_kept,
          ground (arith, same p, ==_refl p),
          refl,
          refl,
        )

    -- Adding an event to epoll never fails with EPERM, and the time is on the wheel. Then with a
    -- time limit that is not negative co_poll_inner yields: its timer stands at the end of the slot
    -- of the deadline, now and the limit, or 40 seconds where the limit is longer, or in the last
    -- slot of the wheel.
    poll_begin-yields :
        (timeout : ℕ) (L : Lists)
        → Represents s.timers L
        → p ≢ null
        → s.timers.node p ≡ none
        → timeout < 2 ^ 31
        → (z : Sched W) × (poll_begin epoll p item fds timeout pollfunc now s ≡ ok (yields, z))
          × (z.expire p ≡ now + min timeout 40000)
          × Represents z.timers (
              let at =
                slot s.wheel (min (now + min timeout 40000 - s.wheel.start) (s.wheel.size - 1)) in
              write L at (L at ++ p ∷ []))
    poll_begin-yields timeout L r nn absent positive =
        let (z, run, until, view, wheel, marks, others, polls, alive, owner, world) =
          poll_begin_kept timeout L r nn absent positive in
        (z, run, until, view)

    -- Adding an event to epoll never fails with EPERM, the time is at least 2 ^ 32 milliseconds and
    -- below 2 ^ 62, and not before the start of the wheel, which is in use. Then with a negative
    -- time limit, which asks poll to wait without end, co_poll_inner does not wait: the deadline is
    -- over, AddTimeout refuses it, -870 is returned at once, and the timer is freed.
    pub poll_begin-negative :
        (timeout : ℕ)
        → 2 ^ 31 ≤ timeout
        → timeout < 2 ^ 32
        → 2 ^ 32 ≤ now
        → (z : Sched W) × (poll_begin epoll p item fds timeout pollfunc now s
            ≡ ok (returns not_added, z))
          × (z.timers.node p ≡ none)
    unfolding poll_begin cut deadline
    poll_begin-negative timeout negative word late =
        let (going, timers, wheel, expire, marks, polls_kept) =
          register-keeps (length fds == 1 && pollfunc) p item 0 fds fresh in
        let until = deadline now (cut timeout) in
        let over : until < now = ground arith in
        let refused =
          add_timeout-refused s.wheel p (write s.expire p until) now (calloc p s.timers) v
            (inr (ground (arith, over, ==_refl p))) in
        (
          record registered {
            expire = write registered.expire p until;
            timers = free p (calloc p s.timers);
            wheel = s.wheel;
          },
          ground (arith, going, timers, wheel, expire, refused, since),
          ground (arith, ==_refl p),
        )
