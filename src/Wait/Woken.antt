-- ===== src/Wait/Woken.antt =====
-- A coroutine in co_poll_inner (co_routine.cc, lines 794 to 871) is woken by the rounds of
-- co_eventloop (lines 689 to 748).
use jkyi_libco.Base.{
  ℕ, ◌==◌, ◌&&◌, ap, ◌+◌, ◌-◌, ◌*◌, ◌^◌, ◌≤◌, ◌<◌, ◌≡◌, ◌≢◌, refl, sym, true, false, none, List, [],
  ◌∷◌, map, ◌++◌, inl, inr, Bool-cases, arith, Ptr, null, length, length-append, has, has-append,
  subst, Bool, last_or, ◌∙◌, eq-cases, ==_refl,
}
use Prim.Native.Nat.{min}
use jkyi_libco.Base.Run.{Run, ok}
use jkyi_libco.Link.{Store, write, calloc, detached}
use jkyi_libco.Link.View.{Lists, Represents, mem_allocated, allocated}
use jkyi_libco.Link.Alloc.{calloc-Represents}
use jkyi_libco.Timeout.{Wheel, slot}
use jkyi_libco.Timeout.Slots.{IsWheel, IsSlot, slot-IsSlot}
use jkyi_libco.Timeout.Add.{OnTime, add_timeout-OnTime}
use jkyi_libco.Poll.{Pollfd}
use jkyi_libco.Loop.{Sched, co_eventloop}
use jkyi_libco.Loop.Wakes.{IsLoop, Waits}
use jkyi_libco.Loop.Live.{Steady, co_eventloop_ends}
use jkyi_libco.Wait.{Epoll, yields, is_eperm, poll_begin, new_poll, register_all}
use jkyi_libco.Wait.Begin.{poll_begin_kept, fresh}

-- What is not allocated is in no list.
absent :
    (t : Store) (L : Lists) (p : Ptr)
    → Represents t L
    → t.node p ≡ none
    → (k : Ptr) → has p (L k) ≡ false
absent t L p r gone k = elim (Bool-cases (has p (L k))) [
  | inl m ↦ let (n, e, at) = mem_allocated t L p k r m in absurd (ground (arith, gone, e))
  | inr out ↦ out
]

-- A deadline for `p` on the wheel, where the other deadlines are as they were.
pub OnTime-added :
    (w : Wheel) (t : Store) (L : Lists) (p now : ℕ) (before after : Ptr → ℕ)
    → IsWheel w
    → Represents t L
    → OnTime w L before
    → p ≢ null
    → t.node p ≡ none
    → w.start ≤ now
    → now ≤ after p
    → after p < 2 ^ 63
    → after p < w.start + w.size
    → ((q : Ptr) → q ≢ p → after q ≡ before q)
    → let at = slot w (after p - w.start) in OnTime w (write L at (L at ++ p ∷ [])) after
OnTime-added w t L p now before after v r on_time nn gone since later small near others =
    let kept : OnTime w L after = λ d q lt m. elim (eq-cases q p) [
      | inl e ↦ absurd (ground (arith, absent t L p r gone (slot w d), m, e))
      | inr ne ↦ on_time d q lt m ∙ sym (others q ne)
    ] in
    (add_timeout-OnTime w p after now (calloc p t) v L detached (calloc-Represents t L p r nn gone)
      (ground (arith, ==_refl p)) refl since later (omega (arith, small)) near kept).3

-- The state of the loop with one more timer.
Waits-added :
    {W : Type 0} (active timeout most p now : ℕ) (s z : Sched W) (x : IsLoop active timeout most s)
    → p ≢ null
    → s.timers.node p ≡ none
    → s.wheel.start ≤ now
    → now ≤ z.expire p
    → z.expire p < 2 ^ 63
    → z.expire p < s.wheel.start + s.wheel.size
    → ((q : Ptr) → q ≢ p → z.expire q ≡ s.expire q)
    → z.wheel ≡ s.wheel
    → z.timed_out ≡ write s.timed_out p false
    → (let at = slot s.wheel (z.expire p - s.wheel.start) in
        Represents z.timers (write x.L at (x.L at ++ p ∷ [])))
    → Waits active timeout p (most + 1) z
Waits-added active timeout most p now s z x nn gone since later small near others wheel marks view =
    let at = slot s.wheel (z.expire p - s.wheel.start) in
    let is_slot = slot-IsSlot s.wheel x.wheel (z.expire p - s.wheel.start) in
    let off_a : active ≢ at = λ e. x.out_a (subst (IsSlot s.wheel) (sym e) is_slot) in
    let off_t : timeout ≢ at = λ e. x.out_t (subst (IsSlot s.wheel) (sym e) is_slot) in
    let M : Lists = write x.L at (x.L at ++ p ∷ []) in
    let on_time =
      OnTime-added s.wheel s.timers x.L p now s.expire z.expire x.wheel x.view x.on_time nn gone
        since later small near others in
    let few : (k : Ptr) → IsSlot s.wheel k → length (M k) ≤ most + 1 =
      λ k h. ground (arith, x.few k h, length-append (x.L at) (p ∷ []), x.few at is_slot) in
    let here : has p (M (slot s.wheel (z.expire p - s.wheel.start))) ≡ true =
      ground (arith, ==_refl at, has-append p (x.L at) (p ∷ []), ==_refl p) in
    record {
      loop = record {
        L = M;
        view = view;
        wheel = subst IsWheel (sym wheel) x.wheel;
        out_a = subst (λ w. ¬ (IsSlot w active)) (sym wheel) x.out_a;
        out_t = subst (λ w. ¬ (IsSlot w timeout)) (sym wheel) x.out_t;
        idle = ground (arith, off_t, x.idle);
        on_time = subst (λ w. OnTime w M z.expire) (sym wheel) on_time;
        unmarked = λ q h. rw marks (ground (arith, x.unmarked q, off_a));
        few = subst (λ w. (k : Ptr) → IsSlot w k → length (M k) ≤ most + 1) (sym wheel) few;
        few_active = ground (arith, off_a, x.few_active);
      };
      place = z.expire p - s.wheel.start;
      on_wheel =
          subst (λ w. z.expire p - s.wheel.start < w.size) (sym wheel)
            (omega (arith, near, since, later));
      here = subst (λ w. has p (M (slot w (z.expire p - s.wheel.start))) ≡ true) (sym wheel) here;
    }

module _ {W : Type 0} (epoll : Epoll W)
    (adds : (fd : ℕ) (item : Ptr) (events : ℕ) (w : W)
      → is_eperm (epoll.add fd item events w).0 ≡ false)
    (active timeout most p now ms : ℕ) (item : ℕ → Ptr) (fds : List Pollfd) (pollfunc : Bool)
    (s : Sched W) (x : IsLoop active timeout most s) (nn : p ≢ null) (gone : s.timers.node p ≡ none)
    (since : s.wheel.start ≤ now) (small : now < 2 ^ 62) (positive : ms < 2 ^ 31)
    (near : now + min ms 40000 < s.wheel.start + s.wheel.size) where
  pub poll_begin-Waits :
      (z : Sched W) × (poll_begin epoll p item fds ms pollfunc now s ≡ ok (yields, z))
      × (z.expire p ≡ now + min ms 40000)
      × (z.wheel ≡ s.wheel)
      × Waits active timeout p (most + 1) z
      × (z.timed_out p ≡ false)
      × (z.polls p ≡ new_poll)
      × (allocated z.timers p ≡ true)
      × (z.owner
          ≡ (register_all epoll
              (length fds == 1 && pollfunc)
              p
              item
              0
              fds
              (fresh epoll adds p item fds pollfunc now s x.wheel since small)).1.owner)
  poll_begin-Waits =
      let (z, run, until, view, wheel, marks, others, polls, alive, owner, world) =
        poll_begin_kept epoll adds p item fds pollfunc now s x.wheel since small ms x.L x.view nn
          gone positive in
      let same : min (now + min ms 40000 - s.wheel.start) (s.wheel.size - 1)
          ≡ z.expire p - s.wheel.start =
        omega (arith, until, near) in
      (
        z,
        run,
        until,
        wheel,
        Waits-added active timeout most p now s z x nn gone since (omega (arith, until))
            (omega (arith, until, small)) (omega (arith, until, near)) others wheel marks
            (subst
              (λ d.
                let at = slot s.wheel d in Represents z.timers (write x.L at (x.L at ++ p ∷ [])))
              same view),
        ap (λ f. f p) marks ∙ ground (arith, ==_refl p),
        ap (λ f. f p) polls ∙ ground (arith, ==_refl p),
        alive,
        owner,
      )

  -- Adding an event to epoll never fails with EPERM. The state of the loop is as between two
  -- rounds, and the time limit is not negative and lies on the wheel. Then co_poll_inner yields.
  -- The rounds of co_eventloop that follow have no events, processing an item leaves the timers and
  -- the lists alone, and the caller's function stops the loop as soon as `done` holds of the world,
  -- which resuming the coroutine of this poll brings about and no other item undoes. The times of
  -- the rounds do not go back and advance by less than 2 ^ 31 - 1 milliseconds, and the last of them is
  -- not before the deadline, now and the limit or 40 seconds; `fuel` is more than the items that a
  -- round can find. Then co_eventloop ends without a fault, and `done` holds: the coroutine has
  -- been resumed.
  pub co_eventloop-poll_begin :
      (process : Ptr → Sched W → Run (Sched W)) (act : Ptr → W → W) (pfn : W → Bool × W)
      (done : W → Bool) (fuel next : ℕ) (times : List ℕ)
      → active ≢ null
      → timeout ≢ null
      → active ≢ timeout
      → ((q : Ptr) (s : Sched W) → process q s ≡ ok (record s { world = act q s.world }))
      → ((w : W) → pfn w ≡ (done w, w))
      → ((w : W) → done (act p w) ≡ true)
      → ((q : Ptr) (w : W) → done w ≡ true → done (act q w) ≡ true)
      → Steady s.wheel.start (next ∷ times)
      → now + min ms 40000 ≤ last_or times next
      → last_or times next < 2 ^ 62
      → s.wheel.idx + (last_or times next - s.wheel.start) < 2 ^ 62
      → most + 1 < fuel
      → (most + 1) + s.wheel.size * (most + 1) < fuel
      → (y z : Sched W) × (poll_begin epoll p item fds ms pollfunc now s ≡ ok (yields, y))
        × (co_eventloop fuel active timeout (map (λ t. ([], t)) (next ∷ times)) process pfn y
            ≡ ok z)
        × (done z.world ≡ true)
  co_eventloop-poll_begin process act pfn done fuel next times na nt apart runs asks wakes keeps
        steady over small_t idx enough more =
      let (y, run, until, wheel, waits, mark, polls, alive, owner) = poll_begin-Waits in
      let (z, ends, stop) =
        co_eventloop_ends active timeout p (most + 1) na nt apart process act runs pfn done asks
          wakes keeps fuel next times y waits
          (subst (λ w. Steady w.start (next ∷ times)) (sym wheel) steady) (rw until over) small_t
          (subst (λ w. w.idx + (last_or times next - w.start) < 2 ^ 62) (sym wheel) idx) enough
          (subst (λ w. (most + 1) + w.size * (most + 1) < fuel) (sym wheel) more) in
      (y, z, run, ends, stop)
