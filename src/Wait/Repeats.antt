-- ===== src/Wait/Repeats.antt =====
-- Coroutines that call poll again and again (co_poll_inner of co_routine.cc, lines 794 to 896), in
-- rounds of co_eventloop (lines 689 to 748).
use jkyi_libco.Base.{
  ℕ, ◌+◌, ◌-◌, ◌^◌, ◌≤◌, ◌<◌, ◌≡◌, ◌≢◌, refl, sym, ap, ◌∙◌, subst, true, false, Bool, ◌&&◌, List,
  [], ◌∷◌, ◌++◌, inl, inr, eq-cases, Bool-cases, arith, Ptr, null, length, has, has-append, ==_refl,
  none, some, if◌then◌else◌, ◌==◌, erase_absent,
}
use Prim.Native.Nat.{min}
use mathlib.Core.Path.{fun_ext}
use jkyi_libco.Base.Run.{Run, ok, ◌>>=◌}
use jkyi_libco.Link.{write}
use jkyi_libco.Link.View.{Lists, Represents, allocated}
use jkyi_libco.Link.Remove.{without}
use jkyi_libco.Timeout.{slot}
use jkyi_libco.Timeout.Slots.{IsWheel, IsSlot, slot-IsSlot}
use jkyi_libco.Timeout.Add.{OnTime}
use jkyi_libco.Cond.Signal.{allocated-node}
use jkyi_libco.Fd.{is_fd}
use jkyi_libco.Poll.{Pollfd, poll_event2epoll}
use jkyi_libco.Loop.{Sched, PollState}
use jkyi_libco.Loop.Serving.{IsServing, Resumes, seen}
use jkyi_libco.Loop.Serving.Again.{OnWheel, Rejoins, mem_agree}
use jkyi_libco.Wait.{Epoll, is_eperm, poll_begin, poll_end, register_all, new_poll}
use jkyi_libco.Wait.Begin.{poll_begin_kept}
use jkyi_libco.Wait.Woken.{OnTime-added}
use jkyi_libco.Wait.End.{answers, deleted, poll_end_kept}

module _ {W : Type 0} (epoll : Epoll W) (fds : Ptr → List Pollfd) (item : Ptr → ℕ → Ptr)
    (limit : Ptr → ℕ) (pollfunc : Bool) (clock : Sched W → ℕ)
    (work : Ptr → (ret : ℕ) → List Pollfd → W → W) where
  -- What is run when the coroutine of `p` is resumed: its poll ends, it does its work with the
  -- results, and calls poll again, for which malloc gives the stPoll_t that has just been freed.
  unfoldable pub repeat : Ptr → Sched W → Run (Sched W)
  unfolding poll_end poll_begin
  repeat p s = do
    (ret, results, s) ← poll_end epoll p (fds p) s
    let s : Sched W = record s { world = work p ret results s.world }
    (begun, s) ← poll_begin epoll p (item p) (fds p) (limit p) pollfunc (clock s) s
    ok s

-- Waiting again: a new timer on the wheel, in the slot of its deadline.
IsServing-waiting :
    {W : Type 0} (active timeout now : ℕ) (pool : List Ptr) (s z : Sched W) (L : Lists) (p : Ptr)
    → IsServing active timeout pool s L
    → p ≢ null
    → has p pool ≡ true
    → s.timers.node p ≡ none
    → ((k : Ptr) → has p (L k) ≡ false)
    → s.wheel.start ≤ now
    → now ≤ z.expire p
    → z.expire p < 2 ^ 63
    → z.expire p < s.wheel.start + s.wheel.size
    → ((q : Ptr) → q ≢ p → z.expire q ≡ s.expire q)
    → z.wheel ≡ s.wheel
    → z.timed_out ≡ write s.timed_out p false
    → z.polls ≡ write s.polls p new_poll
    → (let at = slot s.wheel (z.expire p - s.wheel.start) in
        Represents z.timers (write L at (L at ++ p ∷ [])))
    → let at = slot s.wheel (z.expire p - s.wheel.start) in
      IsServing active timeout pool z (write L at (L at ++ p ∷ []))
IsServing-waiting active timeout now pool s z L p v nn pooled gone out since later small near others
      wheel marks polls view =
    let at = slot s.wheel (z.expire p - s.wheel.start) in
    let is_slot = slot-IsSlot s.wheel v.wheel (z.expire p - s.wheel.start) in
    let off_a : active ≢ at = λ e. v.out_a (subst (IsSlot s.wheel) (sym e) is_slot) in
    let off_t : timeout ≢ at = λ e. v.out_t (subst (IsSlot s.wheel) (sym e) is_slot) in
    let M : Lists = write L at (L at ++ p ∷ []) in
    let on_time : OnTime s.wheel M z.expire =
      OnTime-added s.wheel s.timers L p now s.expire z.expire v.wheel v.view v.on_time nn gone since
        later small near others in
    let from : (k q : Ptr) → q ≢ p → has q (M k) ≡ true → has q (L k) ≡ true =
      λ k q ne m. ground (arith, m, ne, has-append q (L at) (p ∷ [])) in
    record {
      view = view;
      wheel = subst IsWheel (sym wheel) v.wheel;
      out_a = subst (λ w. ¬ (IsSlot w active)) (sym wheel) v.out_a;
      out_t = subst (λ w. ¬ (IsSlot w timeout)) (sym wheel) v.out_t;
      idle = ground (arith, off_t, v.idle);
      on_time = subst (λ w. OnTime w M z.expire) (sym wheel) on_time;
      unmarked = rw marks (λ k q ne m. elim (eq-cases q p) [
        | inl e ↦ ground (arith, e, ==_refl p)
        | inr other ↦ ground (arith, other, v.unmarked k q ne (from k q other m))
      ]);
      attached = rw polls (λ k q ne m. elim (eq-cases q p) [
        | inl e ↦ ground (arith, e, ==_refl p)
        | inr other ↦ ground (arith, other, v.attached k q ne (from k q other m))
      ]);
      ready = λ q m.
          let h : has q (L active) ≡ true = ground (arith, m, off_a) in
          let ne : q ≢ p = λ e. cc (ap (λ (y : Ptr). has y (L active)) e, h, out active) in
          rw (wheel, marks, others q ne) (ground (arith, ne, v.ready q h));
      room = rw wheel v.room;
      pooled = λ k q m. elim (eq-cases q p) [
        | inl e ↦ rw e pooled
        | inr other ↦ v.pooled k q (from k q other m)
      ];
    }

-- What a coroutine learns when it is resumed: what poll returns, and the results.
abbrev pub outcome : (Ptr → List Pollfd) → Ptr → PollState → ℕ × List Pollfd
outcome fds p q = (q.raised, answers 0 q.revents (fds p))

module _ {W : Type 0} (epoll : Epoll W) (fds : Ptr → List Pollfd) (item : Ptr → ℕ → Ptr)
    (limit : Ptr → ℕ) (pollfunc : Bool) (clock : Sched W → ℕ)
    (work : Ptr → (ret : ℕ) → List Pollfd → W → W) (resumed : W → List (Ptr × (ℕ × List Pollfd)))
    (adds : (fd : ℕ) (item : Ptr) (events : ℕ) (w : W)
      → is_eperm (epoll.add fd item events w).0 ≡ false)
    (add_log : (fd : ℕ) (item : Ptr) (events : ℕ) (w : W)
      → resumed (epoll.add fd item events w).1 ≡ resumed w)
    (del_log : (fd : ℕ) (w : W) → resumed (epoll.del fd w) ≡ resumed w)
    (work_log : (p : Ptr) (ret : ℕ) (results : List Pollfd) (w : W)
      → resumed (work p ret results w) ≡ resumed w ++ (p, (ret, results)) ∷ [])
    (positive : (p : Ptr) → limit p < 2 ^ 31)
    (in_time : (s : Sched W)
      → IsWheel s.wheel
      → (s.wheel.start ≤ clock s) × (clock s < s.wheel.start + 20000) × (clock s < 2 ^ 62)) where
  deleted_log : (fs : List Pollfd) (w : W) → resumed (deleted epoll fs w) ≡ resumed w
  deleted_log [] w = refl
  deleted_log (f ∷ fs) w =
      deleted_log fs (if is_fd f.fd then epoll.del f.fd w else w) ∙ ground (arith, del_log f.fd w)

  registered_log :
      (alone : Bool) (p : Ptr) (at : ℕ → Ptr) (i : ℕ) (fs : List Pollfd) (s : Sched W)
      → resumed (register_all epoll alone p at i fs s).1.world ≡ resumed s.world
  unfolding register_all
  registered_log alone p at i [] s = refl
  registered_log alone p at i (f ∷ fs) s =
      let s₁ : Sched W = record s { owner = write s.owner (at i) (some (p, i)) } in
      let (ret, w) = epoll.add f.fd (at i) (poll_event2epoll f.events) s.world in
      let added = registered_log alone p at (i + 1) fs (record s₁ { world = w }) in
      let skipped = registered_log alone p at (i + 1) fs s₁ in
      elim (Bool-cases (is_fd f.fd)) [
        | inl valid ↦ ground (
          arith,
          valid,
          added,
          adds f.fd (at i) (poll_event2epoll f.events) s.world,
          add_log f.fd (at i) (poll_event2epoll f.events) s.world,
        )
        | inr negative ↦ ground (arith, negative, skipped)
      ]

  -- The run of a coroutine that polls again, and where its item stands afterwards.
  repeat_runs :
      (active timeout : ℕ) (pool : List Ptr) (p : Ptr) (s : Sched W) (L : Lists)
      → IsServing active timeout pool s L
      → allocated s.timers p ≡ true
      → has p pool ≡ true
      → ((k : Ptr) → has p (L k) ≡ false)
      → (z : Sched W) × (M : Lists) × (repeat epoll fds item limit pollfunc clock work p s ≡ ok z)
        × IsServing active timeout pool z M
        × (M active ≡ L active)
        × (z.wheel ≡ s.wheel)
        × (resumed z.world ≡ resumed s.world ++ seen (outcome fds) s.polls p ∷ [])
        × ((q k : Ptr)
            → q ≢ p
            → has q (L k) ≡ true
            → (has q (M k) ≡ true) × (z.expire q ≡ s.expire q) × (z.polls q ≡ s.polls q))
        × OnWheel z.wheel M p
  unfolding repeat
  repeat_runs active timeout pool p s L v alive pooled out =
      let (n, at) = allocated-node s.timers p alive in
      let nn : p ≢ null = ground (arith, v.view.null_free, at) in
      let (t, ended, view, freed) = poll_end_kept epoll p (fds p) s L n v.view at in
      let same : without p L ≡ L = fun_ext λ k. erase_absent p (L k) (out k) in
      let view₁ : Represents t L = subst (Represents t) same view in
      let w = deleted epoll (fds p) s.world in
      let (ret, results) = outcome fds p (s.polls p) in
      let u : Sched W = record s { timers = t; world = work p ret results w } in
      let v₁ : IsServing active timeout pool u L = record {
        view = view₁;
        wheel = v.wheel;
        out_a = v.out_a;
        out_t = v.out_t;
        idle = v.idle;
        on_time = v.on_time;
        unmarked = v.unmarked;
        attached = v.attached;
        ready = v.ready;
        room = v.room;
        pooled = v.pooled;
      } in
      let now = clock u in
      let (since, soon, small) = in_time u v.wheel in
      let (z, begun, until, placed, wheel, marks, others, polls, alive', owner, world) =
        poll_begin_kept epoll adds p (item p) (fds p) pollfunc now u v.wheel since small (limit p) L
          view₁ nn freed (positive p) in
      let near : z.expire p < s.wheel.start + s.wheel.size = omega (arith, until, soon, v.room) in
      let place : min (now + min (limit p) 40000 - s.wheel.start) (s.wheel.size - 1)
          ≡ z.expire p - s.wheel.start =
        omega (arith, until, near) in
      let slot_at = slot s.wheel (z.expire p - s.wheel.start) in
      let off : slot_at ≢ active = λ e.
        v.out_a
          (subst (IsSlot s.wheel) e (slot-IsSlot s.wheel v.wheel (z.expire p - s.wheel.start))) in
      (
        z,
        write L slot_at (L slot_at ++ p ∷ []),
        rw (ended, begun) refl,
        IsServing-waiting active timeout now pool u z L p v₁ nn pooled freed out since
            (omega (arith, until)) (omega (arith, until, small)) near others wheel marks polls
            (subst (λ d. Represents z.timers (let j = slot s.wheel d in write L j (L j ++ p ∷ [])))
              place placed),
        ground (arith, off),
        wheel,
        ap resumed world
            ∙ registered_log (length (fds p) == 1 && pollfunc) p (item p) 0 (fds p) _
            ∙ work_log p ret results w
            ∙ ap (λ ys. ys ++ (p, (ret, results)) ∷ []) (deleted_log (fds p) s.world),
        λ q k ne m. (
          ground (arith, m, has-append q (L slot_at) (p ∷ [])),
          others q ne,
          ap (λ f. f q) polls ∙ ground (arith, ne),
        ),
        (
          slot_at,
          rw wheel (slot-IsSlot s.wheel v.wheel (z.expire p - s.wheel.start)),
          ground (arith, ==_refl slot_at, has-append p (L slot_at) (p ∷ []), ==_refl p),
        ),
      )

  -- Adding an event to epoll never fails with EPERM, no time limit is negative, and the next poll
  -- begins less than 20 seconds after the time of the wheel; only the work is recorded in `resumed`.
  -- Then the second half of a poll, the work, and the first half of the next poll are what a resumed
  -- coroutine may do, and what it has learnt is what poll has returned to it; and `p` waits again: it
  -- stands on the wheel.
  pub repeat-Resumes :
      (active timeout : ℕ) (pool : List Ptr)
      → Resumes active timeout pool
          (repeat epoll fds item limit pollfunc clock work)
          (outcome fds)
          resumed
        × Rejoins active timeout pool (repeat epoll fds item limit pollfunc clock work)
  repeat-Resumes active timeout pool = (
    λ p s L v alive pooled out.
        let (z, M, run, v', same_a, wheel, log, others, on) =
          repeat_runs active timeout pool p s L v alive pooled out in
        (z, M, run, v', same_a, wheel, log, others),
    λ p s z L M v alive pooled out run view.
        let (z', N, run', v', same_a, wheel, log, others, (k, at, m)) =
          repeat_runs active timeout pool p s L v alive pooled out in
        let both : ok z' ≡ ok z = sym run' ∙ run in
        let same : z' ≡ z = ground (arith, both) in
        (
          k,
          subst (λ (u : Sched W). IsSlot u.wheel k) same at,
          mem_agree z.timers N M p k (subst (λ (u : Sched W). Represents u.timers N) same v'.view)
              view m,
        ),
  )
