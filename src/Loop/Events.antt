-- ===== src/Loop/Events.antt =====
-- A round of co_eventloop (co_routine.cc, lines 689 to 748) in which epoll has an event for a
-- coroutine that waits in co_poll_inner.
use jkyi_libco.Base.{
  ℕ, ◌+◌, ◌≤◌, ◌≡◌, ◌≢◌, refl, sym, ap, true, false, some, List, [], ◌∷◌, inl, inr, eq-cases, arith,
  Ptr, null, length, length-append, length-erase, has, has-append, erase, has-erase, if◌then◌else◌,
  subst, ◌∙◌, ==_refl,
}
use mathlib.Core.Path.{fun_ext}
use jkyi_libco.Base.Run.{Run, ok}
use jkyi_libco.Link.{Store, Node, Ends, set_head, set_tail}
use jkyi_libco.Link.View.{Lists, Represents, allocated}
use jkyi_libco.Link.Move.{moved}
use jkyi_libco.Timeout.{slot}
use jkyi_libco.Timeout.Slots.{IsWheel, IsSlot, slot-IsSlot}
use jkyi_libco.Timeout.Add.{OnTime}
use jkyi_libco.Loop.{Sched, round, prepare_all, on_poll_prepare, raise}
use jkyi_libco.Loop.Joined.{cleared-Represents}
use jkyi_libco.Loop.Prepare.{on_poll_prepare_kept}
use jkyi_libco.Loop.Wakes.{IsLoop}

abbrev pub cleared : Ptr → Store → Store
cleared timeout t = set_tail timeout null (set_head timeout null t)

-- memset of an empty list.
pub cleared_same :
    (t : Store) (L : Lists) (timeout : Ptr)
    → Represents t L
    → L timeout ≡ []
    → cleared timeout t ≡ t
cleared_same t L timeout r idle =
    let same : (cleared timeout t).ends ≡ t.ends = fun_ext λ k. elim (eq-cases k timeout) [
      | inl e ↦ rw e (ground (arith, r.ends timeout, idle, ==_refl timeout))
      | inr ne ↦ ground arith
    ] in
    ap (λ (f : Ptr → Ends). record t { ends = f }) same

-- A round with events is a round without events on what their handlers leave.
pub round_events :
    {W : Type 0} (fuel active timeout now : ℕ) (es : List (Ptr × ℕ))
    (process : Ptr → Sched W → Run (Sched W)) (s u : Sched W) (M : Lists)
    → prepare_all active es (record s { timers = cleared timeout s.timers }) ≡ ok u
    → Represents u.timers M
    → M timeout ≡ []
    → round fuel active timeout es now process s ≡ round fuel active timeout [] now process u
unfolding round prepare_all
round_events fuel active timeout now es process s u M prepared view idle =
    rw (prepared, cleared_same u.timers M timeout view idle) refl

pub round_event :
    {W : Type 0} (fuel active timeout now item p i mask : ℕ)
    (process : Ptr → Sched W → Run (Sched W)) (s u : Sched W) (M : Lists)
    → s.owner item ≡ some (p, i)
    → on_poll_prepare active p i mask (record s { timers = cleared timeout s.timers }) ≡ ok u
    → Represents u.timers M
    → M timeout ≡ []
    → round fuel active timeout ((item, mask) ∷ []) now process s
      ≡ round fuel active timeout [] now process u
unfolding prepare_all
round_event fuel active timeout now item p i mask process s u M owner prepared view idle =
    round_events fuel active timeout now ((item, mask) ∷ []) process s u M
      (rw (owner, prepared) refl) view idle

pub IsLoop-moved :
    {W : Type 0} (active timeout most p : ℕ) (s u : Sched W) (x : IsLoop active timeout most s)
    → active ≢ timeout
    → s.timed_out p ≡ false
    → Represents u.timers (moved active p x.L)
    → u.wheel ≡ s.wheel
    → u.expire ≡ s.expire
    → u.timed_out ≡ s.timed_out
    → (y : IsLoop active timeout (most + 1) u) × (y.L ≡ moved active p x.L)
IsLoop-moved active timeout most p s u x apart fresh view wheel expire marks =
    let M = moved active p x.L in
    let on_time : OnTime s.wheel M s.expire = λ d q lt m.
      let h = slot-IsSlot s.wheel x.wheel d in
      let off : slot s.wheel d ≢ active = λ e. x.out_a (subst (IsSlot s.wheel) e h) in
      x.on_time d q lt (
        ground (
          arith,
          off,
          m,
          has-erase p q (x.L (slot s.wheel d)) (x.view.distinct (slot s.wheel d)),
        )) in
    let unmarked : (q : Ptr) → has q (M active) ≡ true → s.timed_out q ≡ false = λ q m.
      elim (eq-cases q p) [
        | inl e ↦ ap s.timed_out e ∙ fresh
        | inr ne ↦ x.unmarked q (
            ground (
              arith,
              ne,
              m,
              ==_refl active,
              has-append q (erase p (x.L active)) (p ∷ []),
              has-erase p q (x.L active) (x.view.distinct active),
            ))
      ] in
    let few : (k : Ptr) → IsSlot s.wheel k → length (M k) ≤ most + 1 = λ k h.
      let off : k ≢ active = λ e. x.out_a (subst (IsSlot s.wheel) e h) in
      ground (arith, off, x.few k h, length-erase p (x.L k)) in
    (
      record {
        L = M;
        view = view;
        wheel = subst IsWheel (sym wheel) x.wheel;
        out_a = subst (λ w. ¬ (IsSlot w active)) (sym wheel) x.out_a;
        out_t = subst (λ w. ¬ (IsSlot w timeout)) (sym wheel) x.out_t;
        idle = ground (arith, apart, x.idle);
        on_time = rw (wheel, expire) on_time;
        unmarked = λ q m. rw marks (unmarked q m);
        few = subst (λ w. (k : Ptr) → IsSlot w k → length (M k) ≤ most + 1) (sym wheel) few;
        few_active = ground (
          arith,
          x.few_active,
          length-erase p (x.L active),
          length-append (erase p (x.L active)) (p ∷ []),
        );
      },
      refl,
    )

-- What the handler of an event leaves.
pub Prepared :
    {W : Type 0} (active timeout most p i mask : ℕ) (s : Sched W) (n : Node)
    (x : IsLoop active timeout most s)
    → active ≢ null
    → active ≢ timeout
    → s.timers.node p ≡ some n
    → s.timed_out p ≡ false
    → (s.polls p).detached ≡ false
    → (u : Sched W) × (y : IsLoop active timeout (most + 1) u) × (on_poll_prepare active p i mask
          (record s { timers = cleared timeout s.timers })
        ≡ ok u)
      × (has p (y.L active) ≡ true)
      × (u.polls p ≡ raise i mask (s.polls p))
      × (allocated u.timers p ≡ true)
      × (u.world ≡ s.world)
      × (u.wheel ≡ s.wheel)
Prepared active timeout most p i mask s n x na apart at fresh first =
    let (
      u, prepared, view, raised, revents, detached, world, same, wheel, expire, marks, polls, owner,
    ) =
      on_poll_prepare_kept active p i mask (record s { timers = cleared timeout s.timers }) x.L n
        (cleared-Represents s.timers x.L timeout x.view x.idle) at na in
    let viewed : Represents u.timers (moved active p x.L) =
      subst (λ b. Represents u.timers (if b then x.L else moved active p x.L)) first view in
    let (y, lists) =
      IsLoop-moved active timeout most p s u x apart fresh viewed wheel expire marks in
    (
      u,
      y,
      prepared,
      rw lists
          (ground (arith, ==_refl active, has-append p (erase p (x.L active)) (p ∷ []), ==_refl p)),
      ap (λ f. f p) polls ∙ ground (arith, ==_refl p),
      ground (arith, same p, at),
      world,
      wheel,
    )
