-- ===== src/Loop/Serving/Ready.antt =====
-- A round of co_eventloop up to its loop over the active list, with any events (co_routine.cc, lines
-- 696 to 721): exactly what that loop starts with.
use jkyi_libco.Base.{
  ℕ, ◌+◌, ◌-◌, ◌^◌, ◌≤◌, ◌<◌, ◌≡◌, ◌≢◌, ◌⊎◌, ◌↔◌, refl, sym, ◌∙◌, subst, true, false, Bool, ◌&&◌,
  ◌||◌, not, List, [], ◌++◌, inl, inr, Bool-cases, arith, Ptr, null, length, has, has-append,
}
use native.Mathlib.Decide.{dec_lt}
use jkyi_libco.Base.Run.{Run, ok}
use jkyi_libco.Link.{Store}
use jkyi_libco.Link.View.{Lists}
use jkyi_libco.Timeout.{Wheel, slot}
use jkyi_libco.Timeout.Slots.{IsWheel, IsSlot, slot-IsSlot}
use jkyi_libco.Timeout.Add.{OnTime}
use jkyi_libco.Timeout.Take.{gather}
use jkyi_libco.Timeout.Expiry.{count_due, turned, gather-mem, not_taken}
use jkyi_libco.Loop.{Sched, round, prepare_all, drain}
use jkyi_libco.Loop.Joined.{round_joined, gather-due}
use jkyi_libco.Loop.Events.{round_events, cleared_same}
use jkyi_libco.Loop.Serving.{IsServing, Fit, length-serving}
use jkyi_libco.Loop.Serving.Batch.{hit, recorded, Known, prepare-serves}
use jkyi_libco.Loop.Serving.Front.{length-due, joined-Fit, IsServing-joined}

-- What is in the slots that are due is what stands on the wheel with a deadline that is over.
due_iff :
    (w : Wheel) (N : Lists) (expire : Ptr → ℕ) (now q : ℕ)
    → IsWheel w
    → w.start ≤ now
    → OnTime w N expire
    → (has q (gather w N 0 (count_due w now)) ≡ true)
      ↔ ((d : ℕ) × (d < w.size) × (has q (N (slot w d)) ≡ true) × (expire q ≤ now))
due_iff w N expire now q v since on_time = (
  λ h.
      let (d, a, b, m) = gather-due w N 0 (count_due w now) q h in
      let lt : d < w.size = omega arith in (d, lt, m, omega (arith, on_time d q lt m)),
  λ (d, lt, m, over).
      gather-mem w N 0 (count_due w now) d q (omega arith) (omega (arith, on_time d q lt m)) m,
)

-- The items of a round, where `N` is what the events leave.
members_iff :
    (active now q : ℕ) (w : Wheel) (L N : Lists) (expire : Ptr → ℕ) (event : Bool) (xs : List Ptr)
    → IsWheel w
    → w.start ≤ now
    → OnTime w N expire
    → ((d : ℕ) → slot w d ≢ active)
    → xs ≡ N active ++ gather w N 0 (count_due w now)
    → has q (N active) ≡ (has q (L active) || event)
    → ((k : Ptr) → k ≢ active → has q (N k) ≡ (has q (L k) && not event))
    → (has q xs ≡ true) ↔ (
        (has q (L active) ≡ true)
        ⊎ ((event ≡ true)
            ⊎ ((d : ℕ) × (d < w.size) × (has q (L (slot w d)) ≡ true) × (expire q ≤ now))))
members_iff active now q w L N expire event xs v since on_time off exact at_a off_a =
    let D = gather w N 0 (count_due w now) in
    let (sound, complete) = due_iff w N expire now q v since on_time in
    let both : has q xs ≡ (has q (N active) || has q D) = rw exact (has-append q (N active) D) in
    (
      λ h. elim (Bool-cases (has q D)) [
        | inl late ↦
            let (d, lt, m, over) = sound late in
            inr (inr (d, lt, ground (arith, off_a (slot w d) (off d), m), over))
        | inr other ↦ elim (Bool-cases (has q (L active))) [
          | inl before ↦ inl before
          | inr new ↦ inr (inl (ground (arith, both, h, other, at_a, new)))
        ]
      ],
      λ h. elim h [
        | inl before ↦ ground (arith, both, at_a, before)
        | inr (inl new) ↦ ground (arith, both, at_a, new)
        | inr (inr (d, lt, m, over)) ↦ elim (Bool-cases event) [
          | inl new ↦ ground (arith, both, at_a, new)
          | inr quiet ↦
              let late =
                complete (d, lt, ground (arith, off_a (slot w d) (off d), m, quiet), over) in
              ground (arith, both, late)
        ]
      ],
    )

module _ {W : Type 0} (active timeout : ℕ) (pool : List Ptr) (na : active ≢ null)
    (nt : timeout ≢ null) (apart : active ≢ timeout) (process : Ptr → Sched W → Run (Sched W)) where
  -- A round without events: what was active, and what is due.
  turn_ready :
      (fuel now : ℕ) (s : Sched W) (L : Lists)
      → IsServing active timeout pool s L
      → s.wheel.start ≤ now
      → now - s.wheel.start + 1 < 2 ^ 31
      → now < 2 ^ 62
      → s.wheel.idx + (now - s.wheel.start) < 2 ^ 62
      → length pool < fuel
      → (t : Store) × (f : Ptr → Bool) × (N : Lists) × (let u : Sched W = record s {
        timers = t;
        wheel = turned s.wheel now;
        timed_out = f;
      } in
          (round fuel active timeout [] now process s ≡ drain fuel active now process u)
          × IsServing active timeout pool u N
          × (N active ≡ L active ++ gather s.wheel L 0 (count_due s.wheel now))
          × ((q d : Ptr)
              → d < s.wheel.size
              → has q (N active) ≡ false
              → has q (L (slot s.wheel d)) ≡ true
              → has q (N (slot s.wheel d)) ≡ true)
          × ((q : Ptr) → Fit pool s q → Fit pool u q))
  turn_ready fuel now s L v since short small idx enough =
      let due = gather s.wheel L 0 (count_due s.wheel now) in
      let (t, f, N, run, view, at_a, at_t, on_time, marked, same, kept) =
        round_joined active timeout now process s L v.view v.wheel fuel na nt apart v.out_a v.out_t
          since short v.idle v.on_time
          (λ d. omega (arith, length-serving active timeout pool s L (slot s.wheel d) v))
          (omega (arith, length-due active timeout pool now s L v nt since short)) in
      (
        t,
        f,
        N,
        (
          run,
          IsServing-joined active timeout pool now s L v nt since t f N small idx view at_a at_t
              on_time marked kept,
          at_a,
          λ q d lt out m.
              let past : count_due s.wheel now ≤ d = elim (dec_lt d (count_due s.wheel now)) [
                | yes early ↦
                    let taken_too : has q due ≡ true =
                      gather-mem s.wheel L 0 (count_due s.wheel now) d q (omega arith)
                        (omega (arith, early)) m in
                    absurd (ground (arith, out, at_a, has-append q (L active) due, taken_too))
                | no late ↦ omega (arith, late)
              ] in
              let h = slot-IsSlot s.wheel v.wheel d in
              let off_a : slot s.wheel d ≢ active = λ e. v.out_a (subst (IsSlot s.wheel) e h) in
              let off_t : slot s.wheel d ≢ timeout = λ e. v.out_t (subst (IsSlot s.wheel) e h) in
              rw
                (
                  kept (slot s.wheel d) off_a off_t,
                  not_taken s.wheel timeout now L v.wheel v.out_t nt since d lt past,
                )
                m,
          joined-Fit active timeout pool now s L v nt since t f marked same,
        ),
      )

  -- A round with events: the loop over the active list starts with what was active, has an event, or
  -- has a deadline that is over, and finds recorded what the events say.
  pub round_ready :
      (fuel now : ℕ) (es : List (Ptr × ℕ)) (s : Sched W) (L : Lists)
      → IsServing active timeout pool s L
      → Known s.owner L es
      → s.wheel.start ≤ now
      → now - s.wheel.start + 1 < 2 ^ 31
      → now < 2 ^ 62
      → s.wheel.idx + (now - s.wheel.start) < 2 ^ 62
      → length pool < fuel
      → (u : Sched W) × (N : Lists) × (round fuel active timeout es now process s
          ≡ drain fuel active now process u)
        × IsServing active timeout pool u N
        × (u.wheel ≡ turned s.wheel now)
        × (u.expire ≡ s.expire)
        × (u.world ≡ s.world)
        × (u.polls ≡ recorded s.owner es s.polls)
        × ((q : Ptr)
            → (has q (N active) ≡ true) ↔ (
                (has q (L active) ≡ true)
                ⊎ ((hit s.owner es q ≡ true)
                    ⊎ ((d : ℕ) × (d < s.wheel.size)
                        × (has q (L (slot s.wheel d)) ≡ true)
                        × (s.expire q ≤ now)))))
        × ((q d : Ptr)
            → d < s.wheel.size
            → has q (N active) ≡ false
            → has q (L (slot s.wheel d)) ≡ true
            → has q (N (slot s.wheel d)) ≡ true)
        × ((q : Ptr) → Fit pool s q → Fit pool u q)
  round_ready fuel now es s L v known since short small idx enough =
      let (u, N, run, v₁, at_a, off_a, wheel, expire, world, owner, polls, marks, same) =
        prepare-serves active timeout pool apart na es s L v known in
      let (t, f, M, (run', v₂, exact, stay, fit)) =
        turn_ready fuel now u N v₁ (rw wheel since) (rw wheel short) small (rw wheel idx) enough in
      let on_time : OnTime s.wheel N s.expire =
        subst (λ w. OnTime w N s.expire) wheel
          (subst (λ (f : Ptr → ℕ). OnTime u.wheel N f) expire v₁.on_time) in
      let off : (d : ℕ) → slot s.wheel d ≢ active =
        λ d e. v.out_a (subst (IsSlot s.wheel) e (slot-IsSlot s.wheel v.wheel d)) in
      (
        record u { timers = t; wheel = turned u.wheel now; timed_out = f },
        M,
        round_events fuel active timeout now es process s u N
              (subst (λ (t : Store). prepare_all active es (record s { timers = t }) ≡ ok u)
                (sym (cleared_same s.timers L timeout v.view v.idle)) run)
              v₁.view v₁.idle
            ∙ run',
        v₂,
        rw wheel refl,
        expire,
        world,
        polls,
        λ q.
            members_iff active now q s.wheel L N s.expire (hit s.owner es q) (M active) v.wheel
              since on_time off (rw (exact, wheel) refl) (at_a q) (λ k. off_a k q),
        λ q d lt out m.
            let quiet : hit s.owner es q ≡ false = ground (
              arith,
              out,
              exact,
              has-append q (N active) (gather u.wheel N 0 (count_due u.wheel now)),
              at_a q,
            ) in
            let here : has q (N (slot u.wheel d)) ≡ true =
              rw wheel (ground (arith, off_a (slot s.wheel d) q (off d), m, quiet)) in
            subst (λ (w : Wheel). has q (M (slot w d)) ≡ true) wheel
              (stay q d (rw wheel lt) out here),
        λ q (alive, pooled, early). fit q (same q ∙ alive, pooled, rw (wheel, expire, marks) early),
      )
