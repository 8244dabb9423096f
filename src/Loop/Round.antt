-- ===== src/Loop/Round.antt =====
-- A round of co_eventloop without events: exactly what was active and the timers that are due are
-- processed.
use jkyi_libco.Base.{
  ℕ, ◌+◌, ◌-◌, ◌^◌, ◌≤◌, ◌<◌, ◌≡◌, ◌≢◌, refl, sym, true, false, ◌&&◌, List, [], ◌++◌, inl, inr,
  Bool-cases, arith, Ptr, null, length, length-append, has, has-append, ltb, subst, ◌∙◌,
}
use jkyi_libco.Base.Run.{Run, ok}
use jkyi_libco.Link.View.{Lists, Represents, allocated}
use jkyi_libco.Timeout.{slot}
use jkyi_libco.Timeout.Slots.{IsWheel, IsSlot}
use jkyi_libco.Timeout.Add.{OnTime}
use jkyi_libco.Timeout.Take.{gather}
use jkyi_libco.Timeout.Expiry.{count_due, turned, taken}
use jkyi_libco.Loop.{Sched, round}
use jkyi_libco.Loop.Drain.{run_all, drain-processes}
use jkyi_libco.Loop.Joined.{gather-due, turned-IsSlot, round_joined}

module _ {W : Type 0} (active timeout now : ℕ) (process : Ptr → Sched W → Run (Sched W))
    (act : Ptr → W → W)
    (runs : (p : Ptr) (s : Sched W) → process p s ≡ ok (record s { world = act p s.world }))
    (s : Sched W) (L : Lists) (r : Represents s.timers L) (v : IsWheel s.wheel) where
  abbrev pub due : List Ptr
  due = gather s.wheel L 0 (count_due s.wheel now)

  abbrev pub work : List Ptr
  work = L active ++ gather s.wheel L 0 (count_due s.wheel now)

  -- A round, with what is left on the wheel.
  pub round_kept :
      (fuel : ℕ)
      → active ≢ null
      → (nt : timeout ≢ null) → active ≢ timeout
      → ¬ (IsSlot s.wheel active)
      → (out_t : ¬ (IsSlot s.wheel timeout)) → (since : s.wheel.start ≤ now)
      → now - s.wheel.start + 1 < 2 ^ 31
      → L timeout ≡ []
      → OnTime s.wheel L s.expire
      → ((x : Ptr) → has x (L active) ≡ true → s.timed_out x ≡ false)
      → ((d : ℕ) → length (L (slot s.wheel d)) < fuel)
      → length work < fuel
      → (z : Sched W) × (L' : Lists) × (round fuel active timeout [] now process s ≡ ok z)
        × Represents z.timers L'
        × (z.world ≡ run_all act work s.world)
        × (L' active ≡ [])
        × (L' timeout ≡ [])
        × (z.wheel ≡ turned s.wheel now)
        × OnTime z.wheel L' z.expire
        × (z.expire ≡ s.expire)
        × (z.polls ≡ s.polls)
        × ((q : Ptr) → allocated z.timers q ≡ allocated s.timers q)
        × ((k : Ptr)
            → k ≢ active
            → k ≢ timeout
            → L' k ≡ taken s.wheel timeout now L v out_t nt since k)
  round_kept fuel na nt apart out_a out_t since short idle on_time unmarked enough rounds =
      let (t, f, M, run, view, at_a, at_t, on_time', marked, same, kept) =
        round_joined active timeout now process s L r v fuel na nt apart out_a out_t since short
          idle on_time enough (omega (arith, rounds, length-append (L active) due)) in
      let w' = turned s.wheel now in
      let early : (x : Ptr) → has x work ≡ true → (f x && ltb now (s.expire x)) ≡ false = λ x m.
        elim (Bool-cases (has x due)) [
          | inl timer ↦
              let (j, a, b, at) = gather-due s.wheel L 0 (count_due s.wheel now) x timer in
              ground (arith, on_time j x (omega arith) at)
          | inr other ↦
              ground (arith, marked x, unmarked x (ground (arith, has-append x (L active) due)))
        ] in
      let (u, L₃, run', view', none_left, kept', same') =
        drain-processes active now process act runs fuel work
          (record s { timers = t; wheel = w'; timed_out = f }) M view at_a early rounds in
      (
        record s { timers = u; wheel = w'; timed_out = f; world = run_all act work s.world },
        L₃,
        run ∙ run',
        view',
        refl,
        none_left,
        kept' timeout (λ e. apart (sym e)) ∙ at_t,
        refl,
        λ d p lt m. on_time' d p lt (
            subst (λ (ys : List Ptr). has p ys ≡ true)
              (kept' (slot w' d)
                (λ e. out_a (subst (IsSlot s.wheel) e (turned-IsSlot s.wheel v now d))))
              m),
        refl,
        refl,
        λ q. same' q ∙ same q,
        λ k off_a off_t. kept' k off_a ∙ kept k off_a off_t,
      )

  -- Processing an item leaves the timers and the lists alone. The wheel is in use, every timer
  -- stands on it in the slot of its deadline, and the clock has moved less than 2 ^ 31 - 1 milliseconds;
  -- the lists `active` and `timeout` are two lists, and no slots of the wheel; `timeout` is empty,
  -- and nothing in `active` is marked as timed out; there are more rounds than items. Then a round
  -- without events ends without a fault: exactly what was active and the timers in the slots that
  -- are due have been processed, each once and in order; both lists are empty; the wheel stands at
  -- `now`, and every timer left stands in the slot of its deadline.
  pub round-processes :
      (fuel : ℕ)
      → active ≢ null
      → timeout ≢ null
      → active ≢ timeout
      → ¬ (IsSlot s.wheel active)
      → ¬ (IsSlot s.wheel timeout)
      → s.wheel.start ≤ now
      → now - s.wheel.start + 1 < 2 ^ 31
      → L timeout ≡ []
      → OnTime s.wheel L s.expire
      → ((x : Ptr) → has x (L active) ≡ true → s.timed_out x ≡ false)
      → ((d : ℕ) → length (L (slot s.wheel d)) < fuel)
      → length work < fuel
      → (z : Sched W) × (L' : Lists) × (round fuel active timeout [] now process s ≡ ok z)
        × Represents z.timers L'
        × (z.world ≡ run_all act work s.world)
        × (L' active ≡ [])
        × (L' timeout ≡ [])
        × (z.wheel ≡ turned s.wheel now)
        × OnTime z.wheel L' z.expire
  round-processes fuel na nt apart out_a out_t since short idle on_time unmarked enough rounds =
      let (z, L', run, view, world, none_a, none_t, wheel, on_time', expire, polls, same, kept) =
        round_kept fuel na nt apart out_a out_t since short idle on_time unmarked enough rounds in
      (z, L', run, view, world, none_a, none_t, wheel, on_time')
