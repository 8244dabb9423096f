-- ===== src/Loop/Serving/Again.antt =====
-- A round of co_eventloop (co_routine.cc, lines 689 to 748) with coroutines that wait again: nobody
-- is lost.
use jkyi_libco.Base.{
  ℕ, zero, suc, ◌+◌, ◌-◌, ◌^◌, ◌≤◌, ◌<◌, ◌≡◌, ◌≢◌, ◌⊎◌, refl, sym, ap, ◌∙◌, subst, true, false,
  ◌&&◌, List, [], ◌∷◌, inl, inr, eq-cases, Bool-cases, arith, Ptr, null, length, has, ltb, tail,
  ==_refl,
}
use jkyi_libco.Base.Run.{Run, ok}
use jkyi_libco.Link.{Store, write}
use jkyi_libco.Link.View.{Lists, Represents, mem_allocated, allocated}
use jkyi_libco.Link.PopHead.{pop_head-Updates}
use jkyi_libco.Timeout.{Wheel, slot}
use jkyi_libco.Timeout.Slots.{IsSlot, slot-IsSlot}
use jkyi_libco.Loop.{Sched, PollState, put_back, drain, round}
use jkyi_libco.Loop.Serving.{IsServing, Resumes}
use jkyi_libco.Loop.Serving.Pass.{popped_absent, IsServing-popped}
use jkyi_libco.Loop.Serving.Batch.{hit, Known}
use jkyi_libco.Loop.Serving.Ready.{round_ready}

-- The item stands in a slot of the wheel.
abbrev pub OnWheel : Wheel → Lists → Ptr → Type 0
OnWheel w L q = (k : Ptr) × IsSlot w k × (has q (L k) ≡ true)

-- Two views of one store have the same members.
pub mem_agree :
    (t : Store) (L M : Lists) (q k : Ptr)
    → Represents t L
    → Represents t M
    → has q (L k) ≡ true
    → has q (M k) ≡ true
mem_agree t L M q k r r' m =
    let (n, at, link) = mem_allocated t L q k r m in
    let nn : n.link ≢ null =
      λ e. cc (ap (λ (l : Ptr). has q (L l)) (sym link ∙ e), m, ap (has q) r.no_null_list) in
    subst (λ (l : Ptr). has q (M l) ≡ true) link (r'.member q n at nn)

module _ {W : Type 0} (active timeout : ℕ) (pool : List Ptr)
    (process : Ptr → Sched W → Run (Sched W)) where
  -- When a coroutine that is resumed comes back, its item stands on the wheel again.
  abbrev pub Rejoins : Type 0
  Rejoins =
      (p : Ptr) (s z : Sched W) (L M : Lists)
      → IsServing active timeout pool s L
      → allocated s.timers p ≡ true
      → has p pool ≡ true
      → ((k : Ptr) → has p (L k) ≡ false)
      → process p s ≡ ok z
      → Represents z.timers M
      → OnWheel z.wheel M p

module _ {W A : Type 0} (active timeout : ℕ) (pool : List Ptr) (apart : active ≢ timeout) (now : ℕ)
    (process : Ptr → Sched W → Run (Sched W)) (report : Ptr → PollState → A)
    (resumed : W → List (Ptr × A)) (resumes : Resumes active timeout pool process report resumed)
    (rejoins : Rejoins active timeout pool process) where
  -- Whatever is active, or on the wheel, before the loop over the active list is on the wheel
  -- afterwards.
  drain-again :
      (fuel : ℕ) (xs : List Ptr) (s z : Sched W) (L M : Lists)
      → IsServing active timeout pool s L
      → L active ≡ xs
      → s.wheel.start ≡ now
      → drain fuel active now process s ≡ ok z
      → Represents z.timers M
      → (q : Ptr) → (has q xs ≡ true) ⊎ OnWheel s.wheel L q
      → OnWheel z.wheel M q
  unfolding drain put_back
  drain-again zero xs s z L M v e at run view q h = absurd (ground (arith, run))
  drain-again (suc fuel) [] s z L M v e at run view q h =
      let out : ok s ≡ ok z = sym (ground (arith, v.view.ends active, e)) ∙ run in
      let same : s ≡ z = ground (arith, out) in
      elim h [
        | inl none_here ↦ absurd (cc none_here)
        | inr (k, at_slot, m) ↦ (
          k,
          subst (λ (u : Sched W). IsSlot u.wheel k) same at_slot,
          mem_agree z.timers L M q k (subst (λ (u : Sched W). Represents u.timers L) same v.view)
              view m,
        )
      ]
  drain-again (suc fuel) (x ∷ xs) s z L M v e at run view q h =
      let (t, pop, r', same) = pop_head-Updates s.timers L active v.view in
      let r₁ = subst (λ (ys : List Ptr). Represents t (write L active (tail ys))) e r' in
      let member : has x (L active) ≡ true = ground (arith, e, ==_refl x) in
      let (n, e', link) = mem_allocated s.timers L x active v.view member in
      let nn : x ≢ null = ground (arith, v.view.null_free) in
      let not_early : (s.timed_out x && ltb now (s.expire x)) ≡ false =
        subst (λ (w : ℕ). (s.timed_out x && ltb w (s.expire x)) ≡ false) at (v.ready x member) in
      let s₁ : Sched W = record s { timers = t } in
      let v₀ = IsServing-popped active timeout pool apart s L x xs t v e r₁ in
      let alive : allocated t x ≡ true = same x ∙ ground (arith, e') in
      let absent = popped_absent active timeout pool apart s L x xs v.view e in
      let (u, N, run₁, v₁, same_a, same_w, log, others) =
        resumes x s₁ (write L active xs) v₀ alive (v.pooled active x member) absent in
      let later : drain fuel active now process u ≡ ok z =
        sym (ground (arith, v.view.ends active, e, pop, not_early, run₁)) ∙ run in
      let rest =
        drain-again fuel xs u z N M v₁ (same_a ∙ ground (arith, ==_refl active))
          (ap (λ w. w.start) same_w ∙ at) later view q in
      elim (eq-cases q x) [
        | inl own ↦ rest (
            inr (
              subst (OnWheel u.wheel N) (sym own) (
                rejoins x s₁ u (write L active xs) N v₀ alive (v.pooled active x member) absent run₁
                  v₁.view)))
        | inr ne ↦ elim h [
          | inl here ↦ rest (inl (ground (arith, here, ne)))
          | inr (k, at_slot, m) ↦
              let off : k ≢ active = λ e. v.out_a (subst (IsSlot s.wheel) e at_slot) in
              rest (
                inr (
                  k,
                  subst (λ w. IsSlot w k) (sym same_w) at_slot,
                  (others q k ne (ground (arith, off, m))).0,
                ))
        ]
      ]

module _ {W A : Type 0} (active timeout : ℕ) (pool : List Ptr) (na : active ≢ null)
    (nt : timeout ≢ null) (apart : active ≢ timeout) (process : Ptr → Sched W → Run (Sched W))
    (report : Ptr → PollState → A) (resumed : W → List (Ptr × A))
    (resumes : Resumes active timeout pool process report resumed)
    (rejoins : Rejoins active timeout pool process) where
  -- After a round everything is on the wheel that was active, that had an event, or that was on the
  -- wheel before.
  pub round-again :
      (fuel now : ℕ) (es : List (Ptr × ℕ)) (s z : Sched W) (L M : Lists)
      → IsServing active timeout pool s L
      → Known s.owner L es
      → s.wheel.start ≤ now
      → now - s.wheel.start + 1 < 2 ^ 31
      → now < 2 ^ 62
      → s.wheel.idx + (now - s.wheel.start) < 2 ^ 62
      → length pool < fuel
      → round fuel active timeout es now process s ≡ ok z
      → Represents z.timers M
      → (q : Ptr)
      → (has q (L active) ≡ true)
        ⊎ ((hit s.owner es q ≡ true)
            ⊎ ((d : ℕ) × (d < s.wheel.size) × (has q (L (slot s.wheel d)) ≡ true)))
      → OnWheel z.wheel M q
  round-again fuel now es s z L M v known since short small idx enough run view q h =
      let (u, N, ready, v₁, wheel, expire, world, polls, members, stay, fit) =
        round_ready active timeout pool na nt apart process fuel now es s L v known since short
          small idx enough in
      drain-again active timeout pool apart now process report resumed resumes rejoins fuel
        (N active) u z N M v₁ refl (ap (λ w. w.start) wheel) (sym ready ∙ run) view q
        (elim h [
          | inl before ↦ inl ((members q).1 (inl before))
          | inr (inl event) ↦ inl ((members q).1 (inr (inl event)))
          | inr (inr (d, lt, m)) ↦ elim (Bool-cases (has q (N active))) [
            | inl here ↦ inl here
            | inr out ↦ inr (
              slot s.wheel d,
              subst (λ w. IsSlot w (slot s.wheel d)) (sym wheel) (slot-IsSlot s.wheel v.wheel d),
              stay q d lt out m,
            )
          ]
        ])
