-- ===== src/Loop/Drain.antt =====
-- The loop of co_eventloop over the active list.
use jkyi_libco.Base.{
  ℕ, zero, suc, ◌-◌, ◌≤◌, ◌<◌, ◌≡◌, ◌≢◌, refl, true, false, ◌&&◌, List, [], ◌∷◌, ◌++◌, inl, inr,
  eq-cases, Bool-cases, arith, Ptr, null, length, has, ltb, tail, ==_refl, subst, Distinct, ◌∙◌,
}
use Prim.Native.Nat.{min}
use jkyi_libco.Base.Run.{Run, ok}
use jkyi_libco.Link.{Store, write}
use jkyi_libco.Link.View.{Lists, Represents, mem_allocated, list_unique, allocated}
use jkyi_libco.Link.Alloc.{free_of_absent, node_of_allocated}
use jkyi_libco.Link.PopHead.{pop_head-Updates}
use jkyi_libco.Timeout.{u64, slot}
use jkyi_libco.Timeout.Slots.{IsWheel}
use jkyi_libco.Timeout.Add.{add_timeout-Updates}
use jkyi_libco.Loop.{Sched, put_back, drain}

-- The effects of the items `xs` in turn.
abbrev pub run_all {ℓ} : {W : Type ℓ} → (Ptr → W → W) → List Ptr → W → W
run_all act [] w = w
run_all act (x ∷ xs) w = run_all act xs (act x w)

module _ {W : Type 0} (active : Ptr) (now : ℕ) (process : Ptr → Sched W → Run (Sched W))
    (act : Ptr → W → W)
    (runs : (p : Ptr) (s : Sched W) → process p s ≡ ok (record s { world = act p s.world })) where
  -- If processing an item leaves the timers and the lists alone, and no item of the active list is
  -- a timer taken too early, then the loop over the active list, with more rounds than items, ends
  -- without a fault. Each item has been processed once, in order, and the list is empty.
  pub drain-processes :
      (fuel : ℕ) (xs : List Ptr) (s : Sched W) (L : Lists)
      → Represents s.timers L
      → L active ≡ xs
      → ((x : Ptr) → has x xs ≡ true → (s.timed_out x && ltb now (s.expire x)) ≡ false)
      → length xs < fuel
      → (t : Store) × (L' : Lists) × (drain fuel active now process s
          ≡ ok (record s { timers = t; world = run_all act xs s.world }))
        × Represents t L'
        × (L' active ≡ [])
        × ((k : Ptr) → k ≢ active → L' k ≡ L k)
        × ((q : Ptr) → allocated t q ≡ allocated s.timers q)
  unfolding drain put_back
  drain-processes zero xs s L r e late enough = absurd (omega arith)
  drain-processes (suc fuel) [] s L r e late enough =
      (s.timers, L, ground (arith, r.ends active, e), r, e, λ k ne. refl, λ q. refl)
  drain-processes (suc fuel) (x ∷ xs) s L r e late enough =
      let (t, run, r', same) = pop_head-Updates s.timers L active r in
      let (n, e', at) = mem_allocated s.timers L x active r (ground (arith, e, ==_refl x)) in
      let nn : x ≢ null = ground (arith, r.null_free) in
      let due = late x (ground (arith, ==_refl x)) in
      let s₁ : Sched W = record s { timers = t; world = act x s.world } in
      let (u, M, run', r'', none_left, rest, same') =
        drain-processes fuel xs s₁ (write L active (tail (L active))) r' (ground (arith, e))
          (λ y h. late y (ground (arith, h))) (omega arith) in
      (
        u,
        M,
        ground (arith, r.ends active, e, run, due, runs x (record s { timers = t }), run'),
        r'',
        none_left,
        λ k ne. ground (arith, rest k ne),
        λ q. same' q ∙ same q,
      )

-- Where the first item of the active list is a timer that was taken too early, the next round of
-- the loop does not process it: it is no longer marked as timed out, stands on the wheel at its
-- deadline, or in the last slot, and the loop goes on with the rest of the list.
drain-early :
    {W : Type 0} (fuel : ℕ) (active : Ptr) (now : ℕ) (process : Ptr → Sched W → Run (Sched W))
    (x : Ptr) (xs : List Ptr) (s : Sched W) (L : Lists)
    → Represents s.timers L
    → L active ≡ x ∷ xs
    → s.timed_out x ≡ true
    → now < s.expire x
    → s.expire x < u64
    → IsWheel s.wheel
    → s.wheel.start ≤ now
    → (z : Sched W) × (drain (suc fuel) active now process s ≡ drain fuel active now process z)
      × Represents z.timers (
          let at = slot s.wheel (min (s.expire x - s.wheel.start) (s.wheel.size - 1)) in
          write (write L active xs) at (write L active xs at ++ x ∷ []))
      × (z.timed_out x ≡ false)
      × (z.world ≡ s.world)
unfolding drain put_back
drain-early fuel active now process x xs s L r e out early small v since =
    let (t, run, r', same) = pop_head-Updates s.timers L active r in
    let r₁ = subst (λ (ys : List Ptr). Represents t (write L active (tail ys))) e r' in
    let member : has x (L active) ≡ true = ground (arith, e, ==_refl x) in
    let (n, e', at) = mem_allocated s.timers L x active r member in
    let nn : x ≢ null = ground (arith, r.null_free) in
    let (m, e'') = node_of_allocated s.timers t x n (same x) e' in
    let once : has x xs ≡ false = (subst Distinct e (r.distinct active)).0 in
    let unlinked = free_of_absent t (write L active xs) x m r₁ e'' (λ k. elim (eq-cases k active) [
      | inl here ↦ ground (arith, once)
      | inr there ↦ elim (Bool-cases (has x (L k))) [
        | inl too ↦ absurd (there (list_unique s.timers L x k active r too member))
        | inr absent ↦ ground (arith, absent)
      ]
    ]) in
    let (u, run', r'', same') =
      add_timeout-Updates s.wheel x s.expire now t v (write L active xs) m r₁ e'' unlinked since
        (omega arith) small in
    (
      record s { timers = u; timed_out = write s.timed_out x false },
      ground (arith, r.ends active, e, run, out, run'),
      r'',
      ground (arith, ==_refl x),
      refl,
    )
