-- ===== src/Loop/Serving/Waking.antt =====
-- A round of co_eventloop (co_routine.cc, lines 689 to 748) with coroutines that make others active
-- while they run, as co_cond_signal and CoUnLock do.
use jkyi_libco.Base.{
  ℕ, zero, suc, ◌+◌, ◌-◌, ◌^◌, ◌≤◌, ◌<◌, ◌≡◌, ◌≢◌, ◌⊎◌, refl, sym, ap, ◌∙◌, subst, true, false,
  ◌&&◌, List, [], ◌∷◌, ◌++◌, append-nil, append_assoc, inl, inr, eq-cases, Bool-cases, arith, Ptr,
  null, length, has, ltb, tail, ==_refl,
}
use jkyi_libco.Base.Run.{Run, ok}
use jkyi_libco.Link.{write}
use jkyi_libco.Link.View.{Lists, Represents, mem_allocated, allocated}
use jkyi_libco.Link.PopHead.{pop_head-Updates}
use jkyi_libco.Timeout.{slot}
use jkyi_libco.Timeout.Expiry.{turned}
use jkyi_libco.Loop.{Sched, put_back, drain, round}
use jkyi_libco.Loop.Serving.{IsServing, Fit, length-serving}
use jkyi_libco.Loop.Serving.Pass.{popped_absent, IsServing-popped}
use jkyi_libco.Loop.Serving.Batch.{hit, Known}
use jkyi_libco.Loop.Serving.Ready.{round_ready}

module _ {W : Type 0} (active timeout : ℕ) (pool : List Ptr)
    (process : Ptr → Sched W → Run (Sched W)) (resumed : W → List Ptr)
    (waiting : W → List Ptr → Type 0) where
  -- What a coroutine may do that makes others active. `waiting w qs` says that `qs` are the items
  -- that may still be made active in the world `w`. The active list grows by no more items than
  -- have left `qs`, which are active now, except for its own; those that remain in `qs` may still be made active, and
  -- every other item than its own is active now, or is where it was, with its deadline.
  abbrev pub Wakes : Type 0
  Wakes =
      (p : Ptr) (qs : List Ptr) (s : Sched W) (L : Lists)
      → IsServing active timeout pool s L
      → waiting s.world qs
      → ((q : Ptr) → has q qs ≡ true → Fit pool s q)
      → allocated s.timers p ≡ true
      → has p pool ≡ true
      → ((k : Ptr) → has p (L k) ≡ false)
      → (z : Sched W) × (M : Lists) × (rs : List Ptr) × (process p s ≡ ok z)
        × IsServing active timeout pool z M
        × waiting z.world rs
        × ((q : Ptr) → has q rs ≡ true → Fit pool z q)
        × ((q : Ptr) → q ≢ p → has q qs ≡ true → (has q rs ≡ true) ⊎ (has q (M active) ≡ true))
        × (length (M active) + length rs ≤ length (L active) + length qs)
        × (z.wheel ≡ s.wheel)
        × (resumed z.world ≡ resumed s.world ++ p ∷ [])
        × ((q k : Ptr)
            → q ≢ p
            → has q (L k) ≡ true
            → (has q (M active) ≡ true) ⊎ ((has q (M k) ≡ true) × (z.expire q ≡ s.expire q)))

-- Another item is where it was once `x` has been taken.
still :
    {active : Ptr} (q k x : Ptr) (xs : List Ptr) (L : Lists)
    → L active ≡ x ∷ xs
    → q ≢ x
    → has q (L k) ≡ true
    → has q (write L active xs k) ≡ true
still {active} q k x xs L e ne m = elim (eq-cases k active) [
  | inl here ↦
      let m' : has q (L active) ≡ true = subst (λ (l : Ptr). has q (L l) ≡ true) here m in
      rw here (ground (arith, e, m', ne, ==_refl active))
  | inr off ↦ ground (arith, off, m)
]

-- What the first item and the later ones have added.
logged :
    (before between after ys : List Ptr) (x : Ptr)
    → between ≡ before ++ x ∷ []
    → after ≡ between ++ ys
    → after ≡ before ++ x ∷ ys
logged before between after ys x first rest = rest ∙ rw first (append_assoc before (x ∷ []) ys)

module _ {W : Type 0} (active timeout : ℕ) (pool : List Ptr) (apart : active ≢ timeout) (now : ℕ)
    (process : Ptr → Sched W → Run (Sched W)) (resumed : W → List Ptr)
    (waiting : W → List Ptr → Type 0)
    (wakes : Wakes active timeout pool process resumed waiting) where
  -- The loop ends, with more rounds than there are items that are active or may become so: each item
  -- that was active, or has become so, has been resumed.
  drain-wakes :
      (fuel : ℕ) (xs qs : List Ptr) (s : Sched W) (L : Lists)
      → IsServing active timeout pool s L
      → waiting s.world qs
      → ((q : Ptr) → has q qs ≡ true → Fit pool s q)
      → L active ≡ xs
      → s.wheel.start ≡ now
      → length xs + length qs < fuel
      → (z : Sched W) × (M : Lists) × (ys rs : List Ptr) × (drain fuel active now process s ≡ ok z)
        × IsServing active timeout pool z M
        × waiting z.world rs
        × ((q : Ptr) → has q rs ≡ true → Fit pool z q)
        × ((q : Ptr) → has q qs ≡ true → (has q rs ≡ true) ⊎ (has q ys ≡ true))
        × (M active ≡ [])
        × (z.wheel ≡ s.wheel)
        × (resumed z.world ≡ resumed s.world ++ ys)
        × ((q : Ptr) → has q xs ≡ true → has q ys ≡ true)
        × ((q k : Ptr)
            → has q (L k) ≡ true
            → (has q ys ≡ true) ⊎ ((has q (M k) ≡ true) × (z.expire q ≡ s.expire q)))
  unfolding drain put_back
  drain-wakes zero xs qs s L v waits fit e at enough = absurd (omega arith)
  drain-wakes (suc fuel) [] qs s L v waits fit e at enough = (
    s,
    L,
    [],
    qs,
    ground (arith, v.view.ends active, e),
    v,
    waits,
    fit,
    λ q m. inl m,
    e,
    refl,
    sym (append-nil (resumed s.world)),
    λ q m. m,
    λ q k m. inr (m, refl),
  )
  drain-wakes (suc fuel) (x ∷ xs) qs s L v waits fit e at enough =
      let (t, run, r', same) = pop_head-Updates s.timers L active v.view in
      let r₁ = subst (λ (ys : List Ptr). Represents t (write L active (tail ys))) e r' in
      let member : has x (L active) ≡ true = ground (arith, e, ==_refl x) in
      let (n, e', link) = mem_allocated s.timers L x active v.view member in
      let nn : x ≢ null = ground (arith, v.view.null_free) in
      let not_early : (s.timed_out x && ltb now (s.expire x)) ≡ false =
        subst (λ (w : ℕ). (s.timed_out x && ltb w (s.expire x)) ≡ false) at (v.ready x member) in
      let s₁ : Sched W = record s { timers = t } in
      let (u, N, us, run₁, v₁, waits₁, fit₁, gone, fewer, same_w, log, others) =
        wakes x qs s₁ (write L active xs)
          (IsServing-popped active timeout pool apart s L x xs t v e r₁) waits
          (λ q m. let (alive, pooled, early) = fit q m in (same q ∙ alive, pooled, early))
          (same x ∙ ground (arith, e')) (v.pooled active x member)
          (popped_absent active timeout pool apart s L x xs v.view e) in
      let left : write L active xs active ≡ xs = ground (arith, ==_refl active) in
      let short : length (N active) + length us ≤ length xs + length qs =
        subst (λ (l : List Ptr). length (N active) + length us ≤ length l + length qs) left fewer in
      let (z, M, ys, rs, run₂, v₂, waits₂, fit₂, gone', none_left, same_w', log', hits, others') =
        drain-wakes fuel (N active) us u N v₁ waits₁ fit₁ refl (ap (λ w. w.start) same_w ∙ at)
          (omega (arith, enough, short)) in
      (
        z,
        M,
        x ∷ ys,
        rs,
        ground (arith, v.view.ends active, e, run, not_early, run₁, run₂),
        v₂,
        waits₂,
        fit₂,
        λ q m. elim (eq-cases q x) [
          | inl own ↦ inr (ground (arith, own, ==_refl x))
          | inr ne ↦ elim (gone q ne m) [
            | inl left ↦ elim (gone' q left) [
              | inl still_left ↦ inl still_left
              | inr woken ↦ inr (ground (arith, woken))
            ]
            | inr woken ↦ inr (ground (arith, hits q woken))
          ]
        ],
        none_left,
        same_w' ∙ same_w,
        logged (resumed s.world) (resumed u.world) (resumed z.world) ys x log log',
        λ q m. elim (eq-cases q x) [
          | inl own ↦ ground (arith, own, ==_refl x)
          | inr ne ↦
              let m' : has q (write L active xs active) ≡ true = ground (arith, left, m, ne) in
              elim (others q active ne m') [
                | inl here ↦ ground (arith, hits q here)
                | inr (here, until) ↦ ground (arith, hits q here)
              ]
        ],
        λ q k m. elim (eq-cases q x) [
          | inl own ↦ inl (ground (arith, own, ==_refl x))
          | inr ne ↦ elim (others q k ne (still q k x xs L e ne m)) [
            | inl woken ↦ inl (ground (arith, hits q woken))
            | inr (m₁, d₁) ↦ elim (others' q k m₁) [
              | inl later ↦ inl (ground (arith, later))
              | inr (m₂, d₂) ↦ inr (m₂, d₂ ∙ d₁)
            ]
          ]
        ],
      )

module _ {W : Type 0} (active timeout : ℕ) (pool : List Ptr) (na : active ≢ null)
    (nt : timeout ≢ null) (apart : active ≢ timeout) (process : Ptr → Sched W → Run (Sched W))
    (resumed : W → List Ptr) (waiting : W → List Ptr → Type 0)
    (wakes : Wakes active timeout pool process resumed waiting) where
  -- Coroutines that are resumed free what they wait with, may wait again, and may make others
  -- active, which are among `qs` at first. The clock has moved less than 2 ^ 31 - 1 milliseconds, each
  -- event is for a coroutine that waits, and `fuel` is more than the items in use and those of `qs`.
  -- Then a round with any events ends without a fault, and nothing is left active. Every coroutine
  -- that was active, that has an event, or whose deadline is over, has been resumed; every other
  -- timer has been made active and resumed, or stays where it is, with its deadline. Of those in `qs`
  -- each has been resumed, or may still be made active and is fit for the next round.
  pub round-wakes :
      (fuel now : ℕ) (es : List (Ptr × ℕ)) (qs : List Ptr) (s : Sched W) (L : Lists)
      → IsServing active timeout pool s L
      → waiting s.world qs
      → ((q : Ptr) → has q qs ≡ true → Fit pool s q)
      → Known s.owner L es
      → s.wheel.start ≤ now
      → now - s.wheel.start + 1 < 2 ^ 31
      → now < 2 ^ 62
      → s.wheel.idx + (now - s.wheel.start) < 2 ^ 62
      → length pool + length qs < fuel
      → (z : Sched W) × (M : Lists) × (ys rs : List Ptr) × (round fuel active timeout es now process
            s
          ≡ ok z)
        × IsServing active timeout pool z M
        × waiting z.world rs
        × ((q : Ptr) → has q rs ≡ true → Fit pool z q)
        × ((q : Ptr) → has q qs ≡ true → (has q rs ≡ true) ⊎ (has q ys ≡ true))
        × (M active ≡ [])
        × (z.wheel ≡ turned s.wheel now)
        × (resumed z.world ≡ resumed s.world ++ ys)
        × ((q : Ptr)
            → (has q (L active) ≡ true)
              ⊎ ((hit s.owner es q ≡ true)
                  ⊎ ((d : ℕ) × (d < s.wheel.size)
                      × (has q (L (slot s.wheel d)) ≡ true)
                      × (s.expire q ≤ now)))
            → has q ys ≡ true)
        × ((q d : Ptr)
            → d < s.wheel.size
            → has q (L (slot s.wheel d)) ≡ true
            → (has q ys ≡ true) ⊎ ((has q (M (slot s.wheel d)) ≡ true) × (z.expire q ≡ s.expire q)))
  round-wakes fuel now es qs s L v waits fit known since short small idx enough =
      let (u, N, run, v₁, wheel, expire, world, polls, members, stay, fit₁) =
        round_ready active timeout pool na nt apart process fuel now es s L v known since short
          small idx (omega (arith, enough)) in
      let (z, M, ys, rs, run', v', waits', fit', gone, none_left, wheel', log, hits, others) =
        drain-wakes active timeout pool apart now process resumed waiting wakes fuel (N active) qs u
          N v₁ (subst (λ (w : W). waiting w qs) (sym world) waits) (λ q m. fit₁ q (fit q m)) refl
          (ap (λ w. w.start) wheel)
          (omega (arith, enough, length-serving active timeout pool u N active v₁)) in
      (
        z,
        M,
        ys,
        rs,
        run ∙ run',
        v',
        waits',
        fit',
        gone,
        none_left,
        wheel' ∙ wheel,
        log ∙ ap (λ w. resumed w ++ ys) world,
        λ q h. hits q ((members q).1 h),
        λ q d lt m. elim (Bool-cases (has q (N active))) [
          | inl active_now ↦ inl (hits q active_now)
          | inr out ↦ elim (others q (slot s.wheel d) (stay q d lt out m)) [
            | inl later ↦ inl later
            | inr (m', until) ↦ inr (m', until ∙ ap (λ f. f q) expire)
          ]
        ],
      )
