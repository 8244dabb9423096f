-- ===== src/Loop/Serving/Pass.antt =====
-- The loop of co_eventloop over the active list (co_routine.cc, lines 723 to 740), with coroutines
-- that wait again.
use jkyi_libco.Base.{
  ℕ, zero, suc, ◌<◌, ◌≡◌, ◌≢◌, refl, sym, ap, ◌∙◌, subst, true, false, ◌&&◌, List, [], ◌∷◌, ◌++◌,
  map, append-nil, append_assoc, inl, inr, eq-cases, Bool-cases, arith, Ptr, null, length, has, ltb,
  tail, ==_refl, Distinct,
}
use jkyi_libco.Base.Run.{Run, ok}
use jkyi_libco.Link.{Store, write}
use jkyi_libco.Link.View.{Lists, Represents, mem_allocated, list_unique}
use jkyi_libco.Link.PopHead.{pop_head-Updates}
use jkyi_libco.Timeout.{slot}
use jkyi_libco.Timeout.Slots.{slot-IsSlot, IsSlot}
use jkyi_libco.Loop.{Sched, PollState, put_back, drain}
use jkyi_libco.Loop.Serving.{IsServing, Resumes, seen}

pub map-agree :
    {A : Type 0} (f g : Ptr → A) (xs : List Ptr)
    → ((q : Ptr) → has q xs ≡ true → f q ≡ g q)
    → map f xs ≡ map g xs
map-agree f g [] h = refl
map-agree f g (x ∷ xs) h =
    ground (arith, h x (ground (arith, ==_refl x)), map-agree f g xs λ q m. h q (ground (arith, m)))

-- The first item and the rest, of which the first leaves alone what the rest reads.
logged :
    {A : Type 0} (report : Ptr → PollState → A) (before between after : List (Ptr × A)) (x : Ptr)
    (xs : List Ptr) (f g : Ptr → PollState)
    → between ≡ before ++ seen report f x ∷ []
    → after ≡ between ++ map (seen report g) xs
    → ((q : Ptr) → has q xs ≡ true → g q ≡ f q)
    → after ≡ before ++ map (seen report f) (x ∷ xs)
logged report before between after x xs f g first rest same =
    let same_map : map (seen report g) xs ≡ map (seen report f) xs =
      map-agree (seen report g) (seen report f) xs
        (λ q m. ap (λ (r : PollState). (q, report q r)) (same q m)) in
    rest
    ∙ rw (first, same_map) (append_assoc before (seen report f x ∷ []) (map (seen report f) xs))

module _ {W : Type 0} (active timeout : ℕ) (pool : List Ptr) (apart : active ≢ timeout) where
  -- The first item of the active list is in no list once it has been taken from there.
  pub popped_absent :
      (s : Sched W) (L : Lists) (x : Ptr) (xs : List Ptr)
      → Represents s.timers L
      → L active ≡ x ∷ xs
      → (k : Ptr) → has x (write L active xs k) ≡ false
  popped_absent s L x xs r e k =
      let member : has x (L active) ≡ true = ground (arith, e, ==_refl x) in
      let once : has x xs ≡ false = (subst Distinct e (r.distinct active)).0 in
      elim (eq-cases k active) [
        | inl here ↦ ground (arith, once)
        | inr there ↦ elim (Bool-cases (has x (L k))) [
          | inl too ↦ absurd (there (list_unique s.timers L x k active r too member))
          | inr absent ↦ ground (arith, absent)
        ]
      ]

  -- The state without the first item of the active list.
  pub IsServing-popped :
      (s : Sched W) (L : Lists) (x : Ptr) (xs : List Ptr) (t : Store)
      → IsServing active timeout pool s L
      → L active ≡ x ∷ xs
      → Represents t (write L active xs)
      → IsServing active timeout pool (record s { timers = t }) (write L active xs)
  IsServing-popped s L x xs t v e view = record {
    view = view;
    wheel = v.wheel;
    room = v.room;
    out_a = v.out_a;
    out_t = v.out_t;
    idle = ground (arith, apart, v.idle);
    on_time = λ d q lt m.
        let off : slot s.wheel d ≢ active =
          λ e'. v.out_a (subst (IsSlot s.wheel) e' (slot-IsSlot s.wheel v.wheel d)) in
        v.on_time d q lt (ground (arith, off, m));
    unmarked = λ k q ne m. v.unmarked k q ne (ground (arith, ne, m));
    attached = λ k q ne m. v.attached k q ne (ground (arith, ne, m));
    ready = λ q m. v.ready q (ground (arith, e, m, ==_refl active));
    pooled = λ k q m. v.pooled k q (ground (arith, e, m));
  }

  module _ {A : Type 0} (now : ℕ) (process : Ptr → Sched W → Run (Sched W))
      (report : Ptr → PollState → A) (resumed : W → List (Ptr × A))
      (resumes : Resumes active timeout pool process report resumed) where
    -- The loop ends, with more rounds than there are items: each item has been resumed once, in
    -- order, and every other item is where it was.
    pub drain-serves :
        (fuel : ℕ) (xs : List Ptr) (s : Sched W) (L : Lists)
        → IsServing active timeout pool s L
        → L active ≡ xs
        → s.wheel.start ≡ now
        → length xs < fuel
        → (z : Sched W) × (M : Lists) × (drain fuel active now process s ≡ ok z)
          × IsServing active timeout pool z M
          × (M active ≡ [])
          × (z.wheel ≡ s.wheel)
          × (resumed z.world ≡ resumed s.world ++ map (seen report s.polls) xs)
          × ((q k : Ptr)
              → has q xs ≡ false
              → has q (L k) ≡ true
              → (has q (M k) ≡ true) × (z.expire q ≡ s.expire q) × (z.polls q ≡ s.polls q))
    unfolding drain put_back
    drain-serves zero xs s L v e at enough = absurd (omega arith)
    drain-serves (suc fuel) [] s L v e at enough = (
      s,
      L,
      ground (arith, v.view.ends active, e),
      v,
      e,
      refl,
      sym (append-nil (resumed s.world)),
      λ q k out m. (m, refl, refl),
    )
    drain-serves (suc fuel) (x ∷ xs) s L v e at enough =
        let (t, run, r', same) = pop_head-Updates s.timers L active v.view in
        let r₁ = subst (λ (ys : List Ptr). Represents t (write L active (tail ys))) e r' in
        let member : has x (L active) ≡ true = ground (arith, e, ==_refl x) in
        let (n, e', link) = mem_allocated s.timers L x active v.view member in
        let nn : x ≢ null = ground (arith, v.view.null_free) in
        let not_early : (s.timed_out x && ltb now (s.expire x)) ≡ false =
          subst (λ (w : ℕ). (s.timed_out x && ltb w (s.expire x)) ≡ false) at (v.ready x member) in
        let s₁ : Sched W = record s { timers = t } in
        let (u, N, run₁, v₁, same_a, same_w, log, others) =
          resumes x s₁ (write L active xs) (IsServing-popped s L x xs t v e r₁)
            (same x ∙ ground (arith, e')) (v.pooled active x member)
            (popped_absent s L x xs v.view e) in
        let (z, M, run₂, v₂, none_left, same_w', log', others') =
          drain-serves fuel xs u N v₁ (same_a ∙ ground (arith, ==_refl active))
            (ap (λ w. w.start) same_w ∙ at) (omega arith) in
        (
          z,
          M,
          ground (arith, v.view.ends active, e, run, not_early, run₁, run₂),
          v₂,
          none_left,
          same_w' ∙ same_w,
          logged report (resumed s.world) (resumed u.world) (resumed z.world) x xs s.polls u.polls
              log log'
              λ q m.
                let ne : q ≢ x =
                  λ e'. ground (arith, popped_absent s L x xs v.view e active, m, e') in
                (others q active ne (ground (arith, m, ==_refl active))).2,
          λ q k out m.
              let ne : q ≢ x = ground (arith, out, ==_refl x) in
              let out' : has q xs ≡ false = ground (arith, out) in
              let off : k ≢ active = ground (arith, e, m, out) in
              let (m₁, d₁, p₁) = others q k ne (ground (arith, off, m)) in
              let (m₂, d₂, p₂) = others' q k out' m₁ in (m₂, d₂ ∙ d₁, p₂ ∙ p₁),
        )
