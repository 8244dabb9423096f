-- ===== src/Loop/Joined.antt =====
-- A round of co_eventloop without events (co_routine.cc, lines 713 to 721), up to its loop over the
-- active list.
use jkyi_libco.Base.{
  ℕ, zero, suc, ◌+◌, ◌-◌, ◌^◌, ◌≤◌, ◌<◌, ◌≡◌, ◌≢◌, refl, sym, true, false, List, [], ◌∷◌, ◌++◌, inl,
  inr, Bool-cases, arith, Ptr, null, length, has, has-append, if◌then◌else◌, head_or, subst, Bool,
  ◌∙◌,
}
use jkyi_libco.Base.Run.{Run, ok}
use jkyi_libco.Link.{Store, write, set_head, set_tail}
use jkyi_libco.Link.Chain.{Chain, frame, not-mem_null}
use jkyi_libco.Link.View.{Lists, Represents, allocated}
use jkyi_libco.Link.Join.{join-Updates}
use jkyi_libco.Timeout.{Wheel, slot}
use jkyi_libco.Timeout.Slots.{IsWheel, IsSlot}
use jkyi_libco.Timeout.Add.{OnTime}
use jkyi_libco.Timeout.Take.{gather, after_take-other, after_take_result, slot-ne}
use jkyi_libco.Timeout.Expiry.{count_due, turned, taken, take_all-Updates, take_all-OnTime}
use jkyi_libco.Loop.{Sched, mark, round, prepare_all, drain}

-- memset of a list that is empty changes nothing.
pub cleared-Represents :
    (s : Store) (L : Lists) (l : Ptr)
    → Represents s L
    → L l ≡ []
    → Represents (set_tail l null (set_head l null s)) L
cleared-Represents s L l r e = record {
  null_free = r.null_free;
  no_null_list = r.no_null_list;
  ends = λ k. ground (arith, r.ends k, e);
  chain =
      λ k. frame k s (set_tail l null (set_head l null s)) null (L k) null (r.chain k) λ p h. refl;
  distinct = r.distinct;
  member = r.member;
}

-- The loop sets bTimeout of exactly the items of the list.
mark-marks :
    {W : Type 0} (fuel l prev : ℕ) (xs : List Ptr) (s : Sched W)
    → Chain s.timers l prev xs null
    → has null xs ≡ false
    → length xs < fuel
    → (f : Ptr → Bool) × (mark fuel (head_or xs null) s ≡ ok (record s { timed_out = f }))
      × ((q : Ptr) → f q ≡ (if has q xs then true else s.timed_out q))
unfolding mark
mark-marks zero l prev xs s c nn enough = absurd (omega arith)
mark-marks (suc fuel) l prev [] s c nn enough = (s.timed_out, ground arith, λ q. refl)
mark-marks (suc fuel) l prev (x ∷ xs) s c nn enough =
    let (f, run, marked) =
      mark-marks fuel l x xs (record s { timed_out = write s.timed_out x true }) c.1 (ground arith)
        (omega arith) in
    (f, ground (arith, c.0, run), λ q. ground (arith, marked q))

pub gather-due :
    (w : Wheel) (L : Lists) (i rounds : ℕ) (p : Ptr)
    → has p (gather w L i rounds) ≡ true
    → (j : ℕ) × (i ≤ j) × (j < i + rounds) × (has p (L (slot w j)) ≡ true)
unfolding gather
gather-due w L i zero p h = cc
gather-due w L i (suc rounds) p h = elim (Bool-cases (has p (L (slot w i)))) [
  | inl here ↦ (i, omega arith, omega arith, here)
  | inr there ↦
      let (j, a, b, at) =
        gather-due w L (i + 1) rounds p
          (ground (arith, has-append p (L (slot w i)) (gather w L (i + 1) rounds))) in
      (j, omega arith, omega arith, at)
]

pub turned-IsSlot : (w : Wheel) → IsWheel w → (now d : ℕ) → IsSlot w (slot (turned w now) d)
unfolding slot
turned-IsSlot w v now d = (omega arith, omega (arith, v.has_slots))

module _ {W : Type 0} (active timeout now : ℕ) (process : Ptr → Sched W → Run (Sched W))
    (s : Sched W) (L : Lists) (r : Represents s.timers L) (v : IsWheel s.wheel) where
  abbrev pub due : List Ptr
  due = gather s.wheel L 0 (count_due s.wheel now)

  abbrev pub work : List Ptr
  work = L active ++ due

  -- What a round without events leaves to the loop over the active list: the timers that are due
  -- stand behind what was active, and they are marked.
  pub round_joined :
      (fuel : ℕ)
      → active ≢ null
      → (nt : timeout ≢ null) → active ≢ timeout
      → ¬ (IsSlot s.wheel active)
      → (out_t : ¬ (IsSlot s.wheel timeout)) → (since : s.wheel.start ≤ now)
      → now - s.wheel.start + 1 < 2 ^ 31
      → L timeout ≡ []
      → OnTime s.wheel L s.expire
      → ((d : ℕ) → length (L (slot s.wheel d)) < fuel)
      → length due < fuel
      → (t : Store) × (f : Ptr → Bool) × (M : Lists) × (round fuel active timeout [] now process s
          ≡ drain fuel active now process
              (record s { timers = t; wheel = turned s.wheel now; timed_out = f }))
        × Represents t M
        × (M active ≡ work)
        × (M timeout ≡ [])
        × OnTime (turned s.wheel now) M s.expire
        × ((q : Ptr) → f q ≡ (if has q due then true else s.timed_out q))
        × ((q : Ptr) → allocated t q ≡ allocated s.timers q)
        × ((k : Ptr)
            → k ≢ active
            → k ≢ timeout
            → M k ≡ taken s.wheel timeout now L v out_t nt since k)
  unfolding round prepare_all
  round_joined fuel na nt apart out_a out_t since short idle on_time enough fits =
      let s₀ = set_tail timeout null (set_head timeout null s.timers) in
      let r₀ = cleared-Represents s.timers L timeout r idle in
      let w' = turned s.wheel now in
      let L₁ = taken s.wheel timeout now L v out_t nt since in
      let (t₁, run₁, r₁, same₁) =
        take_all-Updates s.wheel timeout now L v out_t nt since short fuel s₀ r₀ enough in
      let at_t : L₁ timeout ≡ due = ground (
        arith,
        after_take_result s.wheel timeout v out_t nt 0 (count_due s.wheel now) L (omega arith),
        idle,
      ) in
      let at_a : L₁ active ≡ L active =
        after_take-other s.wheel timeout v out_t nt 0 (count_due s.wheel now) L active apart
          λ j a b e. slot-ne s.wheel active v out_a na j e in
      let chained : Chain t₁ timeout null due null =
        subst (λ (ys : List Ptr). Chain t₁ timeout null ys null) at_t (r₁.chain timeout) in
      let s₁ : Sched W = record s { timers = t₁; wheel = w' } in
      let (f, run₂, marked) =
        mark-marks fuel timeout null due s₁ chained
          (not-mem_null timeout t₁ null due null r₁.null_free chained) fits in
      let (t₂, run₃, r₂, same₂) =
        join-Updates fuel t₁ L₁ active timeout r₁ apart na
          (subst (λ (ys : List Ptr). length ys < fuel) (sym at_t) fits) in
      let L₂ : Lists = write (write L₁ active (L₁ active ++ L₁ timeout)) timeout [] in
      let head₁ : (t₁.ends timeout).head ≡ head_or due null =
        ground (arith, r₁.ends timeout, at_t) in
      let on_slot : (d : ℕ) → L₂ (slot w' d) ≡ L₁ (slot w' d) = λ d. ground (
        arith,
        λ (e : slot w' d ≡ timeout).
            out_t (subst (IsSlot s.wheel) e (turned-IsSlot s.wheel v now d)),
        λ (e : slot w' d ≡ active).
            out_a (subst (IsSlot s.wheel) e (turned-IsSlot s.wheel v now d)),
      ) in
      (
        t₂,
        f,
        L₂,
        ground (arith, run₁, head₁, run₂, run₃),
        r₂,
        ground (arith, at_a, at_t),
        ground arith,
        λ d p lt m.
            take_all-OnTime s.wheel timeout now L v out_t nt since s.expire on_time d p lt
              (subst (λ (ys : List Ptr). has p ys ≡ true) (on_slot d) m),
        marked,
        λ q. same₂ q ∙ same₁ q,
        λ k off_a off_t. ground arith,
      )
