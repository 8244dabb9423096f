-- ===== src/Timeout/Expiry.antt =====
-- TakeAllTimeout as a whole: which timers it takes, and the wheel and the lists after it.
use jkyi_libco.Base.{
  ℕ, ◌+◌, ◌-◌, ◌^◌, ◌≤◌, ◌<◌, ◌≡◌, ◌≢◌, arith, true, has, has-append, length, ◌++◌, Ptr, null, inl,
  inr, eq-cases, ap, zero, suc, ◌∙◌, sym,
}
use Prim.Native.Nat.{min}
use native.Mathlib.Decide.{dec_lt}
use jkyi_libco.Base.Run.{ok}
use jkyi_libco.Link.{Store}
use jkyi_libco.Link.View.{Lists, Represents, allocated}
use jkyi_libco.Timeout.{Wheel, slot, begin, due, take_all_timeout}
use jkyi_libco.Timeout.Slots.{IsWheel, IsSlot, slot-injective, slot_wrap, slot_turn}
use jkyi_libco.Timeout.Add.{InTime, OnTime}
use jkyi_libco.Timeout.Take.{
  gather, after_take, take_slots-Updates, after_take-other, after_take-slot, after_take_result,
  slot-ne,
}

-- The number of slots that TakeAllTimeout takes.
abbrev pub count_due : Wheel → ℕ → ℕ
count_due w now = min (now - w.start + 1) w.size

-- The wheel after that.
abbrev pub turned : Wheel → ℕ → Wheel
turned w now = record w { start = now; idx = w.idx + (count_due w now - 1) }

pub gather-mem :
    (w : Wheel) (L : Lists) (i rounds j : ℕ) (p : Ptr)
    → i ≤ j
    → j < i + rounds
    → has p (L (slot w j)) ≡ true
    → has p (gather w L i rounds) ≡ true
unfolding gather
gather-mem w L i zero j p a b h = absurd (omega arith)
gather-mem w L i (suc rounds) j p a b h = elim (eq-cases i j) [
  | inl e ↦ ground (
    arith,
    has-append p (L (slot w i)) (gather w L (i + 1) rounds),
    ap (λ (k : ℕ). has p (L (slot w k))) e,
  )
  | inr ne ↦ ground (
    arith,
    has-append p (L (slot w i)) (gather w L (i + 1) rounds),
    gather-mem w L (i + 1) rounds j p (omega arith) (omega arith) h,
  )
]

module _ (w : Wheel) (result : Ptr) (now : ℕ) (L : Lists) (v : IsWheel w)
    (apart : ¬ (IsSlot w result)) (nn : result ≢ null) (since : w.start ≤ now) where
  abbrev pub taken : Lists
  taken = after_take w result 0 (count_due w now) L

  pub take_all-Updates :
      now - w.start + 1 < 2 ^ 31
      → (fuel : ℕ) (s : Store) → Represents s L
      → ((d : ℕ) → length (L (slot w d)) < fuel)
      → (t : Store) × (take_all_timeout fuel w now result s ≡ ok (turned w now, t))
        × Represents t taken
        × ((q : Ptr) → allocated t q ≡ allocated s q)
  unfolding take_all_timeout begin due
  take_all-Updates short fuel s r enough =
      let (t, run, r', same) =
        take_slots-Updates w result v apart nn fuel 0 (count_due w now) s L r
          (omega (arith, v.int_size)) enough in
      (
        t,
        ground (arith, v.begun, v.small_start, v.small_idx, v.int_size, v.has_slots, run),
        r',
        same,
      )

  emptied : (j : ℕ) (p : Ptr) → j < count_due w now → has p (taken (slot w j)) ≡ true → ⊥
  emptied j p lt m = ground (
    arith,
    after_take-slot w result v apart nn 0 (count_due w now) L j (omega arith) (omega arith)
        (omega arith),
  )

  turned_at : (d : ℕ) → d < w.size → slot (turned w now) d ≡ slot w (count_due w now - 1 + d)
  turned_at d lt = slot_turn w v now (count_due w now - 1) d (omega (arith, v.int_size))

  wrapped :
      (d : ℕ)
      → d < w.size
      → w.size ≤ count_due w now - 1 + d
      → slot w (count_due w now - 1 + d) ≡ slot w (count_due w now - 1 + d - w.size)
  wrapped d lt over =
      let e : count_due w now - 1 + d ≡ count_due w now - 1 + d - w.size + w.size = omega arith in
      ap (slot w) e ∙ slot_wrap w v (count_due w now - 1 + d - w.size) (omega (arith, v.has_slots))

  -- What stands in a slot of the turned wheel stood in a later slot of the wheel before.
  turned-slot :
      (d : ℕ) (p : Ptr)
      → d < w.size
      → has p (taken (slot (turned w now) d)) ≡ true
      → (count_due w now + d ≤ w.size)
        × (1 ≤ d)
        × (has p (L (slot w (count_due w now - 1 + d))) ≡ true)
  turned-slot d p lt m = elim (dec_lt (count_due w now - 1 + d) w.size) [
    | no over ↦ absurd (
        emptied (count_due w now - 1 + d - w.size) p (omega (arith, v.has_slots))
          (rw (← wrapped d lt (omega arith)) at_w))
    | yes inside ↦ elim (eq-cases d 0) [
      | inl first ↦ absurd (emptied (count_due w now - 1 + d) p (omega (arith, v.has_slots)) at_w)
      | inr later ↦ (omega (arith, v.has_slots), omega arith, rw (← kept inside later) at_w)
    ]
  ]
    where
      at_w : has p (taken (slot w (count_due w now - 1 + d))) ≡ true
      at_w = rw (← turned_at d lt) m

      kept :
          count_due w now - 1 + d < w.size
          → d ≢ 0
          → taken (slot w (count_due w now - 1 + d)) ≡ L (slot w (count_due w now - 1 + d))
      kept inside later =
          after_take-other w result v apart nn 0 (count_due w now) L
            (slot w (count_due w now - 1 + d))
            (λ e. slot-ne w result v apart nn (count_due w now - 1 + d) (sym e))
            λ j a b e.
              later (
                omega
                  (arith, slot-injective w v (count_due w now - 1 + d) j inside (omega arith) e))

  take_all-InTime : (expire : Ptr → ℕ) → InTime w L expire → InTime (turned w now) taken expire
  take_all-InTime expire h d p lt m =
      let (fits, pos, at) = turned-slot d p lt m in
      omega (arith, h (count_due w now - 1 + d) p (omega arith) at)

  pub take_all-OnTime : (expire : Ptr → ℕ) → OnTime w L expire → OnTime (turned w now) taken expire
  take_all-OnTime expire h d p lt m =
      let (fits, pos, at) = turned-slot d p lt m in
      omega (arith, h (count_due w now - 1 + d) p (omega arith) at)

  -- What stands in a slot that is not taken stays, in the turned wheel's slot for that time.
  pub not_taken : (d : ℕ) → d < w.size → count_due w now ≤ d → taken (slot w d) ≡ L (slot w d)
  not_taken d lt past =
      after_take-other w result v apart nn 0 (count_due w now) L (slot w d)
        (λ e. slot-ne w result v apart nn d (sym e))
        λ j a b e. omega (arith, slot-injective w v d j lt (omega arith) e)

  pub stays :
      (d : ℕ) (p : Ptr)
      → d < w.size
      → count_due w now ≤ d
      → taken (slot (turned w now) (d - (count_due w now - 1))) ≡ L (slot w d)
  stays d p lt past =
      let e : count_due w now - 1 + (d - (count_due w now - 1)) ≡ d = omega arith in
      ap taken (turned_at (d - (count_due w now - 1)) (omega (arith, v.has_slots)))
      ∙ rw e (not_taken d lt past)

  module _ (short : now - w.start + 1 < 2 ^ 31) (fuel : ℕ) (s : Store) (r : Represents s L)
      (enough : (d : ℕ) → length (L (slot w d)) < fuel) (expire : Ptr → ℕ) where
    -- The clock has moved less than 2 ^ 31 - 1 milliseconds since the last call, and Join has more
    -- rounds than any slot holds timers. Then TakeAllTimeout ends without a fault. The wheel stands
    -- at `now`, the timers of the due slots stand behind what was in the result, in the order of
    -- the slots, and if no timer was late, none that stays on the wheel is.
    pub take_all_timeout-takes :
        InTime w L expire
        → (t : Store) × (L' : Lists) × (take_all_timeout fuel w now result s ≡ ok (turned w now, t))
          × Represents t L'
          × (L' result ≡ L result ++ gather w L 0 (count_due w now))
          × InTime (turned w now) L' expire
    take_all_timeout-takes h =
        let (t, run, r', same) = take_all-Updates short fuel s r enough in
        (
          t,
          taken,
          run,
          r',
          after_take_result w result v apart nn 0 (count_due w now) L (omega arith),
          take_all-InTime expire h,
        )
