-- ===== src/Timeout/Add.antt =====
-- AddTimeout.
use jkyi_libco.Base.{
  ℕ, ◌+◌, ◌-◌, ◌≤◌, ◌<◌, ◌≡◌, arith, true, false, ltb, ◌==◌, if◌then◌else◌, some, has, has-append,
  [], ◌∷◌, ◌++◌, Ptr, null, inl, inr, eq-cases, ◌⊎◌, ap, subst,
}
use Prim.Native.Nat.{min}
use jkyi_libco.Base.Run.{ok}
use jkyi_libco.Link.{Node, Store, write, add_tail}
use jkyi_libco.Link.View.{Lists, Represents, Updates, allocated, not-mem_of_free}
use jkyi_libco.Link.AddTail.{add_tail-Updates}
use jkyi_libco.Timeout.{Wheel, u64, slot, distance, begin, add_timeout, not_begun, already_expired}
use jkyi_libco.Timeout.Slots.{IsWheel, slot-ne-null, slot-injective}

-- Every timer stands in a slot that is taken at its time or before.
abbrev pub InTime : Wheel → Lists → (Ptr → ℕ) → Type 0
InTime w L expire =
    (d : ℕ) (p : Ptr) → d < w.size → has p (L (slot w d)) ≡ true → w.start + d ≤ expire p

-- Every timer stands in the slot of its time.
abbrev pub OnTime : Wheel → Lists → (Ptr → ℕ) → Type 0
OnTime w L expire =
    (d : ℕ) (p : Ptr) → d < w.size → has p (L (slot w d)) ≡ true → w.start + d ≡ expire p

module _ (w : Wheel) (v : IsWheel w) where
  -- The slot is that of the deadline, or the last one of the wheel.
  distance_lem :
      (expire : ℕ)
      → w.start ≤ expire
      → expire < u64
      → distance w expire ≡ min (expire - w.start) (w.size - 1)
  unfolding distance
  distance_lem expire p q = ground (arith, v.has_slots, v.small_start)

  distance-lt : (expire : ℕ) → distance w expire < w.size
  unfolding distance
  distance-lt expire = ground (arith, v.has_slots)

module _ (w : Wheel) (p : Ptr) (expire : Ptr → ℕ) (now : ℕ) (s : Store) (v : IsWheel w) where
  begin_lem : begin w now ≡ w
  unfolding begin
  begin_lem = ground (arith, v.begun)

  -- On a wheel that is in use, a time before the wheel's is refused, and so is a timer that has run
  -- out already; AddTimeout returns the number of its line, and nothing changes.
  pub add_timeout-refused :
      (now < w.start) ⊎ (expire p < now)
      → add_timeout w p expire now s
        ≡ ok (if ltb now w.start then not_begun else already_expired, w, s)
  unfolding add_timeout
  add_timeout-refused h = ground (arith, begin_lem)

  module _ (L : Lists) (n : Node) (r : Represents s L) (e : s.node p ≡ some n)
      (free : n.link ≡ null) (since : w.start ≤ now) (later : now ≤ expire p) where
    abbrev pub place : Ptr
    place = slot w (min (expire p - w.start) (w.size - 1))

    abbrev pub added : Lists
    added = write L place (L place ++ p ∷ [])

    add_timeout-ok :
        expire p < u64
        → (t : Store) → add_tail place p s ≡ ok t
        → add_timeout w p expire now s ≡ ok (0, w, t)
    unfolding add_timeout
    add_timeout-ok small t h =
        ground (arith, begin_lem, h, v.has_slots, distance_lem w v (expire p) (omega arith) small)

    pub add_timeout-Updates :
        expire p < u64
        → (t : Store) × (add_timeout w p expire now s ≡ ok (0, w, t))
          × Represents t added
          × ((q : Ptr) → allocated t q ≡ allocated s q)
    add_timeout-Updates small = go (add_tail-Updates s L place p n r e (slot-ne-null w v _))
      where
        go :
            Updates s (add_tail place p s) (if n.link == null then added else L)
            → (t : Store) × (add_timeout w p expire now s ≡ ok (0, w, t))
              × Represents t added
              × ((q : Ptr) → allocated t q ≡ allocated s q)
        go (t, run, r', same) =
            (t, add_timeout-ok small t run, subst (Represents t) (ground (arith, free)) r', same)

    absent : (k : Ptr) → has p (L k) ≡ false
    absent k = not-mem_of_free s L p n k r e free

    only_place :
        (d q : ℕ)
        → d < w.size
        → has q (added (slot w d)) ≡ true
        → q ≡ p
        → d ≡ min (expire p - w.start) (w.size - 1)
    only_place d q lt m same = elim (eq-cases (slot w d) place) [
      | inl at ↦
          slot-injective w v d (min (expire p - w.start) (w.size - 1)) lt
            (omega (arith, v.has_slots)) at
      | inr ne ↦ absurd (ground (arith, absent (slot w d)))
    ]

    added-OnTime : expire p < w.start + w.size → OnTime w L expire → OnTime w added expire
    added-OnTime near h d q lt m = elim (eq-cases q p) [
      | inl same ↦ omega (arith, only_place d q lt m same, ap expire same)
      | inr ne ↦ h d q lt (ground (arith, has-append q (L place) (p ∷ [])))
    ]

    pub add_timeout-OnTime :
        expire p < u64
        → expire p < w.start + w.size
        → OnTime w L expire
        → (t : Store) × (add_timeout w p expire now s ≡ ok (0, w, t))
          × Represents t
              (write L (slot w (expire p - w.start)) (L (slot w (expire p - w.start)) ++ p ∷ []))
          × OnTime w
              (write L (slot w (expire p - w.start)) (L (slot w (expire p - w.start)) ++ p ∷ []))
              expire
    add_timeout-OnTime small near h =
        let (t, run, r', same) = add_timeout-Updates small in
        let at : min (expire p - w.start) (w.size - 1) ≡ expire p - w.start = omega arith in
        (
          t,
          run,
          subst (λ (d : ℕ). Represents t (write L (slot w d) (L (slot w d) ++ p ∷ []))) at r',
          subst (λ (d : ℕ). OnTime w (write L (slot w d) (L (slot w d) ++ p ∷ [])) expire) at
              (added-OnTime near h),
        )
