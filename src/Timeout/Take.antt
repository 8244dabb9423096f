-- ===== src/Timeout/Take.antt =====
-- TakeAllTimeout: which lists it empties, and that it ends.
use jkyi_libco.Base.{
  ℕ, ◌+◌, ◌^◌, ◌≤◌, ◌<◌, ◌≡◌, refl, ◌≢◌, arith, length, length-append, ◌*◌, List, [], ◌++◌, Ptr,
  null, inl, inr, ◌⊎◌, eq-cases, zero, suc, append-nil, append_assoc, ==_refl, ◌∙◌, sym,
}
use jkyi_libco.Link.{Store, write}
use jkyi_libco.Link.View.{Lists, Represents, Updates}
use jkyi_libco.Link.Join.{join-Updates}
use jkyi_libco.Timeout.{Wheel, slot, take_slots}
use jkyi_libco.Timeout.Slots.{IsWheel, IsSlot, slot-IsSlot, slot-injective, take_slot_lem}

-- The timers of the slots `i`, `i + 1`, … in order.
unfoldable pub gather : Wheel → Lists → (i rounds : ℕ) → List Ptr
gather w L i zero = []
gather w L i (suc rounds) = L (slot w i) ++ gather w L (i + 1) rounds

pub length-gather :
    (w : Wheel) (L : Lists) (i rounds most : ℕ)
    → ((d : ℕ) → length (L (slot w d)) ≤ most)
    → length (gather w L i rounds) ≤ rounds * most
unfolding gather
length-gather w L i zero most h = omega arith
length-gather w L i (suc rounds) most h = grind (
  arith,
  h i,
  length-gather w L (i + 1) rounds most h,
  length-append (L (slot w i)) (gather w L (i + 1) rounds),
)

-- The lists after these slots have been taken into `result`.
pub after_take : Wheel → Ptr → (i rounds : ℕ) → Lists → Lists
after_take w result i zero L = L
after_take w result i (suc rounds) L =
    after_take w result (i + 1) rounds
      (write (write L result (L result ++ L (slot w i))) (slot w i) [])

module _ (w : Wheel) (result : Ptr) (v : IsWheel w) (apart : ¬ (IsSlot w result))
    (nn : result ≢ null) where
  pub slot-ne : (i : ℕ) → result ≢ slot w i
  slot-ne i e = apart (ground (arith, slot-IsSlot w v i))

  -- With more rounds for Join than any slot holds timers, the loop ends without a fault.
  pub take_slots-Updates :
      (fuel i rounds : ℕ) (s : Store) (L : Lists)
      → Represents s L
      → i + rounds ≤ 2 ^ 62
      → ((d : ℕ) → length (L (slot w d)) < fuel)
      → Updates s (take_slots fuel w i rounds result s) (after_take w result i rounds L)
  unfolding take_slots after_take
  take_slots-Updates fuel i zero s L r h enough = (s, refl, r, λ q. refl)
  take_slots-Updates fuel i (suc rounds) s L r h enough =
      let L' : Lists = write (write L result (L result ++ L (slot w i))) (slot w i) [] in
      let (t, run, r', same) =
        join-Updates fuel s L result (slot w i) r (slot-ne i) nn (enough i) in
      let (u, run', r'', same') =
        take_slots-Updates fuel (i + 1) rounds t L' r' (omega arith)
          (λ d. ground (arith, enough d, slot-ne d)) in
      (
        u,
        ground (arith, take_slot_lem w v i (omega arith), run, run'),
        r'',
        λ q. ground (arith, same q, same' q),
      )

  -- What is neither the result nor a slot that is taken stays.
  pub after_take-other :
      (i rounds : ℕ) (L : Lists) (k : Ptr)
      → k ≢ result
      → ((j : ℕ) → i ≤ j → j < i + rounds → k ≢ slot w j)
      → after_take w result i rounds L k ≡ L k
  unfolding after_take
  after_take-other i zero L k ne out = refl
  after_take-other i (suc rounds) L k ne out =
      after_take-other (i + 1) rounds
        (write (write L result (L result ++ L (slot w i))) (slot w i) []) k ne
        (λ j a b. out j (omega arith) (omega arith))
      ∙ ground (arith, out i (omega arith) (omega arith))

  -- Another list stays or becomes empty.
  pub after_take-cases :
      (i rounds : ℕ) (L : Lists) (k : Ptr)
      → k ≢ result
      → (after_take w result i rounds L k ≡ L k) ⊎ (after_take w result i rounds L k ≡ [])
  unfolding after_take
  after_take-cases i zero L k ne = inl refl
  after_take-cases i (suc rounds) L k ne = ground (
    arith,
    after_take-cases (i + 1) rounds
        (write (write L result (L result ++ L (slot w i))) (slot w i) []) k ne,
  )

  gather-agree :
      (i rounds : ℕ) (L M : Lists)
      → ((j : ℕ) → i ≤ j → j < i + rounds → L (slot w j) ≡ M (slot w j))
      → gather w L i rounds ≡ gather w M i rounds
  unfolding gather
  gather-agree i zero L M h = refl
  gather-agree i (suc rounds) L M h = ground (
    arith,
    h i (omega arith) (omega arith),
    gather-agree (i + 1) rounds L M λ j a b. h j (omega arith) (omega arith),
  )

  apart_slots : (i j : ℕ) → i < j → j < w.size → slot w i ≢ slot w j
  apart_slots i j h q e = omega (arith, slot-injective w v i j (omega arith) q e)

  -- A slot that is taken is empty.
  pub after_take-slot :
      (i rounds : ℕ) (L : Lists) (j : ℕ)
      → i + rounds ≤ w.size
      → i ≤ j
      → j < i + rounds
      → after_take w result i rounds L (slot w j) ≡ []
  unfolding after_take
  after_take-slot i zero L j h a b = absurd (omega arith)
  after_take-slot i (suc rounds) L j h a b =
      let L' : Lists = write (write L result (L result ++ L (slot w i))) (slot w i) [] in
      elim (eq-cases i j) [
        | inl e ↦ rw (← e) (
            after_take-other (i + 1) rounds L' (slot w i) (λ e'. slot-ne i (sym e'))
              (λ k c d. apart_slots i k (omega arith) (omega arith))
            ∙ ground (arith, ==_refl (slot w i)))
        | inr ne ↦ after_take-slot (i + 1) rounds L' j (omega arith) (omega arith) (omega arith)
      ]

  -- The result gets the timers of the slots, in the order of the slots.
  pub after_take_result :
      (i rounds : ℕ) (L : Lists)
      → i + rounds ≤ w.size
      → after_take w result i rounds L result ≡ L result ++ gather w L i rounds
  unfolding after_take gather
  after_take_result i zero L h = rw append-nil
  after_take_result i (suc rounds) L h =
      let L' : Lists = write (write L result (L result ++ L (slot w i))) (slot w i) [] in
      let at : L' result ≡ L result ++ L (slot w i) = ground (arith, slot-ne i, ==_refl result) in
      let rest : gather w L' (i + 1) rounds ≡ gather w L (i + 1) rounds =
        gather-agree (i + 1) rounds L' L
          λ j a b. ground (arith, slot-ne j, apart_slots i j (omega arith) (omega arith)) in
      after_take_result (i + 1) rounds L' (omega arith)
      ∙ rw (at, rest) (append_assoc (L result) (L (slot w i)) (gather w L (i + 1) rounds))
