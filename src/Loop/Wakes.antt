-- ===== src/Loop/Wakes.antt =====
-- co_eventloop (co_routine.cc, lines 689 to 748) over several rounds: a timer on the wheel is
-- processed when its deadline is over.
use jkyi_libco.Base.{
  ℕ, ◌+◌, ◌-◌, ◌*◌, ◌^◌, ◌≤◌, ◌<◌, ◌≡◌, ◌≢◌, ◌⊎◌, refl, sym, true, false, List, [], ◌++◌, inl, inr,
  arith, Ptr, null, length, length-append, has, has-append, subst, ◌∙◌,
}
use native.Mathlib.Decide.{dec_lt}
use jkyi_libco.Base.Run.{Run, ok}
use jkyi_libco.Link.View.{Lists, Represents}
use jkyi_libco.Timeout.{Wheel, slot}
use jkyi_libco.Timeout.Slots.{IsWheel, IsSlot, slot-IsSlot}
use jkyi_libco.Timeout.Add.{OnTime}
use jkyi_libco.Timeout.Take.{gather, length-gather, after_take-cases}
use jkyi_libco.Timeout.Expiry.{count_due, turned, taken, gather-mem, stays}
use jkyi_libco.Loop.{Sched, round}
use jkyi_libco.Loop.Drain.{run_all}
use jkyi_libco.Loop.Joined.{turned-IsSlot}
use jkyi_libco.Loop.Round.{round_kept}

pub turned-IsWheel :
    (w : Wheel) (now : ℕ)
    → IsWheel w
    → w.start ≤ now
    → now < 2 ^ 62
    → w.idx + (now - w.start) < 2 ^ 62
    → IsWheel (turned w now)
turned-IsWheel w now v since small idx = record {
  begun = omega (arith, v.begun);
  has_slots = v.has_slots;
  int_size = v.int_size;
  small_start = small;
  small_idx = omega arith;
  has_items = v.has_items;
}

scale : (a b c : ℕ) → a ≤ b → a * c ≤ b * c
scale a b c h = grind arith

-- Between two rounds every timer on the wheel stands in the slot of its deadline. The lists
-- `active` and `timeout` are no slots; `timeout` is empty and nothing active is marked as timed
-- out. No list has more than `most` items.
pub record IsLoop {W : Type 0} (active timeout most : ℕ) (s : Sched W) : Type 0 where
  pub L : Lists
  pub view : Represents s.timers L
  pub wheel : IsWheel s.wheel
  pub out_a : ¬ (IsSlot s.wheel active)
  pub out_t : ¬ (IsSlot s.wheel timeout)
  pub idle : L timeout ≡ []
  pub on_time : OnTime s.wheel L s.expire
  pub unmarked : (x : Ptr) → has x (L active) ≡ true → s.timed_out x ≡ false
  pub few : (k : Ptr) → IsSlot s.wheel k → length (L k) ≤ most
  pub few_active : length (L active) ≤ most

-- And the item `p` stands on the wheel.
pub record Waits {W : Type 0} (active timeout p most : ℕ) (s : Sched W) : Type 0 where
  pub loop : IsLoop active timeout most s
  pub place : ℕ
  pub on_wheel : place < s.wheel.size
  pub here : has p (loop.L (slot s.wheel place)) ≡ true

module _ {W : Type 0} (active timeout most : ℕ) (na : active ≢ null) (nt : timeout ≢ null) where
  -- What a round leaves is the state between two rounds again.
  pub IsLoop-left :
      (s z : Sched W) (now : ℕ) (x : IsLoop active timeout most s) (since : s.wheel.start ≤ now)
      (M : Lists)
      → now < 2 ^ 62
      → s.wheel.idx + (now - s.wheel.start) < 2 ^ 62
      → Represents z.timers M
      → M active ≡ []
      → M timeout ≡ []
      → z.wheel ≡ turned s.wheel now
      → OnTime z.wheel M z.expire
      → ((k : Ptr)
          → k ≢ active
          → k ≢ timeout
          → M k ≡ taken s.wheel timeout now x.L x.wheel x.out_t nt since k)
      → (y : IsLoop active timeout most z) × (y.L ≡ M)
  IsLoop-left s z now x since M small idx view none_a none_t wheel on_time kept =
      let few_left : (k : Ptr) → IsSlot s.wheel k → length (M k) ≤ most = λ k h.
        let off_t : k ≢ timeout = λ e. x.out_t (subst (IsSlot s.wheel) e h) in
        rw (kept k (λ e. x.out_a (subst (IsSlot s.wheel) e h)) off_t)
          (elim (after_take-cases s.wheel timeout x.wheel x.out_t nt 0 (count_due s.wheel now) x.L k
            off_t) [ inl e ↦ rw e (x.few k h) | inr e ↦ rw e (omega arith) ]) in
      (
        record {
          L = M;
          view = view;
          wheel = subst IsWheel (sym wheel) (turned-IsWheel s.wheel now x.wheel since small idx);
          out_a = subst (λ w. ¬ (IsSlot w active)) (sym wheel) x.out_a;
          out_t = subst (λ w. ¬ (IsSlot w timeout)) (sym wheel) x.out_t;
          idle = none_t;
          on_time = on_time;
          unmarked = λ q h. ground (arith, none_a);
          few = subst (λ w. (k : Ptr) → IsSlot w k → length (M k) ≤ most) (sym wheel) few_left;
          few_active = rw none_a (omega arith);
        },
        refl,
      )

  pub few_due :
      (s : Sched W) (now : ℕ) (x : IsLoop active timeout most s) (fuel : ℕ)
      → most + s.wheel.size * most < fuel
      → length (x.L active ++ gather s.wheel x.L 0 (count_due s.wheel now)) < fuel
  few_due s now x fuel more = omega (
    arith,
    length-gather s.wheel x.L 0 (count_due s.wheel now) most
        (λ d. x.few (slot s.wheel d) (slot-IsSlot s.wheel x.wheel d)),
    x.few_active,
    length-append (x.L active) (gather s.wheel x.L 0 (count_due s.wheel now)),
    scale (count_due s.wheel now) s.wheel.size most (omega arith),
  )

module _ {W : Type 0} (active timeout p most : ℕ) (na : active ≢ null) (nt : timeout ≢ null) where
  -- The wheel that has turned still holds an item whose deadline is to come.
  place_left :
      (s : Sched W) (now : ℕ) (x : Waits active timeout p most s) (since : s.wheel.start ≤ now)
      (M : Lists)
      → now < s.expire p
      → ((k : Ptr)
          → k ≢ active
          → k ≢ timeout
          → M k ≡ taken s.wheel timeout now x.loop.L x.loop.wheel x.loop.out_t nt since k)
      → M (slot (turned s.wheel now) (x.place - (count_due s.wheel now - 1)))
        ≡ x.loop.L (slot s.wheel x.place)
  place_left s now x since M early kept =
      let k = slot (turned s.wheel now) (x.place - (count_due s.wheel now - 1)) in
      let h = turned-IsSlot s.wheel x.loop.wheel now (x.place - (count_due s.wheel now - 1)) in
      let due_at : s.wheel.start + x.place ≡ s.expire p =
        x.loop.on_time x.place p x.on_wheel x.here in
      kept k (λ e. x.loop.out_a (subst (IsSlot s.wheel) e h))
        (λ e. x.loop.out_t (subst (IsSlot s.wheel) e h))
      ∙ stays s.wheel timeout now x.loop.L x.loop.wheel x.loop.out_t nt since x.place p x.on_wheel
          (omega (arith, due_at))

  due_here :
      (s : Sched W) (now : ℕ) (x : Waits active timeout p most s)
      → s.wheel.start ≤ now
      → s.expire p ≤ now
      → has p (x.loop.L active ++ gather s.wheel x.loop.L 0 (count_due s.wheel now)) ≡ true
  due_here s now x since over =
      let due_at : s.wheel.start + x.place ≡ s.expire p =
        x.loop.on_time x.place p x.on_wheel x.here in
      let due_p =
        gather-mem s.wheel x.loop.L 0 (count_due s.wheel now) x.place p (omega arith)
          (omega (arith, due_at, x.on_wheel)) x.here in
      ground (
        arith,
        has-append p (x.loop.L active) (gather s.wheel x.loop.L 0 (count_due s.wheel now)),
        due_p,
      )

  module _ (apart : active ≢ timeout) (process : Ptr → Sched W → Run (Sched W)) (act : Ptr → W → W)
      (runs : (q : Ptr) (s : Sched W) → process q s ≡ ok (record s { world = act q s.world })) where
    -- A round processes the item, or its deadline is still to come and it stays on the wheel.
    pub round_wakes :
        (s : Sched W) (now fuel : ℕ)
        → Waits active timeout p most s
        → s.wheel.start ≤ now
        → now - s.wheel.start + 1 < 2 ^ 31
        → now < 2 ^ 62
        → s.wheel.idx + (now - s.wheel.start) < 2 ^ 62
        → most < fuel
        → most + s.wheel.size * most < fuel
        → (z : Sched W) × (xs : List Ptr) × (round fuel active timeout [] now process s ≡ ok z)
          × (z.world ≡ run_all act xs s.world)
          × (z.wheel ≡ turned s.wheel now)
          × (z.expire ≡ s.expire)
          × ((has p xs ≡ true) ⊎ ((now < s.expire p) × Waits active timeout p most z))
    round_wakes s now fuel x since short small idx enough more =
        let (
          z, M, run, view, world, none_a, none_t, wheel, on_time, expire, polls, same_nodes, kept,
        ) =
          round_kept active timeout now process act runs s x.loop.L x.loop.view x.loop.wheel fuel na
            nt apart x.loop.out_a x.loop.out_t since short x.loop.idle x.loop.on_time
            x.loop.unmarked
            (λ d. omega (arith, x.loop.few (slot s.wheel d) (slot-IsSlot s.wheel x.loop.wheel d)))
            (few_due active timeout most na nt s now x.loop fuel more) in
        (
          z,
          x.loop.L active ++ gather s.wheel x.loop.L 0 (count_due s.wheel now),
          run,
          world,
          wheel,
          expire,
          elim (dec_lt now (s.expire p)) [
            | no over ↦ inl (due_here s now x since (omega arith))
            | yes early ↦
                let (loop, same) =
                  IsLoop-left active timeout most na nt s z now x.loop since M small idx view none_a
                    none_t wheel on_time kept in
                let turn = count_due s.wheel now - 1 in
                inr (
                  early,
                  record {
                    loop = loop;
                    place = x.place - turn;
                    on_wheel =
                        subst (λ w. x.place - turn < w.size) (sym wheel)
                          (omega (arith, x.on_wheel));
                    here = rw (same, wheel, place_left s now x since M early kept) x.here;
                  },
                )
          ],
        )
