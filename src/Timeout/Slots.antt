-- ===== src/Timeout/Slots.antt =====
-- The arithmetic of the slots.
use jkyi_libco.Base.{ℕ, ◌+◌, ◌%◌, ◌^◌, ◌≤◌, ◌<◌, ◌≡◌, ◌≢◌, arith}
use native.Mathlib.Nat.{add-mod_right, add_assoc}
use jkyi_libco.Base.Run.{ok}
use jkyi_libco.Timeout.{Wheel, u64, slot, take_slot}

-- The wheel is in use, and its counters are far from wrapping.
pub record IsWheel (w : Wheel) : Type 0 where
  pub begun : 0 < w.start
  pub has_slots : 0 < w.size
  pub int_size : w.size < 2 ^ 31
  pub small_start : w.start < 2 ^ 62
  pub small_idx : w.idx < 2 ^ 62
  pub has_items : 0 < w.items

-- The addresses of the slots.
abbrev pub IsSlot : Wheel → ℕ → Type 0
IsSlot w k = (w.items ≤ k) × (k < w.items + w.size)

mod-shift-injective : (a n d e : ℕ) → d < n → e < n → (a + d) % n ≡ (a + e) % n → d ≡ e
mod-shift-injective a n d e p q h = grind arith

module _ (w : Wheel) (v : IsWheel w) where
  small : (d : ℕ) → d < 2 ^ 62 → (w.idx + d) % u64 ≡ w.idx + d
  small d h = omega (arith, v.small_idx)

  pub slot_lem : (d : ℕ) → d < 2 ^ 62 → slot w d ≡ w.items + (w.idx + d) % w.size
  unfolding slot
  slot_lem d h = rw (small d h)

  pub take_slot_lem : (d : ℕ) → d < 2 ^ 62 → take_slot w d ≡ ok (slot w d)
  unfolding take_slot slot
  take_slot_lem d h = rw (small d h) (ground (arith, v.small_idx))

  pub slot-IsSlot : (d : ℕ) → IsSlot w (slot w d)
  unfolding slot
  slot-IsSlot d = (omega arith, omega (arith, v.has_slots))

  pub slot-ne-null : (d : ℕ) → slot w d ≢ 0
  slot-ne-null d = omega (arith, slot-IsSlot d, v.has_items)

  pub slot-injective : (d e : ℕ) → d < w.size → e < w.size → slot w d ≡ slot w e → d ≡ e
  slot-injective d e p q h = mod-shift-injective w.idx w.size d e p q (
      omega (arith, slot_lem d (omega (arith, v.int_size)), slot_lem e (omega (arith, v.int_size))))

  pub slot_wrap : (d : ℕ) → d < w.size → slot w (d + w.size) ≡ slot w d
  slot_wrap d h =
      rw (slot_lem (d + w.size) (omega (arith, v.int_size)), slot_lem d (omega (arith, v.int_size)))
        (rw (← add_assoc w.idx d w.size, add-mod_right))

  -- Turning the wheel by `k` slots.
  pub slot_turn :
      (now k d : ℕ)
      → k + d < 2 ^ 62
      → slot (record w { start = now; idx = w.idx + k }) d ≡ slot w (k + d)
  unfolding slot
  slot_turn now k d h = ground (arith, small (k + d) h, v.small_idx)
