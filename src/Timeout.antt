-- ===== src/Timeout.antt =====
-- The timing wheel of co_routine.cc: stTimeout_t, AddTimeout and TakeAllTimeout
-- (lines 301 to 378). One slot of the wheel is one millisecond.
pub mod Slots
pub mod Add
pub mod Take
pub mod Expiry
use jkyi_libco.Base.{
  ℕ, zero, suc, ◌+◌, ◌-◌, ◌%◌, ◌^◌, true, false, Ptr, null, ◌==◌, ltb, leb, if◌then◌else◌,
}
use jkyi_libco.Base.Run.{Run, ok, fault, ◌>>=◌}
use jkyi_libco.Link.{Store, Ends, no_ends, add_tail, join}

-- The moduli of `unsigned long long` and of `int`.
abbrev pub u64 : ℕ
u64 = 2 ^ 64

abbrev pub u32 : ℕ
u32 = 2 ^ 32

-- stTimeout_t. `items` is the address of the first slot, and slot `k` is the list at `items + k`.
-- `idx` is the two's complement word of the signed llStartIdx.
pub record Wheel : Type 0 where
  pub items : Ptr
  pub size : ℕ
  pub start : ℕ
  pub idx : ℕ

-- `if(ullStart == 0)`: the first use sets the time.
unfoldable pub begin : Wheel → ℕ → Wheel
begin w now = if w.start == 0 then record w { start = now; idx = 0 } else w

-- The slot that AddTimeout uses: the sum is unsigned.
unfoldable pub slot : Wheel → ℕ → Ptr
slot w diff = w.items + (w.idx + diff) % u64 % w.size

-- The slot that TakeAllTimeout uses: the sum is signed, and a negative remainder is an index in
-- front of the array.
unfoldable pub take_slot : Wheel → ℕ → Run Ptr
take_slot w i =
    let n = (w.idx + i) % u64 in
    if ltb n (2 ^ 63)
    then ok (w.items + n % w.size)
    else if (u64 - n) % w.size == 0
    then ok w.items
    else fault

-- The time to the deadline, cut to the last slot of the wheel.
unfoldable pub distance : Wheel → ℕ → ℕ
distance w expire =
    let diff = (expire + u64 - w.start) % u64 in if leb w.size diff then w.size - 1 else diff

-- What AddTimeout returns where it refuses: the numbers of its lines.
abbrev pub not_begun : ℕ
not_begun = 334

abbrev pub already_expired : ℕ
already_expired = 340

-- AddTimeout. `expire` is the field ullExpireTime of each item. A remainder by 0 is a fault.
unfoldable pub add_timeout : Wheel → Ptr → (Ptr → ℕ) → ℕ → Store → Run (ℕ × Wheel × Store)
unfolding begin slot distance
add_timeout w₀ item expire now s =
    let w = begin w₀ now in
    if ltb now w.start
    then ok (not_begun, w, s)
    else if ltb (expire item) now
    then ok (already_expired, w, s)
    else if w.size == 0
    then fault
    else (do s ← add_tail (slot w (distance w (expire item))) item s; ok (0, w, s))

-- The loop of TakeAllTimeout, with the rounds left.
unfoldable pub take_slots : ℕ → Wheel → (i rounds : ℕ) → Ptr → Store → Run Store
unfolding take_slot
take_slots fuel w i zero result s = ok s
take_slots fuel w i (suc rounds) result s = do
  at ← take_slot w i
  s ← join fuel result at s
  take_slots fuel w (i + 1) rounds result s

-- The number of slots that are due, as an `int`: its word.
unfoldable pub due : Wheel → ℕ → ℕ
due w now = (now + u64 - w.start + 1) % u64 % u32

-- TakeAllTimeout. `fuel` bounds the rounds of Join. An `int` whose word is 2 ^ 31 or more is
-- negative: it is not above iItemSize, and the code returns.
unfoldable pub take_all_timeout : ℕ → Wheel → ℕ → Ptr → Store → Run (Wheel × Store)
unfolding begin due take_slots
take_all_timeout fuel w₀ now result s =
    let w = begin w₀ now in
    if ltb now w.start
    then ok (w, s)
    else if leb (2 ^ 31) (due w now)
    then ok (w, s)
    else (let cnt = if ltb w.size (due w now) then w.size else due w now in
        do
          s ← take_slots fuel w 0 cnt result s
          ok (record w { start = now; idx = (w.idx + cnt + u64 - 1) % u64 }, s))
