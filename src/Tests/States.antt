-- ===== src/Tests/States.antt =====
-- The stores of the tests: items 1 and 2 in the list 100, item 3 in the list 200, item 4 in none.
use jkyi_libco.Base.{
  ℕ, refl, none, some, [], ◌∷◌, arith, Ptr, ◌==◌, if◌then◌else◌, inl, inr, eq-cases, ==_ne, length,
  ◌<◌,
}
use jkyi_libco.Link.{Node, Store, detached, no_ends, Ends}
use jkyi_libco.Link.View.{Lists, Represents}
use jkyi_libco.Timeout.{Wheel, slot}
use jkyi_libco.Timeout.Slots.{IsWheel}
use jkyi_libco.Timeout.Add.{OnTime, InTime}

abbrev pub node : Ptr → Ptr → Ptr → Node
node p n l = record { prev = p; next = n; link = l }

abbrev pub ends : Ptr → Ptr → Ends
ends h t = record { head = h; tail = t }

abbrev pub store : Store
store = record {
  node = λ p.
      if p == 1
      then some (node 0 2 100)
      else if p == 2
      then some (node 1 0 100)
      else if p == 3
      then some (node 0 0 200)
      else if p == 4
      then some detached
      else none;
  ends = λ l. if l == 100 then ends 1 2 else if l == 200 then ends 3 3 else no_ends;
}

abbrev pub lists : Lists
lists l = if l == 100 then 1 ∷ 2 ∷ [] else if l == 200 then 3 ∷ [] else []

pub store-Represents : Represents store lists
store-Represents = record {
  null_free = refl;
  no_null_list = refl;
  ends = λ l. ground arith;
  chain = λ l. elim (eq-cases l 100) [
    | inl e ↦ rw e (refl, (refl, tt))
    | inr n ↦
        rw (==_ne l 100 n)
          (elim (eq-cases l 200) [ inl e ↦ rw e (refl, tt) | inr n' ↦ rw (==_ne l 200 n') tt ])
  ];
  distinct = λ l. elim (eq-cases l 100) [
    | inl e ↦ rw e (refl, (refl, tt))
    | inr n ↦
        rw (==_ne l 100 n)
          (elim (eq-cases l 200) [ inl e ↦ rw e (refl, tt) | inr n' ↦ rw (==_ne l 200 n') tt ])
  ];
  member = λ p n e h. ground arith;
}

-- A wheel whose slots hold the two lists: at 11 and at 111 milliseconds.
abbrev pub wheel : Wheel
wheel = record { items = 99; size = 102; start = 10; idx = 0 }

abbrev pub expire : Ptr → ℕ
expire p = if p == 3 then 111 else if p == 4 then 15 else 11

pub wheel-IsWheel : IsWheel wheel
wheel-IsWheel = record {
  begun = omega arith;
  has_slots = omega arith;
  int_size = omega arith;
  small_start = omega arith;
  small_idx = omega arith;
  has_items = omega arith;
}

pub wheel-OnTime : OnTime wheel lists expire
unfolding slot
wheel-OnTime d p lt m = ground arith

pub wheel-InTime : InTime wheel lists expire
unfolding slot
wheel-InTime d p lt m = ground arith

pub wheel_short : (d : ℕ) → length (lists (slot wheel d)) < 5
unfolding slot
wheel_short d = ground arith

-- The wheel with as many slots as AllocEpoll gives it.
abbrev pub wide : Wheel
wide = record wheel { size = 60000 }

pub wide-IsWheel : IsWheel wide
wide-IsWheel = record {
  begun = omega arith;
  has_slots = omega arith;
  int_size = omega arith;
  small_start = omega arith;
  small_idx = omega arith;
  has_items = omega arith;
}
