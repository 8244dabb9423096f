-- ===== src/Mutex/Exclusion.antt =====
-- At most one coroutine is inside the lock, in whatever order they lock, unlock and run.
use jkyi_libco.Base.{
  ◌+◌, ◌≡◌, ◌≢◌, refl, [], arith, Ptr, null, length, eq-cases, inl, inr, ◌⊎◌, ap, nil_of_length,
}
use jkyi_libco.Link.{Store}
use jkyi_libco.Link.View.{Lists, Represents}
use jkyi_libco.Mutex.{make_mutex}
use jkyi_libco.Mutex.Protocol.{System, Reach, here, next, IsLock}
use jkyi_libco.Mutex.Steps.{Step-IsLock}

Reach-IsLock :
    (active cond : Ptr) {s t : System}
    → cond ≢ null
    → active ≢ null
    → (C : Lists) → IsLock cond C s
    → Reach active s t
    → (D : Lists) × IsLock cond D t
Reach-IsLock active cond nc na C i here = (C, i)
Reach-IsLock active cond {s} nc na C i (next {t} r st) =
    let (D, j) = Reach-IsLock active cond nc na C i r in
    let (E, k, order) = Step-IsLock active cond nc na t D j st in (E, k)

-- A mutex for which nobody waits.
pub fresh-IsLock :
    (cond : Ptr) (items : Store) (C : Lists)
    → Represents items C
    → C cond ≡ []
    → IsLock cond C (record { mutex = make_mutex cond; items = items; holders = 0; woken = [] })
unfolding make_mutex
fresh-IsLock cond items C r e = record {
  view = r;
  same = refl;
  counted = omega (arith, ap length e);
  single = omega arith;
  busy = λ h. absurd (omega (arith, ap length e));
  small = omega arith;
  alive = λ x h. cc;
}

settled :
    (cond : Ptr) (t : System) (C : Lists)
    → IsLock cond C t
    → (t.holders + length t.woken ≡ 1)
      ⊎ ((t.holders + length t.woken ≡ 0) × ((t.items.ends cond).head ≡ null))
settled cond t C i = elim (eq-cases (t.holders + length t.woken) 0) [
  | inl free ↦ inr (
    free,
    ground (
      arith,
      i.view.ends cond,
      nil_of_length (C cond) (elim (eq-cases (length (C cond)) 0) [
        | inl e ↦ e
        | inr some_wait ↦ absurd (omega (arith, i.busy (omega arith)))
      ]),
    ),
  )
  | inr taken ↦ inl (omega (arith, i.single))
]

-- In every state that coroutines reach from a fresh mutex by locking, by unlocking while they hold
-- it, and by running on after they have been woken, either one of them holds the lock or has been
-- woken to take it, and no other does, or none does and then nobody waits.
pub mutual_exclusion :
    (active cond : Ptr) {t : System} (items : Store) (C : Lists)
    → cond ≢ null
    → active ≢ null
    → Represents items C
    → C cond ≡ []
    → Reach active (record { mutex = make_mutex cond; items = items; holders = 0; woken = [] }) t
    → (t.holders + length t.woken ≡ 1)
      ⊎ ((t.holders + length t.woken ≡ 0) × ((t.items.ends cond).head ≡ null))
mutual_exclusion active cond {t} items C nc na r e reach =
    let (D, i) = Reach-IsLock active cond nc na C (fresh-IsLock cond items C r e) reach in
    settled cond t D i
