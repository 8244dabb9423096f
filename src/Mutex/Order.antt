-- ===== src/Mutex/Order.antt =====
-- In which order coroutines get a clsCoMutex.
use jkyi_libco.Base.{
  ◌+◌, ◌≡◌, ◌≢◌, sym, ap, ◌∙◌, List, [], ◌++◌, append_assoc, arith, Ptr, null, length,
  length-append,
}
use jkyi_libco.Link.{Store}
use jkyi_libco.Link.View.{Lists, Represents}
use jkyi_libco.Mutex.{make_mutex}
use jkyi_libco.Mutex.Protocol.{System, Trace, start, step, asks, enters, IsLock}
use jkyi_libco.Mutex.Steps.{Step-IsLock}
use jkyi_libco.Mutex.Exclusion.{fresh-IsLock}

-- What has been asked for is what has been got, and then those that have been woken, and then the
-- queue.
Trace-IsLock :
    (active cond : Ptr) {s t : System} {asked entered : List Ptr}
    → cond ≢ null
    → active ≢ null
    → (C : Lists) → IsLock cond C s
    → s.woken ++ C cond ≡ []
    → Trace active s asked entered t
    → (D : Lists) × IsLock cond D t × (asked ≡ entered ++ (t.woken ++ D cond))
Trace-IsLock active cond nc na C i e start = (C, i, sym e)
Trace-IsLock active cond nc na C i e (step {asked} {entered} {t} {u} r st) =
    let (D, j, before) = Trace-IsLock active cond nc na C i e r in
    let (E, k, order) = Step-IsLock active cond nc na t D j st in
    (
      E,
      k,
      ap (λ (l : List Ptr). l ++ asks st) before
          ∙ append_assoc entered (t.woken ++ D cond) (asks st)
          ∙ ap (◌++◌ entered) (sym order)
          ∙ sym (append_assoc entered (enters st) (u.woken ++ E cond)),
    )

-- From a fresh mutex, coroutines lock, unlock while they hold the lock, and run on after they have
-- been woken. Then those that have got the lock have got it in the order in which they asked for it,
-- and those that have asked and not got it are as many as the count of the mutex says, less the one
-- that holds it.
pub lock_order :
    (active cond : Ptr) {t : System} {asked entered : List Ptr} (items : Store) (C : Lists)
    → cond ≢ null
    → active ≢ null
    → Represents items C
    → C cond ≡ []
    → Trace active
        (record { mutex = make_mutex cond; items = items; holders = 0; woken = [] })
        asked
        entered
        t
    → (later : List Ptr) × (asked ≡ entered ++ later) × (t.mutex.count ≡ t.holders + length later)
lock_order active cond {t} items C nc na r e trace =
    let (D, i, order) = Trace-IsLock active cond nc na C (fresh-IsLock cond items C r e) e trace in
    (t.woken ++ D cond, order, omega (arith, i.counted, length-append t.woken (D cond)))
