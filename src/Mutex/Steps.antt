-- ===== src/Mutex/Steps.antt =====
-- What each step of the coroutines that use a clsCoMutex does to its queue.
use jkyi_libco.Base.{
  ℕ, ◌+◌, ◌-◌, ◌^◌, ◌<◌, ◌≡◌, ◌≢◌, refl, true, false, none, some, List, [], ◌∷◌, ◌++◌, arith, Ptr,
  null, length, length-append, ◌==◌, if◌then◌else◌, Bool, ==_refl, ==_ne, eq-cases, inl, inr,
  has-append, erase_absent, ap, sym, ◌∙◌, append-nil, append_assoc, nil_of_length, subst,
}
use jkyi_libco.Base.Run.{ok}
use jkyi_libco.Link.{Node, write}
use jkyi_libco.Link.View.{Lists, Represents, allocated, mem_allocated}
use jkyi_libco.Link.Remove.{without}
use jkyi_libco.Cond.{Sync, timeout_of}
use jkyi_libco.Cond.Signal.{allocated-node, cond_signal-empty, cond_signal-fifo}
use jkyi_libco.Cond.Wait.{timedwait_begin-untimed, timedwait_end-frees}
use jkyi_libco.Mutex.{co_lock, co_lock_resumed, co_unlock}
use jkyi_libco.Mutex.Protocol.{System, waiting, Step, locks, unlocks, resumes, asks, enters, IsLock}

module _ (active cond : Ptr) (nc : cond ≢ null) (na : active ≢ null) (s : System) (C : Lists)
    (i : IsLock cond C s) where
  module _ (psi self now : ℕ) (y : Sync) (L : Lists) (at : y.items ≡ s.items)
      (r : Represents y.timers L) (nn : psi ≢ null) (fresh : y.items.node psi ≡ none)
      (fresh' : y.timers.node (timeout_of psi) ≡ none) (room : s.mutex.count + 1 < 2 ^ 31) where
    abbrev Locked : Type 0
    Locked =
        (waits : Bool) × (z : Sync) × (co_lock psi self now s.mutex y
          ≡ ok (waits, record s.mutex { count = s.mutex.count + 1 }, z))
        × (D : Lists) × IsLock cond D (record {
          mutex = record s.mutex { count = s.mutex.count + 1 };
          items = z.items;
          holders = if waits then s.holders else s.holders + 1;
          woken = s.woken;
        })
        × ((if waits then [] else psi ∷ []) ++ (s.woken ++ D cond)
            ≡ (s.woken ++ C cond) ++ psi ∷ [])

    lock_free : s.mutex.count ≡ 0 → Locked
    unfolding co_lock
    lock_free free = (
      false,
      y,
      ground arith,
      C,
      record {
        view = rw at i.view;
        same = i.same;
        counted = omega (arith, i.counted);
        single = omega (arith, i.counted);
        busy = λ h. omega (arith, i.counted);
        small = room;
        alive = λ x h. ground (arith, i.alive x h, at);
      },
      (let empty : s.woken ++ C cond ≡ [] =
            nil_of_length (s.woken ++ C cond)
              (omega (arith, i.counted, free, length-append s.woken (C cond))) in
          rw empty refl),
    )

    lock_busy : 0 < s.mutex.count → Locked
    unfolding co_lock
    lock_busy taken =
        let (z, run, rz, rt, timer, arg, kept) =
          timedwait_begin-untimed cond psi self now y C L (rw at i.view) r nn fresh fresh' nc in
        (
          true,
          z,
          ground (arith, run, i.same),
          write C cond (C cond ++ psi ∷ []),
          record {
            view = rz;
            same = i.same;
            counted =
                omega (arith, i.counted, length-append (C cond) (psi ∷ []), ap length (own z));
            single = i.single;
            busy = λ h. ground (arith, i.counted, i.single, i.busy);
            small = room;
            alive = λ x h.
                let (n, e, out) = i.alive x h in
                let ne : x ≢ psi = ground (arith, at, fresh) in
                let (n', e') = allocated-node z.items x (ground (arith, kept x, at)) in
                (n', e', rw (own z) (ground (arith, has-append x (C cond) (psi ∷ []))));
          },
          rw (own z) (sym (append_assoc s.woken (C cond) (psi ∷ []))),
        )
      where
        own : (z : Sync) → write C cond (C cond ++ psi ∷ []) cond ≡ C cond ++ psi ∷ []
        own z = ground (arith, ==_refl cond)

    lock : Locked
    lock = elim (eq-cases s.mutex.count 0) [
      | inl free ↦ lock_free free
      | inr taken ↦ lock_busy (omega arith)
    ]

  -- Who has been woken once the lock has been given back.
  abbrev woken_next : List Ptr
  woken_next =
      let x = waiting s.items s.mutex.cond in if x == null then s.woken else s.woken ++ x ∷ []

  module _ (y : Sync) (L : Lists) (at : y.items ≡ s.items) (r : Represents y.timers L)
      (timers : (x : Ptr) → allocated y.items x ≡ true → allocated y.timers (timeout_of x) ≡ true)
      (held : 0 < s.holders) where
    abbrev Unlocked : Type 0
    Unlocked =
        (z : Sync) × (co_unlock active s.mutex y
          ≡ ok (record s.mutex { count = s.mutex.count - 1 }, z))
        × (D : Lists) × IsLock cond D (record {
          mutex = record s.mutex { count = s.mutex.count - 1 };
          items = z.items;
          holders = s.holders - 1;
          woken = woken_next;
        })
        × (woken_next ++ D cond ≡ s.woken ++ C cond)

    unlock : (xs : List Ptr) → C cond ≡ xs → Unlocked
    unfolding co_unlock
    unlock [] e =
        let run = cond_signal-empty active cond y C (rw at i.view) e in
        let idle : waiting s.items s.mutex.cond ≡ null = ground (arith, i.view.ends cond, i.same) in
        (
          y,
          ground (arith, run, i.same, i.counted, i.small),
          C,
          rw idle (record {
            view = rw at i.view;
            same = i.same;
            counted = omega (arith, i.counted);
            single = omega (arith, i.single);
            busy = λ h. absurd (omega (arith, ap length e));
            small = omega (arith, i.small);
            alive = λ x h. ground (arith, i.alive x h, at);
          }),
          rw idle refl,
        )
    unlock (x ∷ xs) e =
        let (n, en, link) = mem_allocated s.items C x cond i.view (ground (arith, e, ==_refl x)) in
        let nx : x ≢ null = ground (arith, i.view.null_free) in
        let first : waiting s.items s.mutex.cond ≡ x = ground (arith, i.view.ends cond, i.same) in
        let (si, ti, run, rs, rt, kept, same) =
          cond_signal-fifo active cond x xs y C L (rw at i.view) r (timers x (ground (arith, at)))
            na e in
        let none_woken : s.woken ≡ [] = nil_of_length s.woken (omega (arith, i.single)) in
        let own : write C cond xs cond ≡ xs = ground (arith, ==_refl cond) in
        (
          record y { items = si; timers = ti },
          ground (arith, run, i.same, i.counted, i.small),
          write C cond xs,
          rw (first, ==_ne x null nx, none_woken)
              (record {
                view = rs;
                same = i.same;
                counted =
                    omega (arith, i.counted, ap length own, ap length e, ap length none_woken);
                single = omega (arith, i.single);
                busy = λ h. omega (arith, i.single, ap length none_woken);
                small = omega (arith, i.small);
                alive = λ q h.
                    let is_x : q ≡ x = ground arith in
                    let (n', e') = allocated-node si q (ground (arith, kept q, at)) in
                    (n', e', rw own (ground (arith, i.view.distinct cond, e)));
              }),
          rw (first, ==_ne x null nx, own, e) (append_assoc s.woken (x ∷ []) xs),
        )

  module _ (psi : Ptr) (rest : List Ptr) (y : Sync) (L : Lists) (m : Node) (at : y.items ≡ s.items)
      (w : s.woken ≡ psi ∷ rest) (r : Represents y.timers L)
      (timer : y.timers.node (timeout_of psi) ≡ some m) (popped : m.link ≡ null) where
    resume :
        (z : Sync) × (co_lock_resumed psi y ≡ ok z)
        × (D : Lists) × IsLock cond D
            (record { mutex = s.mutex; items = z.items; holders = s.holders + 1; woken = rest })
        × (psi ∷ rest ++ D cond ≡ s.woken ++ C cond)
    unfolding co_lock_resumed
    resume =
        let (n, e, out) = i.alive psi (ground (arith, w, ==_refl psi)) in
        let (z, run, rz, rt, gone, gone', form, kept) =
          timedwait_end-frees psi y C L n m (rw at i.view) r (ground (arith, at)) timer popped in
        let none_left : rest ≡ [] = nil_of_length rest (omega (arith, i.single, ap length w)) in
        let own : without psi C cond ≡ C cond = erase_absent psi (C cond) out in
        (
          z,
          run,
          without psi C,
          record {
            view = rz;
            same = i.same;
            counted = omega (arith, i.counted, ap length own, ap length w);
            single = omega (arith, i.single, ap length w);
            busy = λ h. omega (arith, i.single, ap length w);
            small = i.small;
            alive = λ q h. absurd (ground (arith, none_left));
          },
          rw (own, w) refl,
        )

  -- The invariant holds again, and the queue changes at its two ends.
  pub Step-IsLock :
      {t : System} (st : Step active s t)
      → (D : Lists) × IsLock cond D t
        × (enters st ++ (t.woken ++ D cond) ≡ (s.woken ++ C cond) ++ asks st)
  Step-IsLock {t} (locks psi self now y z waits m L at r nn fresh fresh' room run e) =
      let (waits', z', run', D, i', order) = lock psi self now y L at r nn fresh fresh' room in
      (
        D,
        subst (IsLock cond D) (ground (arith, run, run', e)) i',
        ground (arith, run, run', e, order),
      )
  Step-IsLock {t} (unlocks y z m L at r timers held run e) =
      let (z', run', D, i', order) = unlock y L at r timers held (C cond) refl in
      (
        D,
        subst (IsLock cond D) (ground (arith, run, run', e)) i',
        ap (λ u. u.woken ++ D cond) e ∙ order ∙ sym (append-nil (s.woken ++ C cond)),
      )
  Step-IsLock {t} (resumes psi rest y z L m at w r timer popped run e) =
      let (z', run', D, i', order) = resume psi rest y L m at w r timer popped in
      (
        D,
        subst (IsLock cond D) (ground (arith, run, run', e)) i',
        ap (λ u. psi ∷ u.woken ++ D cond) e ∙ order ∙ sym (append-nil (s.woken ++ C cond)),
      )
