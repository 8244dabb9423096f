-- ===== src/Dns/Locked.antt =====
-- Lookups of several coroutines take turns: co_gethostbyname_r over clsSmartLock.
use jkyi_libco.Base.{
  ℕ, ◌≡◌, ◌≢◌, refl, arith, Bool, true, false, none, some, [], ◌∷◌, ◌++◌, Ptr, null, ==_refl, subst,
}
use jkyi_libco.Base.Run.{ok}
use jkyi_libco.Link.{write}
use jkyi_libco.Link.View.{Lists, Represents}
use jkyi_libco.Cond.{Sync, timeout_of}
use jkyi_libco.Cond.Signal.{cond_signal-empty, cond_signal-fifo, woken}
use jkyi_libco.Cond.Wait.{timedwait_begin-untimed}
use jkyi_libco.Mutex.{Mutex, make_mutex, co_lock, co_unlock}
use jkyi_libco.Dns.{Reply, lock_dns, finish_dns, gethostbyname_r}

-- The first lookup of a thread makes the lock and goes on at once. A second coroutine that looks up
-- a host meanwhile waits: its item is alone in the queue. When the first lookup ends, it returns
-- the answer of the system's function, which has been called once, and the second coroutine's timer
-- stands at the end of the active list, its item out of the queue, with the lock kept for it.
pub finish_dns-lock_dns :
    {W : Type 0} (lookup : W → Reply × W) (active cond cond' : Ptr)
    (psi self now psi' self' now' : ℕ) (y : Sync) (C L : Lists) (w : W)
    → Represents y.items C
    → Represents y.timers L
    → C cond ≡ []
    → cond ≢ null
    → active ≢ null
    → psi' ≢ null
    → y.items.node psi' ≡ none
    → y.timers.node (timeout_of psi') ≡ none
    → (m m' : Mutex) × (z u : Sync) × (lock_dns cond psi self now none y ≡ ok (false, m, y))
      × (lock_dns cond' psi' self' now' (some m) y ≡ ok (true, m', z))
      × Represents z.items (write C cond (psi' ∷ []))
      × (finish_dns active lookup m' z w ≡ ok ((lookup w).0, m, u, (lookup w).1))
      × Represents u.items (write (write C cond (psi' ∷ [])) cond [])
      × Represents u.timers (woken active psi' L)
unfolding lock_dns finish_dns make_mutex co_lock co_unlock
finish_dns-lock_dns lookup active cond cond' psi self now psi' self' now' y C L w r r' empty nc na
      nn fresh fresh' =
    let (z, run, items, timers, node, arg, kept) =
      timedwait_begin-untimed cond psi' self' now' y C L r r' nn fresh fresh' nc in
    let queue : Represents z.items (write C cond (psi' ∷ [])) =
      subst (λ xs. Represents z.items (write C cond (xs ++ psi' ∷ []))) empty items in
    let (s, t, signal, rs, rt, same, alive) =
      cond_signal-fifo active cond psi' [] z (write C cond (psi' ∷ [])) L queue timers
        (ground (arith, node)) na (ground (arith, ==_refl cond)) in
    (
      record { cond = cond; count = 1 },
      record { cond = cond; count = 2 },
      z,
      record z { items = s; timers = t },
      refl,
      ground (arith, run),
      queue,
      ground (arith, signal),
      rs,
      rt,
    )

-- Where nobody holds the lock of the thread, or there is none yet, a call returns at once with the
-- answer of the system's function, nobody holds the lock afterwards, and no list has changed.
gethostbyname_r-alone :
    {W : Type 0} (hooked : Bool) (lookup : W → Reply × W) (active cond psi self now : ℕ) (m : Mutex)
    (y : Sync) (C : Lists) (w : W)
    → Represents y.items C
    → C m.cond ≡ []
    → m.count ≡ 0
    → (gethostbyname_r hooked cond psi self now active lookup (some m) y w
        ≡ ok (some ((lookup w).0), some m, y, (lookup w).1))
      × (C cond ≡ []
          → gethostbyname_r true cond psi self now active lookup none y w
            ≡ ok (some ((lookup w).0), some (make_mutex cond), y, (lookup w).1))
unfolding gethostbyname_r lock_dns finish_dns make_mutex co_lock co_unlock
gethostbyname_r-alone false lookup active cond psi self now m y C w r e free =
    (refl, λ e'. ground (arith, cond_signal-empty active cond y C r e'))
gethostbyname_r-alone true lookup active cond psi self now m y C w r e free = (
  ground (arith, free, cond_signal-empty active m.cond y C r e),
  λ e'. ground (arith, cond_signal-empty active cond y C r e'),
)
