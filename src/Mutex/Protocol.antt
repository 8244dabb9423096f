-- ===== src/Mutex/Protocol.antt =====
-- Any number of coroutines that lock and unlock a clsCoMutex: at most one is inside.
use jkyi_libco.Base.{
  ℕ, ◌+◌, ◌-◌, ◌^◌, ◌≤◌, ◌<◌, ◌≡◌, ◌≢◌, true, false, none, some, List, [], ◌∷◌, ◌++◌, Ptr, null,
  has, length, ◌==◌, if◌then◌else◌, Bool,
}
use jkyi_libco.Base.Run.{ok}
use jkyi_libco.Link.{Node, Store}
use jkyi_libco.Link.View.{Lists, Represents, allocated}
use jkyi_libco.Cond.{Sync, timeout_of}
use jkyi_libco.Mutex.{Mutex, co_lock, co_lock_resumed, co_unlock}

-- The mutex, its queue, and who is where: the coroutines that hold the lock, and the items of
-- those that CoUnLock has woken and that have not run yet.
pub record System : Type 0 where
  pub mutex : Mutex
  pub items : Store
  pub holders : ℕ
  pub woken : List Ptr

abbrev pub waiting : Store → Ptr → Ptr
waiting s cond = (s.ends cond).head

-- The timers belong to the event loop, which may have changed them in between: each step has the
-- state `y` of its own moment. A lock is taken with an item at a fresh address. Only a holder
-- unlocks. A woken coroutine runs when its timer has been popped from the active list.
pub data Step (active : Ptr) (s t : System) : Type 0 where
  locks :
      (psi self now : ℕ) (y z : Sync) (waits : Bool) (m : Mutex) (L : Lists)
      → y.items ≡ s.items
      → Represents y.timers L
      → psi ≢ null
      → y.items.node psi ≡ none
      → y.timers.node (timeout_of psi) ≡ none
      → s.mutex.count + 1 < 2 ^ 31
      → co_lock psi self now s.mutex y ≡ ok (waits, m, z)
      → t ≡ record {
        mutex = m;
        items = z.items;
        holders = if waits then s.holders else s.holders + 1;
        woken = s.woken;
      }
      → Step active s t
  unlocks :
      (y z : Sync) (m : Mutex) (L : Lists)
      → y.items ≡ s.items
      → Represents y.timers L
      → ((x : Ptr) → allocated y.items x ≡ true → allocated y.timers (timeout_of x) ≡ true)
      → 0 < s.holders
      → co_unlock active s.mutex y ≡ ok (m, z)
      → t ≡ record {
        mutex = m;
        items = z.items;
        holders = s.holders - 1;
        woken =
            (let x = waiting s.items s.mutex.cond in
              if x == null then s.woken else s.woken ++ x ∷ []);
      }
      → Step active s t
  resumes :
      (psi : Ptr) (rest : List Ptr) (y z : Sync) (L : Lists) (m : Node)
      → y.items ≡ s.items
      → s.woken ≡ psi ∷ rest
      → Represents y.timers L
      → y.timers.node (timeout_of psi) ≡ some m
      → m.link ≡ null
      → co_lock_resumed psi y ≡ ok z
      → t ≡ record { mutex = s.mutex; items = z.items; holders = s.holders + 1; woken = rest }
      → Step active s t

pub data Reach (active : Ptr) (s : System) : System → Type 0 where
  here : Reach active s s
  next : {t u : System} → Reach active s t → Step active t u → Reach active s u

-- Which coroutines ask for the lock in a step, and which get it.
abbrev pub asks : {active : Ptr} {s t : System} → Step active s t → List Ptr
asks (locks psi self now y z waits m L at r nn fresh fresh' room run e) = psi ∷ []
asks (unlocks y z m L at r timers held run e) = []
asks (resumes psi rest y z L m at w r timer popped run e) = []

abbrev pub enters : {active : Ptr} {s t : System} → Step active s t → List Ptr
enters (locks psi self now y z waits m L at r nn fresh fresh' room run e) =
    if waits then [] else psi ∷ []
enters (unlocks y z m L at r timers held run e) = []
enters (resumes psi rest y z L m at w r timer popped run e) = psi ∷ []

-- Steps with the coroutines that have asked for the lock, and those that have got it, in order.
pub data Trace (active : Ptr) (s : System) : List Ptr → List Ptr → System → Type 0 where
  start : Trace active s [] [] s
  step :
      {asked entered : List Ptr} {t u : System}
      → Trace active s asked entered t
      → (st : Step active t u) → Trace active s (asked ++ asks st) (entered ++ enters st) u

-- The count is that of all who hold the lock, have been woken, or wait; one at most has the lock
-- or has been woken, and nobody waits for a lock that is free.
pub record IsLock (cond : Ptr) (C : Lists) (s : System) : Type 0 where
  pub view : Represents s.items C
  pub same : s.mutex.cond ≡ cond
  pub counted : s.mutex.count ≡ s.holders + length s.woken + length (C cond)
  pub single : s.holders + length s.woken ≤ 1
  pub busy : 0 < length (C cond) → s.holders + length s.woken ≡ 1
  pub small : s.mutex.count < 2 ^ 31
  pub alive :
      (x : Ptr)
      → has x s.woken ≡ true
      → (n : Node) × (s.items.node x ≡ some n) × (has x (C cond) ≡ false)
