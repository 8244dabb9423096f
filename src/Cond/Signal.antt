-- ===== src/Cond/Signal.antt =====
-- co_cond_signal and co_cond_broadcast: who is woken, and in which order.
use jkyi_libco.Base.{
  ℕ, ◌≡◌, ◌≢◌, refl, true, false, some, List, [], ◌∷◌, ◌++◌, arith, Ptr, null, has, erase, tail,
  inl, inr, Option-cases, subst, ==_refl,
}
use jkyi_libco.Base.Run.{ok}
use jkyi_libco.Link.{Node, Store, write}
use jkyi_libco.Link.View.{Lists, Represents, allocated, mem_allocated}
use jkyi_libco.Link.Move.{moved, moved-Updates}
use jkyi_libco.Link.PopHead.{pop_head-Updates}
use jkyi_libco.Cond.{Sync, timeout_of, cond_pop, activate, cond_signal}

-- The timers after the waiter `x` has been woken: its timer is nowhere but at the end of `active`.
abbrev pub woken : Ptr → Ptr → Lists → Lists
woken active x L = moved active (timeout_of x) L

activate-Updates :
    (active x : Ptr) (y : Sync) (L : Lists) (n : Node)
    → Represents y.timers L
    → y.timers.node (timeout_of x) ≡ some n
    → active ≢ null
    → (t : Store) × (activate active x y ≡ ok (record y { timers = t }))
      × Represents t (woken active x L)
      × ((q : Ptr) → allocated t q ≡ allocated y.timers q)
unfolding activate
activate-Updates active x y L n r e nn =
    let (u, run, r', same) = moved-Updates y.timers L active (timeout_of x) n r e nn in
    (u, ground (arith, run), r', same)

pub allocated-node : (s : Store) (p : Ptr) → allocated s p ≡ true → (n : Node) × (s.node p ≡ some n)
allocated-node s p h = elim (Option-cases (s.node p)) [
  | inl gone ↦ absurd (ground arith)
  | inr found ↦ found
]

cond_pop-empty :
    (si : Ptr) (y : Sync) (C : Lists)
    → Represents y.items C
    → C si ≡ []
    → cond_pop si y ≡ ok (null, y)
unfolding cond_pop
cond_pop-empty si y C r e = ground (arith, r.ends si)

cond_pop-more :
    (si x : Ptr) (xs : List Ptr) (y : Sync) (C : Lists)
    → Represents y.items C
    → C si ≡ x ∷ xs
    → (t : Store) × (cond_pop si y ≡ ok (x, record y { items = t }))
      × Represents t (write C si xs)
      × (x ≢ null)
      × ((q : Ptr) → allocated t q ≡ allocated y.items q)
unfolding cond_pop
cond_pop-more si x xs y C r e =
    let (t, run, r', same) = pop_head-Updates y.items C si r in
    let (n, e', at) = mem_allocated y.items C x si r (ground (arith, e, ==_refl x)) in
    let nn : x ≢ null = ground (arith, r.null_free) in
    (
      t,
      ground (arith, run, r.ends si, e),
      subst (λ (zs : List Ptr). Represents t (write C si (tail zs))) e r',
      nn,
      same,
    )

-- Where nobody waits, co_cond_signal does nothing.
pub cond_signal-empty :
    (active si : Ptr) (y : Sync) (C : Lists)
    → Represents y.items C
    → C si ≡ []
    → cond_signal active si y ≡ ok y
unfolding cond_signal
cond_signal-empty active si y C r e = ground (arith, cond_pop-empty si y C r e)

-- co_cond_signal takes the longest waiter from the queue. Its timer leaves the list that it is in,
-- the wheel for one, and goes to the end of the active list; all else stays.
pub cond_signal-fifo :
    (active si x : Ptr) (xs : List Ptr) (y : Sync) (C L : Lists)
    → Represents y.items C
    → Represents y.timers L
    → allocated y.timers (timeout_of x) ≡ true
    → active ≢ null
    → C si ≡ x ∷ xs
    → (s t : Store) × (cond_signal active si y ≡ ok (record y { items = s; timers = t }))
      × Represents s (write C si xs)
      × Represents t (woken active x L)
      × ((q : Ptr) → allocated s q ≡ allocated y.items q)
      × ((q : Ptr) → allocated t q ≡ allocated y.timers q)
unfolding cond_signal
cond_signal-fifo active si x xs y C L r r' h nn e =
    let (s, run, rs, nx, kept) = cond_pop-more si x xs y C r e in
    let (n, en) = allocated-node y.timers (timeout_of x) h in
    let (t, run', rt, same) = activate-Updates active x (record y { items = s }) L n r' en nn in
    (s, t, ground (arith, run, run'), rs, rt, kept, same)

-- All waiters in turn.
abbrev pub all_woken : Ptr → List Ptr → Lists → Lists
all_woken active [] L = L
all_woken active (x ∷ xs) L = all_woken active xs (woken active x L)

erase-append_absent :
    (a : ℕ) (xs ys : List ℕ) → has a xs ≡ false → erase a (xs ++ ys) ≡ xs ++ erase a ys
erase-append_absent a [] ys h = refl
erase-append_absent a (x ∷ xs) ys h = ground (arith, erase-append_absent a xs ys)
