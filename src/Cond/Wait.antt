-- ===== src/Cond/Wait.antt =====
-- co_cond_timedwait: what waits where before the yield, and what is left after it.
use jkyi_libco.Base.{
  ℕ, ◌+◌, ◌-◌, ◌%◌, ◌≤◌, ◌<◌, ◌≡◌, ◌≢◌, refl, none, some, [], ◌∷◌, ◌++◌, arith, Ptr, null, inl,
  ==_refl, has-erase, subst,
}
use Prim.Native.Nat.{min}
use jkyi_libco.Base.Run.{ok}
use jkyi_libco.Link.{Node, Store, write, detached, calloc, free, add_tail}
use jkyi_libco.Link.View.{Lists, Represents, allocated}
use jkyi_libco.Link.AddTail.{add_tail-free}
use jkyi_libco.Link.Remove.{without, remove_from_link-Updates}
use jkyi_libco.Link.Alloc.{free_of_absent, node_of_allocated, calloc-Represents, free-Represents}
use jkyi_libco.Timeout.{u64, slot, not_begun}
use jkyi_libco.Timeout.Slots.{IsWheel}
use jkyi_libco.Timeout.Add.{add_timeout-refused, add_timeout-Updates}
use jkyi_libco.Cond.{Sync, timeout_of, new_item, timedwait_begin, timedwait_end}

module _ (link psi self now : ℕ) (y : Sync) (C L : Lists) (r : Represents y.items C)
    (r' : Represents y.timers L) (nn : psi ≢ null) (fresh : y.items.node psi ≡ none)
    (fresh' : y.timers.node (timeout_of psi) ≡ none) where
  queued :
      link ≢ null
      → (s : Store) × (add_tail link psi (calloc psi y.items) ≡ ok s)
        × Represents s (write C link (C link ++ psi ∷ []))
        × ((q : Ptr) → allocated s q ≡ allocated (calloc psi y.items) q)
  queued nl =
      let (s, run, rs, same) =
        add_tail-free (calloc psi y.items) C link psi detached
          (calloc-Represents y.items C psi r nn fresh) (ground (arith, ==_refl psi)) refl nl in
      (s, run, rs, same)

  timer_view : Represents (calloc (timeout_of psi) y.timers) L
  timer_view = calloc-Represents y.timers L (timeout_of psi) r' (omega arith) fresh'

  -- Without a time limit the item goes to the end of the queue, its timer is in no list, and the
  -- coroutine yields.
  pub timedwait_begin-untimed :
      link ≢ null
      → (z : Sync) × (timedwait_begin link psi self none now y ≡ ok (none, z))
        × Represents z.items (write C link (C link ++ psi ∷ []))
        × Represents z.timers L
        × (z.timers.node (timeout_of psi) ≡ some detached)
        × (z.arg (timeout_of psi) ≡ self)
        × ((q : Ptr) → allocated z.items q ≡ allocated (calloc psi y.items) q)
  unfolding timedwait_begin
  timedwait_begin-untimed nl =
      let (s, run, rs, kept) = queued nl in
      let z : Sync = record (new_item psi self 0 y) { items = s } in
      (
        z,
        ground (arith, run),
        rs,
        timer_view,
        ground (arith, ==_refl (timeout_of psi)),
        ground (arith, ==_refl (timeout_of psi)),
        kept,
      )

  -- With a time limit of `ms` milliseconds the timer is also on the wheel, at its deadline.
  timedwait_begin-timed :
      (ms : ℕ)
      → link ≢ null
      → IsWheel y.wheel
      → y.wheel.start ≤ now
      → now + ms < u64
      → (z : Sync) × (timedwait_begin link psi self (some ms) now y ≡ ok (none, z))
        × Represents z.items (write C link (C link ++ psi ∷ []))
        × Represents z.timers (
            let at = slot y.wheel (min (now + ms - y.wheel.start) (y.wheel.size - 1)) in
            write L at (L at ++ timeout_of psi ∷ []))
        × (z.expire (timeout_of psi) ≡ now + ms)
        × (z.arg (timeout_of psi) ≡ self)
  unfolding timedwait_begin
  timedwait_begin-timed ms nl v since small =
      let (s, run, rs, kept) = queued nl in
      let y' : Sync = new_item psi self ((now + ms) % u64) y in
      let at : y'.expire (timeout_of psi) ≡ now + ms = ground (arith, ==_refl (timeout_of psi)) in
      let (t, run', rt, same) =
        add_timeout-Updates y.wheel (timeout_of psi) y'.expire now y'.timers v L detached timer_view
          (ground (arith, ==_refl (timeout_of psi))) refl since (omega (arith, at))
          (omega (arith, at)) in
      let z : Sync = record y' { items = s; timers = t } in
      (
        z,
        ground (arith, run, run'),
        rs,
        subst
            (λ (e : ℕ). Represents t (
              let at = slot y.wheel (min (e - y.wheel.start) (y.wheel.size - 1)) in
              write L at (L at ++ timeout_of psi ∷ [])))
            at rt,
        at,
        ground (arith, ==_refl (timeout_of psi)),
      )

  -- Where AddTimeout refuses the timer, its code is returned, and nothing is left of the item.
  timedwait_begin-refused :
      (ms : ℕ)
      → IsWheel y.wheel
      → now < y.wheel.start
      → (z : Sync) × (timedwait_begin link psi self (some ms) now y ≡ ok (some not_begun, z))
        × Represents z.items C
        × Represents z.timers L
        × (z.items.node psi ≡ none)
        × (z.timers.node (timeout_of psi) ≡ none)
  unfolding timedwait_begin
  timedwait_begin-refused ms v early =
      let y' : Sync = new_item psi self ((now + ms) % u64) y in
      let refused =
        add_timeout-refused y.wheel (timeout_of psi) y'.expire now y'.timers v (inl early) in
      let z : Sync = record y' {
        items = free psi y'.items;
        timers = free (timeout_of psi) y'.timers;
      } in
      (
        z,
        ground (arith, refused),
        free-Represents (calloc psi y.items) C psi (calloc-Represents y.items C psi r nn fresh)
            detached (ground (arith, ==_refl psi)) refl,
        free-Represents (calloc (timeout_of psi) y.timers) L (timeout_of psi) timer_view detached
            (ground (arith, ==_refl (timeout_of psi))) refl,
        ground (arith, ==_refl psi),
        ground (arith, ==_refl (timeout_of psi)),
      )

-- After the yield, where the timer has left every list (the event loop has popped it), the item
-- leaves the queue if it is still in it, and both are freed: no list holds either of them.
pub timedwait_end-frees :
    (psi : Ptr) (y : Sync) (C L : Lists) (n m : Node)
    → Represents y.items C
    → Represents y.timers L
    → y.items.node psi ≡ some n
    → y.timers.node (timeout_of psi) ≡ some m
    → m.link ≡ null
    → (z : Sync) × (timedwait_end psi y ≡ ok z)
      × Represents z.items (without psi C)
      × Represents z.timers L
      × (z.items.node psi ≡ none)
      × (z.timers.node (timeout_of psi) ≡ none)
      × (z ≡ record y { items = z.items; timers = z.timers })
      × ((q : Ptr) → q ≢ timeout_of psi → allocated z.timers q ≡ allocated y.timers q)
unfolding timedwait_end
timedwait_end-frees psi y C L n m r r' e e' unlinked =
    let (s, run, rs, same) = remove_from_link-Updates y.items C psi n r e in
    let (k, ek) = node_of_allocated y.items s psi n (same psi) e in
    let out =
      free_of_absent s (without psi C) psi k rs ek
        (λ l. ground (arith, has-erase psi psi (C l) (r.distinct l))) in
    let z : Sync = record y { items = free psi s; timers = free (timeout_of psi) y.timers } in
    (
      z,
      ground (arith, run),
      free-Represents s (without psi C) psi rs k ek out,
      free-Represents y.timers L (timeout_of psi) r' m e' unlinked,
      ground (arith, ==_refl psi),
      ground (arith, ==_refl (timeout_of psi)),
      refl,
      λ q ne. ground (arith, ne),
    )
