-- ===== src/Link/PopHead.antt =====
-- PopHead.
use jkyi_libco.Base.{
  ◌≡◌, refl, ◌≢◌, true, some, List, [], ◌∷◌, arith, Ptr, null, has, last_or, tail, inl, inr,
  ==_refl, ==_ne, eq-cases, ne_last,
}
use mathlib.Core.Path.{fun_ext}
use jkyi_libco.Base.Run.{ok}
use jkyi_libco.Link.{Node, Store, write, detached, pop_head}
use jkyi_libco.Link.View.{Lists, Represents, Updates, mem_allocated}
use jkyi_libco.Link.Unlink.{Unlinked, node_at, ends_at, Unlinked-Represents, not-mem_back, back_mem}

module _ (s : Store) (L : Lists) (l p : Ptr) (ys : List Ptr) (r : Represents s L)
    (split : L l ≡ p ∷ ys) where
  popped-Updates :
      (t : Store) × (pop_head l s ≡ ok t) × Unlinked s t l p [] ys
      → Updates s (pop_head l s) (write L l ys)
  popped-Updates (t, run, u) = (
    t,
    run,
    Unlinked-Represents s L l p [] ys r split t u,
    λ q. ground (arith, u.nodes q, node_at s L l p [] ys r split),
  )

  pop_only : ys ≡ [] → Updates s (pop_head l s) (write L l ys)
  unfolding pop_head
  pop_only nil = popped-Updates (
    record {
      node = write s.node p (some detached);
      ends =
          write (write s.ends l (record { head = null; tail = (s.ends l).tail })) l
            (record { head = null; tail = null });
    },
    ground (arith, nil, node_at s L l p [] ys r split, ends_at s L l p [] ys r split),
    record { nodes = λ q. ground (arith, nil, r.null_free); ends = λ k. ground (arith, nil) },
  )

  pop_more :
      (b : Ptr) (zs : List Ptr) (m : Node)
      → ys ≡ b ∷ zs
      → s.node b ≡ some m
      → b ≢ null
      → last_or ys p ≢ p
      → b ≢ p
      → Updates s (pop_head l s) (write L l ys)
  unfolding pop_head
  pop_more b zs m e e' nb ne nbp = popped-Updates (
    record {
      node = write (write s.node p (some detached)) b (some (record m { prev = null }));
      ends = write s.ends l (record { head = b; tail = last_or ys p });
    },
    ground (arith, e, node_at s L l p [] ys r split, ends_at s L l p [] ys r split),
    record {
      nodes = λ q. ground (arith, e, r.null_free);
      ends = λ k. ground (arith, e, ends_at s L l p [] ys r split);
    },
  )

  pop-split : (zs : List Ptr) → ys ≡ zs → Updates s (pop_head l s) (write L l ys)
  pop-split [] e = pop_only e
  pop-split (b ∷ zs) e =
      let in_ys : has b ys ≡ true = ground (arith, e) in
      let (m, e', at) = mem_allocated s L b l r (back_mem s L l p [] ys r split b in_ys) in
      let out = not-mem_back s L l p [] ys r split in
      pop_more b zs m e e' (ground (arith, r.null_free)) (λ same. ground (arith, e, ne_last p zs b))
        (ground (arith, e))

pop-cases :
    (s : Store) (L : Lists) (l : Ptr) (xs : List Ptr)
    → Represents s L
    → L l ≡ xs
    → Updates s (pop_head l s) (write L l (tail xs))
unfolding pop_head
pop-cases s L l [] r e = (s, ground (arith, r.ends l), rw unchanged r, λ q. refl)
  where
    unchanged : write L l [] ≡ L
    unchanged = fun_ext λ k. elim (eq-cases k l) [
      | inl same ↦ rw (same, ==_refl l, e)
      | inr other ↦ rw (==_ne k l other)
    ]
pop-cases s L l (p ∷ ys) r e = pop-split s L l p ys r e ys refl

-- In a store of well-formed lists, PopHead never faults: it takes the first item off the list, and
-- does nothing to an empty one. The lists are well formed again, and no other changes.
pub pop_head-Updates :
    (s : Store) (L : Lists) (l : Ptr)
    → Represents s L
    → Updates s (pop_head l s) (write L l (tail (L l)))
pop_head-Updates s L l r = pop-cases s L l (L l) r refl
