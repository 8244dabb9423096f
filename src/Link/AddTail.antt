-- ===== src/Link/AddTail.antt =====
-- AddTail.
use jkyi_libco.Base.{
  ◌≡◌, refl, ◌≢◌, true, false, some, List, [], ◌∷◌, ◌++◌, arith, Ptr, null, has, has-append,
  Distinct, Distinct-append, Distinct-apart, head_or-append, last_or-append, ◌==◌, if◌then◌else◌,
  inl, inr, ==_refl, ==_ne, eq-cases, subst, snoc-cases,
}
use jkyi_libco.Base.Run.{ok}
use jkyi_libco.Link.{Node, Store, write, add_tail}
use jkyi_libco.Link.Chain.{Chain, Chain-append, Chain-front, Chain-back, frame}
use jkyi_libco.Link.View.{Lists, Represents, Updates, not-mem_of_free, list_unique, mem_allocated}

add_tail-empty :
    (s : Store) (l p : Ptr) (n : Node)
    → s.node p ≡ some n
    → n.link ≡ null
    → s.ends l ≡ record { head = null; tail = null }
    → (t : Store) × (add_tail l p s ≡ ok t)
      × ((q : Ptr)
          → t.node q
            ≡ (if q == p then some (record { prev = null; next = null; link = l }) else s.node q))
      × ((k : Ptr) → t.ends k ≡ (if k == l then record { head = p; tail = p } else s.ends k))
unfolding add_tail
add_tail-empty s l p n e free em = (
  record {
    node =
        write
          (write (write s.node p (some (record n { prev = null }))) p
            (some (record n { prev = null; next = null })))
          p (some (record { prev = null; next = null; link = l }));
    ends =
        write (write s.ends l (record { head = (s.ends l).head; tail = p })) l
          (record { head = p; tail = p });
  },
  ground arith,
  ground arith,
  ground arith,
)

add_tail-full :
    (s : Store) (l p a : Ptr) (n m : Node)
    → s.node p ≡ some n
    → n.link ≡ null
    → (s.ends l).tail ≡ a
    → a ≢ p
    → s.node a ≡ some m
    → a ≢ null
    → (t : Store) × (add_tail l p s ≡ ok t)
      × ((q : Ptr)
          → t.node q ≡ (
              if q == p
              then some (record { prev = a; next = null; link = l })
              else if q == a
              then some (record m { next = p })
              else s.node q))
      × ((k : Ptr)
          → t.ends k ≡ (if k == l then record { head = (s.ends l).head; tail = p } else s.ends k))
unfolding add_tail
add_tail-full s l p a n m e free em ne e' nn = (
  record {
    node =
        write
          (write
            (write (write s.node a (some (record m { next = p }))) p (some (record n { prev = a })))
            p (some (record n { prev = a; next = null })))
          p (some (record { prev = a; next = null; link = l }));
    ends = write s.ends l (record { head = (s.ends l).head; tail = p });
  },
  ground arith,
  ground arith,
  ground arith,
)

module _ (s : Store) (L : Lists) (l p : Ptr) (n : Node) (r : Represents s L) (e : s.node p ≡ some n)
    (free : n.link ≡ null) (at : l ≢ null) where
  absent : (k : Ptr) → has p (L k) ≡ false
  absent k = not-mem_of_free s L p n k r e free

  appended-Distinct : (k : Ptr) → Distinct (write L l (L l ++ p ∷ []) k)
  appended-Distinct k = elim (eq-cases k l) [
    | inl same ↦
        rw (same, ==_refl l)
          (Distinct-append (L l) (p ∷ []) (r.distinct l) (refl, tt) λ a h. ground (arith, absent l))
    | inr other ↦ rw (==_ne k l other) (r.distinct k)
  ]

  add_tail-Represents_empty :
      (t : Store)
      → L l ≡ []
      → ((q : Ptr)
          → t.node q
            ≡ (if q == p then some (record { prev = null; next = null; link = l }) else s.node q))
      → ((k : Ptr) → t.ends k ≡ (if k == l then record { head = p; tail = p } else s.ends k))
      → Represents t (write L l (L l ++ p ∷ []))
  add_tail-Represents_empty t nil nodes ends = record {
    null_free = ground (arith, nodes null, r.null_free);
    no_null_list = ground (arith, r.no_null_list);
    ends = λ k. ground (arith, ends k, r.ends k, nil);
    chain = λ k. elim (eq-cases k l) [
      | inl same ↦ rw (same, ==_refl l, nil) (ground (arith, nodes p), tt)
      | inr other ↦
          rw (==_ne k l other)
            (frame k s t null (L k) null (r.chain k) λ q h. ground (arith, nodes q, absent k))
    ];
    distinct = appended-Distinct;
    member =
        λ q m e' linked. ground (arith, nodes q, r.member q m, nil, has-append q (L l) (p ∷ []));
  }

  add_tail-Represents_full :
      (t : Store) (a : Ptr) (m : Node) (ys : List Ptr)
      → L l ≡ ys ++ a ∷ []
      → s.node a ≡ some m
      → ((q : Ptr)
          → t.node q ≡ (
              if q == p
              then some (record { prev = a; next = null; link = l })
              else if q == a
              then some (record m { next = p })
              else s.node q))
      → ((k : Ptr)
          → t.ends k ≡ (if k == l then record { head = (s.ends l).head; tail = p } else s.ends k))
      → Represents t (write L l (L l ++ p ∷ []))
  add_tail-Represents_full t a m ys last e' nodes ends = record {
    null_free = ground (arith, nodes null, r.null_free);
    no_null_list = ground (arith, r.no_null_list);
    ends = λ k. ground (
      arith,
      ends k,
      r.ends k,
      r.ends l,
      last,
      head_or-append ys (a ∷ []) null,
      head_or-append (L l) (p ∷ []) null,
      last_or-append (L l) (p ∷ []) null,
    );
    chain = λ k. elim (eq-cases k l) [
      | inl same ↦ rw (same, ==_refl l, last) whole
      | inr other ↦ rw (==_ne k l other) (
          frame k s t null (L k) null (r.chain k)
            λ q h. ground (arith, nodes q, absent k, list_unique s L q k l r h, a_mem))
    ];
    distinct = appended-Distinct;
    member = λ q m' e'' linked.
        ground (arith, nodes q, r.member q m', r.member a m, has-append q (L l) (p ∷ []));
  }
    where
      a_mem : has a (L l) ≡ true
      a_mem = ground (arith, last, has-append a ys (a ∷ []))

      old : Chain s l null (ys ++ a ∷ []) null
      old = subst (λ xs. Chain s l null xs null) last (r.chain l)

      apart : (q : Ptr) → has q ys ≡ true → has q (a ∷ []) ≡ false
      apart q = Distinct-apart q ys (a ∷ []) (subst Distinct last (r.distinct l))

      front : Chain t l null ys a
      front =
          frame l s t null ys a (Chain-front l s null ys (a ∷ []) null old)
            λ q h. ground (arith, nodes q, absent l, last, apart q h, has-append p ys (a ∷ []))

      whole : Chain t l null ((ys ++ a ∷ []) ++ p ∷ []) null
      whole =
          Chain-append l t null (ys ++ a ∷ []) (p ∷ []) null
            (Chain-append l t null ys (a ∷ []) p front (
              ground (arith, nodes a, absent l, a_mem, Chain-back l s null ys (a ∷ []) null old),
              tt,
            ))
            (ground (arith, nodes p, last_or-append ys (a ∷ []) null), tt)

  pub add_tail-free : Updates s (add_tail l p s) (write L l (L l ++ p ∷ []))
  add_tail-free = elim (snoc-cases (L l)) [
    | inl nil ↦ empty nil (add_tail-empty s l p n e free (ground (arith, r.ends l)))
    | inr (ys, a, last) ↦
        full ys a last (mem_allocated s L a l r (ground (arith, last, has-append a ys (a ∷ []))))
  ]
    where
      empty :
          L l ≡ []
          → (t : Store) × (add_tail l p s ≡ ok t)
            × ((q : Ptr)
                → t.node q ≡ (
                    if q == p
                    then some (record { prev = null; next = null; link = l })
                    else s.node q))
            × ((k : Ptr) → t.ends k ≡ (if k == l then record { head = p; tail = p } else s.ends k))
          → Updates s (add_tail l p s) (write L l (L l ++ p ∷ []))
      empty nil (t, run, nodes, ends) =
          (t, run, add_tail-Represents_empty t nil nodes ends, λ q. ground (arith, nodes q))

      full :
          (ys : List Ptr) (a : Ptr)
          → L l ≡ ys ++ a ∷ []
          → (m : Node) × (s.node a ≡ some m) × (m.link ≡ l)
          → Updates s (add_tail l p s) (write L l (L l ++ p ∷ []))
      full ys a last (m, e', linked) =
          let (t, run, nodes, ends) =
            add_tail-full s l p a n m e free
              (ground (arith, r.ends l, last, last_or-append ys (a ∷ []) null)) (ground arith) e'
              (ground (arith, r.null_free)) in
          (
            t,
            run,
            add_tail-Represents_full t a m ys last e' nodes ends,
            λ q. ground (arith, nodes q),
          )

-- In a store of well-formed lists, AddTail never faults on an allocated item and a list that is not
-- NULL. A free item goes to the end of the list; an item that is in a list stays where it is. The
-- lists are well formed again, no other list changes, and no item is allocated or freed.
pub add_tail-Updates :
    (s : Store) (L : Lists) (l p : Ptr) (n : Node)
    → Represents s L
    → s.node p ≡ some n
    → l ≢ null
    → Updates s (add_tail l p s) (if n.link == null then write L l (L l ++ p ∷ []) else L)
unfolding add_tail
add_tail-Updates s L l p n r e at = elim (eq-cases n.link null) [
  | inl free ↦ rw free (add_tail-free s L l p n r e free at)
  | inr linked ↦ rw (==_ne n.link null linked) (s, ground arith, r, λ q. refl)
]
