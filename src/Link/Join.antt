-- ===== src/Link/Join.antt =====
-- Join.
use jkyi_libco.Base.{
  ℕ, zero, suc, ◌<◌, ◌≡◌, refl, ◌≢◌, true, none, some, List, [], ◌∷◌, ◌++◌, arith, Ptr, null, has,
  has-append, Distinct, length, head_or, last_or, last_or-append, ◌==◌, if◌then◌else◌, inl, inr,
  ==_refl, ==_ne, eq-cases, ◌∙◌, head_or-of_mem, append-nil, ap, snoc-cases,
}
use mathlib.Core.Path.{fun_ext}
use jkyi_libco.Base.Run.{ok}
use jkyi_libco.Link.{Node, Store, Ends, write, relink, join}
use jkyi_libco.Link.Chain.{Chain, frame}
use jkyi_libco.Link.View.{Lists, Represents, Updates, mem_allocated}
use jkyi_libco.Link.Joined.{
  with_link, Joined, old, old-Distinct, Joined-Represents, null_absent, apart,
}

relink_step :
    (fuel : ℕ) (l p : Ptr) (s : Store) (n : Node)
    → p ≢ null
    → s.node p ≡ some n
    → relink (suc fuel) l p s
      ≡ relink fuel l n.next (record s { node = write s.node p (some (record n { link = l })) })
unfolding relink
relink_step fuel l p s n h e = rw (==_ne p null h, e, relink)

-- The loop of Join visits the whole chain and gives each item its new list.
relink-all :
    (fuel : ℕ) (l o : Ptr) (s : Store) (prev : Ptr) (xs : List Ptr)
    → s.node null ≡ none
    → Chain s o prev xs null
    → Distinct xs
    → length xs < fuel
    → (t : Store) × (relink fuel l (head_or xs null) s ≡ ok t)
      × (t.ends ≡ s.ends)
      × ((q : Ptr) → t.node q ≡ (if has q xs then with_link l (s.node q) else s.node q))
unfolding relink
relink-all zero l o s prev xs z c d h = absurd (omega arith)
relink-all (suc fuel) l o s prev [] z c d h = (s, refl, refl, λ q. refl)
relink-all (suc fuel) l o s prev (x ∷ xs) z c d h =
    let n : Node = record { prev = prev; next = head_or xs null; link = o } in
    let s' : Store = record s { node = write s.node x (some (record n { link = l })) } in
    let nx : x ≢ null = ground arith in
    let (t, run, ends, nodes) =
      relink-all fuel l o s' x xs (ground arith) (frame o s s' x xs null c.1 λ p h. ground arith)
        d.1 (omega arith) in
    (t, relink_step fuel l x s n nx c.0 ∙ run, ends, λ q. ground (arith, nodes q))

module _ (fuel : ℕ) (s : Store) (l o x : Ptr) (xs : List Ptr) (at : l ≢ o) (nx : x ≢ null) where
  abbrev Relinked : Store → Type 0
  Relinked t =
      (relink fuel l x s ≡ ok t)
      × (t.ends ≡ s.ends)
      × ((q : Ptr) → t.node q ≡ (if has q (x ∷ xs) then with_link l (s.node q) else s.node q))

  join_empty :
      (u : Store) (last : Ptr)
      → Relinked u
      → s.ends o ≡ record { head = x; tail = last }
      → s.ends l ≡ record { head = null; tail = null }
      → (t : Store) × (join fuel l o s ≡ ok t)
        × ((q : Ptr) → t.node q ≡ (if has q (x ∷ xs) then with_link l (s.node q) else s.node q))
        × ((k : Ptr)
            → t.ends k ≡ (
                if k == o
                then record { head = null; tail = null }
                else if k == l
                then record { head = x; tail = last }
                else s.ends k))
  unfolding join
  join_empty u last (run, ends, nodes) e f = (
    record {
      node = u.node;
      ends =
          write
            (write
              (write (write u.ends l (record { head = null; tail = last })) l
                (record { head = x; tail = last }))
              o (record { head = null; tail = last }))
            o (record { head = null; tail = null });
    },
    ground (arith, ap (λ (g : Ptr → Ends). g o) ends, ap (λ (g : Ptr → Ends). g l) ends),
    nodes,
    λ k. ground (arith, ap (λ (g : Ptr → Ends). g k) ends),
  )

  join_full :
      (u : Store) (a first last : Ptr) (m n : Node)
      → Relinked u
      → s.ends o ≡ record { head = x; tail = last }
      → s.ends l ≡ record { head = first; tail = a }
      → a ≢ null
      → u.node a ≡ some m
      → u.node x ≡ some n
      → a ≢ x
      → (t : Store) × (join fuel l o s ≡ ok t)
        × ((q : Ptr)
            → t.node q ≡ (
                if q == x
                then some (record n { prev = a })
                else if q == a
                then some (record m { next = x })
                else u.node q))
        × ((k : Ptr)
            → t.ends k ≡ (
                if k == o
                then record { head = null; tail = null }
                else if k == l
                then record { head = first; tail = last }
                else s.ends k))
  unfolding join
  join_full u a first last m n (run, ends, nodes) e f na ea ex ne = (
    record {
      node = write (write u.node a (some (record m { next = x }))) x (some (record n { prev = a }));
      ends =
          write
            (write (write u.ends l (record { head = first; tail = last })) o
              (record { head = null; tail = last }))
            o (record { head = null; tail = null });
    },
    ground (arith, ap (λ (g : Ptr → Ends). g o) ends, ap (λ (g : Ptr → Ends). g l) ends),
    λ q. ground arith,
    λ k. ground (arith, ap (λ (g : Ptr → Ends). g k) ends),
  )

module _ (fuel : ℕ) (s : Store) (L : Lists) (l o x : Ptr) (xs : List Ptr) (r : Represents s L)
    (split : L o ≡ x ∷ xs) (at : l ≢ o) (nl : l ≢ null) (enough : length (x ∷ xs) < fuel) where
  Joined-Updates :
      (t : Store) × (join fuel l o s ≡ ok t) × Joined s L l o x xs r split at nl t
      → Updates s (join fuel l o s) (write (write L l (L l ++ x ∷ xs)) o [])
  Joined-Updates (t, run, u) = (
    t,
    run,
    Joined-Represents s L l o x xs r split at nl t u,
    λ q. ground (arith, u.nodes q, (old s L l o x xs r split at nl).0),
  )

  node_x : s.node x ≡ some (record { prev = null; next = head_or xs null; link = o })
  node_x = (old s L l o x xs r split at nl).0

  nx : x ≢ null
  nx = ground (arith, node_x, r.null_free)

  to_empty :
      L l ≡ []
      → (u : Store) → Relinked fuel s l o x xs at nx u
      → Updates s (join fuel l o s) (write (write L l (L l ++ x ∷ xs)) o [])
  to_empty nil u ran =
      let (t, run, nodes, ends) =
        join_empty fuel s l o x xs at nx u (last_or xs x) ran (ground (arith, r.ends o, split))
          (ground (arith, r.ends l, nil)) in
      Joined-Updates (
        t,
        run,
        record {
          nodes = λ q. ground (
            arith,
            nodes q,
            nil,
            node_x,
            r.null_free,
            null_absent s L l o x xs r split at nl o,
            split,
          );
          ends = λ k. ground (arith, ends k, nil);
        },
      )

  to_full :
      (ys : List Ptr) (a : Ptr) (m : Node)
      → L l ≡ ys ++ a ∷ []
      → s.node a ≡ some m
      → has a (L l) ≡ true
      → (u : Store) → Relinked fuel s l o x xs at nx u
      → Updates s (join fuel l o s) (write (write L l (L l ++ x ∷ xs)) o [])
  to_full ys a m e em in_l u (ran, same, nodes) =
      let out = apart s L l o x xs r split at nl a in_l in
      let is_last : last_or (L l) null ≡ a = ground (arith, e, last_or-append ys (a ∷ []) null) in
      let (t, run, nodes', ends) =
        join_full fuel s l o x xs at nx u a (head_or (L l) null) (last_or xs x) m
          (record { prev = null; next = head_or xs null; link = l }) (ran, same, nodes)
          (ground (arith, r.ends o, split)) (ground (arith, r.ends l, is_last))
          (ground (arith, r.null_free)) (ground (arith, nodes a))
          (ground (arith, nodes x, node_x, ==_refl x)) (ground arith) in
      Joined-Updates (
        t,
        run,
        record {
          nodes = λ q. ground (arith, nodes' q, nodes q, is_last);
          ends = λ k. ground (arith, ends k, head_or-of_mem a (L l) x null in_l);
        },
      )

  join-split : Updates s (join fuel l o s) (write (write L l (L l ++ x ∷ xs)) o [])
  join-split =
      let (u, run, same, nodes) =
        relink-all fuel l o s null (x ∷ xs) r.null_free (old s L l o x xs r split at nl)
          (old-Distinct s L l o x xs r split at nl) enough in
      elim (snoc-cases (L l)) [
        | inl nil ↦ to_empty nil u (run, same, nodes)
        | inr (ys, a, e) ↦
            let in_l : has a (L l) ≡ true =
              ground (arith, e, has-append a ys (a ∷ []), ==_refl a) in
            let (m, em, at') = mem_allocated s L a l r in_l in
            to_full ys a m e em in_l u (run, same, nodes)
      ]

join-cases :
    (fuel : ℕ) (s : Store) (L : Lists) (l o : Ptr) (xs : List Ptr)
    → Represents s L
    → L o ≡ xs
    → l ≢ o
    → l ≢ null
    → length xs < fuel
    → Updates s (join fuel l o s) (write (write L l (L l ++ xs)) o [])
unfolding join
join-cases fuel s L l o [] r e at nl enough =
    (s, ground (arith, r.ends o), rw unchanged r, λ q. refl)
  where
    unchanged : write (write L l (L l ++ [])) o [] ≡ L
    unchanged = fun_ext λ k. elim (eq-cases k o) [
      | inl same ↦ rw (same, ==_refl o, e)
      | inr other ↦ rw (==_ne k o other) (elim (eq-cases k l) [
        | inl same ↦ rw (same, ==_refl l) (append-nil (L l))
        | inr other' ↦ rw (==_ne k l other')
      ])
    ]
join-cases fuel s L l o (x ∷ xs) r e at nl enough = join-split fuel s L l o x xs r e at nl enough

-- In a store of well-formed lists, Join of a list with another one ends without a fault within more
-- rounds than the other has items: the items of the other list stand behind those of the first, in
-- order, the other list is empty, and no third list changes.
pub join-Updates :
    (fuel : ℕ) (s : Store) (L : Lists) (l o : Ptr)
    → Represents s L
    → l ≢ o
    → l ≢ null
    → length (L o) < fuel
    → Updates s (join fuel l o s) (write (write L l (L l ++ L o)) o [])
join-Updates fuel s L l o r at nl enough = join-cases fuel s L l o (L o) r refl at nl enough
