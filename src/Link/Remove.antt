-- ===== src/Link/Remove.antt =====
-- RemoveFromLink.
use jkyi_libco.Base.{
  ◌≡◌, refl, ◌≢◌, true, false, none, some, List, [], ◌∷◌, ◌++◌, arith, Ptr, null, has, head_or,
  last_or, ◌==◌, if◌then◌else◌, inl, inr, ==_ne, ==_refl, last_or-of_mem, head_or-of_mem, eq-cases,
  ends-cases, erase, erase-split, erase_absent, has-split, ◌⊎◌,
}
use mathlib.Core.Path.{fun_ext}
use jkyi_libco.Base.Run.{ok}
use jkyi_libco.Link.{Node, Store, write, detached, remove_from_link}
use jkyi_libco.Link.View.{Lists, Represents, Updates, mem_allocated, not-mem_of_free, list_unique}
use jkyi_libco.Link.Unlink.{
  with_next, with_prev, node_at, ends_at, Unlinked-Represents, front_mem, back_mem, not-mem_front,
  not-mem_back, list_ne_null, apart, p_mem,
}

abbrev Relinked : Store → Store → Ptr → Ptr → Ptr → Ptr → Ptr → Ptr → Type 0
Relinked s t l p prev next head tail =
    ((q : Ptr)
      → t.node q ≡ (
          if q == p
          then some detached
          else if q == prev
          then with_next next (s.node q)
          else if q == next
          then with_prev prev (s.node q)
          else s.node q))
    × ((k : Ptr) → t.ends k ≡ (if k == l then record { head = head; tail = tail } else s.ends k))

module _ (s : Store) (l p head tail : Ptr) (at : l ≢ null) (nn : p ≢ null)
    (free : s.node null ≡ none) where
  remove_only :
      s.node p ≡ some (record { prev = null; next = null; link = l })
      → s.ends l ≡ record { head = p; tail = p }
      → (t : Store) × (remove_from_link p s ≡ ok t) × Relinked s t l p null null null null
  unfolding remove_from_link
  remove_only e f = (
    record {
      node = write s.node p (some detached);
      ends =
          write (write s.ends l (record { head = null; tail = p })) l
            (record { head = null; tail = null });
    },
    ground arith,
    (λ q. ground (arith), λ k. ground arith),
  )

  remove_first :
      (b : Ptr) (m : Node)
      → s.node p ≡ some (record { prev = null; next = b; link = l })
      → s.ends l ≡ record { head = p; tail = tail }
      → tail ≢ p
      → tail ≢ null
      → b ≢ p
      → s.node b ≡ some m
      → (t : Store) × (remove_from_link p s ≡ ok t) × Relinked s t l p null b b tail
  unfolding remove_from_link
  remove_first b m e f ne nt nb e' = (
    record {
      node =
          write
            (write (write s.node b (some (record m { prev = null }))) b
              (some (record m { prev = null })))
            p (some detached);
      ends = write s.ends l (record { head = b; tail = tail });
    },
    ground arith,
    (λ q. ground (arith), λ k. ground arith),
  )

  remove_last :
      (a : Ptr) (m : Node)
      → s.node p ≡ some (record { prev = a; next = null; link = l })
      → s.ends l ≡ record { head = head; tail = p }
      → head ≢ p
      → head ≢ null
      → a ≢ p
      → s.node a ≡ some m
      → (t : Store) × (remove_from_link p s ≡ ok t) × Relinked s t l p a null head a
  unfolding remove_from_link
  remove_last a m e f ne nt nb e' = (
    record {
      node =
          write
            (write (write s.node a (some (record m { next = null }))) a
              (some (record m { next = null })))
            p (some detached);
      ends = write s.ends l (record { head = head; tail = a });
    },
    ground arith,
    (λ q. ground (arith), λ k. ground arith),
  )

  remove_middle :
      (a b : Ptr) (m m' : Node)
      → s.node p ≡ some (record { prev = a; next = b; link = l })
      → s.ends l ≡ record { head = head; tail = tail }
      → head ≢ p
      → head ≢ null
      → tail ≢ p
      → tail ≢ null
      → a ≢ p
      → b ≢ p
      → a ≢ b
      → s.node a ≡ some m
      → s.node b ≡ some m'
      → (t : Store) × (remove_from_link p s ≡ ok t) × Relinked s t l p a b head tail
  unfolding remove_from_link
  remove_middle a b m m' e f nh nh' nt nt' na nb nab ea eb = (
    record {
      node =
          write
            (write (write s.node a (some (record m { next = b }))) b
              (some (record m' { prev = a })))
            p (some detached);
      ends = s.ends;
    },
    ground arith,
    (λ q. ground (arith), λ k. ground arith),
  )

module _ (s : Store) (L : Lists) (l p : Ptr) (xs ys : List Ptr) (r : Represents s L)
    (split : L l ≡ xs ++ p ∷ ys) where
  Relinked-Updates :
      (t : Store) × (remove_from_link p s ≡ ok t)
        × Relinked s t l p
            (last_or xs null)
            (head_or ys null)
            (head_or xs (head_or ys null))
            (last_or ys (last_or xs null))
      → Updates s (remove_from_link p s) (write L l (xs ++ ys))
  Relinked-Updates (t, run, (nodes, ends)) = (
    t,
    run,
    Unlinked-Represents s L l p xs ys r split t (record { nodes = nodes; ends = ends }),
    λ q. ground (arith, nodes q, node_at s L l p xs ys r split),
  )

  neighbour :
      (q : Ptr)
      → (has q xs ≡ true) ⊎ (has q ys ≡ true)
      → (m : Node) × (s.node q ≡ some m) × (q ≢ p) × (q ≢ null)
  neighbour q (inl h) =
      let (m, e, at) = mem_allocated s L q l r (front_mem s L l p xs ys r split q h) in
      (m, e, ground (arith, not-mem_front s L l p xs ys r split), ground (arith, r.null_free))
  neighbour q (inr h) =
      let (m, e, at) = mem_allocated s L q l r (back_mem s L l p xs ys r split q h) in
      (m, e, ground (arith, not-mem_back s L l p xs ys r split), ground (arith, r.null_free))

  -- The values that the code computes with are those of the view.
  as_viewed :
      (prev next head tail : Ptr)
      → prev ≡ last_or xs null
      → next ≡ head_or ys null
      → head ≡ head_or xs (head_or ys null)
      → tail ≡ last_or ys (last_or xs null)
      → (t : Store) × (remove_from_link p s ≡ ok t) × Relinked s t l p prev next head tail
      → Updates s (remove_from_link p s) (write L l (xs ++ ys))
  as_viewed prev next head tail a b c d (t, run, (nodes, ends)) =
      Relinked-Updates (t, run, (λ q. ground (arith, nodes q), λ k. ground (arith, ends k)))

  at_list : l ≢ null
  at_list = list_ne_null s L l p xs ys r split

  at_p : p ≢ null
  at_p = ground (arith, node_at s L l p xs ys r split, r.null_free)

  removed_first :
      (has (head_or ys null) ys ≡ true)
      → (has (last_or ys p) ys ≡ true)
      → xs ≡ []
      → Updates s (remove_from_link p s) (write L l (xs ++ ys))
  removed_first h t nil =
      let (m, e, ne, nn) = neighbour (head_or ys null) (inr h) in
      let (m', e', ne', nn') = neighbour (last_or ys p) (inr t) in
      as_viewed null (head_or ys null) (head_or ys null) (last_or ys p) (ground (arith, nil)) refl
        (ground (arith, nil)) (ground (arith, nil, last_or-of_mem (head_or ys null) ys p null h))
        (remove_first s l p p (last_or ys p) at_list at_p r.null_free (head_or ys null) m
          (ground (arith, node_at s L l p xs ys r split, nil))
          (ground (arith, ends_at s L l p xs ys r split, nil)) ne' nn' ne e)

  removed_last :
      (has (head_or xs p) xs ≡ true)
      → (has (last_or xs null) xs ≡ true)
      → ys ≡ []
      → Updates s (remove_from_link p s) (write L l (xs ++ ys))
  removed_last h t nil =
      let (m, e, ne, nn) = neighbour (head_or xs p) (inl h) in
      let (m', e', ne', nn') = neighbour (last_or xs null) (inl t) in
      as_viewed (last_or xs null) null (head_or xs p) (last_or xs null) refl (ground (arith, nil))
        (ground (arith, nil, head_or-of_mem (head_or xs p) xs p null h)) (ground (arith, nil))
        (remove_last s l p (head_or xs p) p at_list at_p r.null_free (last_or xs null) m'
          (ground (arith, node_at s L l p xs ys r split, nil))
          (ground (arith, ends_at s L l p xs ys r split, nil)) ne nn ne' e')

  removed_middle :
      (has (head_or xs p) xs ≡ true)
      → (has (last_or xs null) xs ≡ true)
      → (has (head_or ys null) ys ≡ true)
      → (has (last_or ys p) ys ≡ true)
      → Updates s (remove_from_link p s) (write L l (xs ++ ys))
  removed_middle h t h' t' =
      let (m₁, e₁, ne₁, nn₁) = neighbour (head_or xs p) (inl h) in
      let (m₂, e₂, ne₂, nn₂) = neighbour (last_or xs null) (inl t) in
      let (m₃, e₃, ne₃, nn₃) = neighbour (head_or ys null) (inr h') in
      let (m₄, e₄, ne₄, nn₄) = neighbour (last_or ys p) (inr t') in
      as_viewed (last_or xs null) (head_or ys null) (head_or xs p) (last_or ys p) refl refl
        (head_or-of_mem (head_or xs p) xs p (head_or ys null) h)
        (last_or-of_mem (last_or ys p) ys p (last_or xs null) t')
        (remove_middle s l p (head_or xs p) (last_or ys p) at_list at_p r.null_free
          (last_or xs null) (head_or ys null) m₂ m₃ (node_at s L l p xs ys r split)
          (ends_at s L l p xs ys r split) ne₁ nn₁ ne₄ nn₄ ne₂ ne₃
          (ground (arith, apart s L l p xs ys r split (last_or xs null) t)) e₂ e₃)

  remove-split : Updates s (remove_from_link p s) (write L l (xs ++ ys))
  remove-split = elim (ends-cases xs p null) [
    | inl nil ↦ elim (ends-cases ys null p) [
      | inl nil' ↦
          as_viewed null null null null (ground (arith, nil)) (ground (arith, nil'))
            (ground (arith, nil, nil')) (ground (arith, nil, nil'))
            (remove_only s l p p p at_list at_p r.null_free
              (ground (arith, node_at s L l p xs ys r split, nil, nil'))
              (ground (arith, ends_at s L l p xs ys r split, nil, nil')))
      | inr (h, t) ↦ removed_first h t nil
    ]
    | inr (h, t) ↦ elim (ends-cases ys null p) [
      | inl nil' ↦ removed_last h t nil'
      | inr (h', t') ↦ removed_middle h t h' t'
    ]
  ]

abbrev pub without : Ptr → Lists → Lists
without p L k = erase p (L k)

module _ (s : Store) (L : Lists) (p : Ptr) (n : Node) (r : Represents s L)
    (e : s.node p ≡ some n) where
  without-free : n.link ≡ null → without p L ≡ L
  without-free free = fun_ext λ k. erase_absent p (L k) (not-mem_of_free s L p n k r e free)

  without-split :
      (xs ys : List Ptr)
      → L n.link ≡ xs ++ p ∷ ys
      → has p xs ≡ false
      → without p L ≡ write L n.link (xs ++ ys)
  without-split xs ys split front = fun_ext λ k. elim (eq-cases k n.link) [
    | inl same ↦ rw (same, ==_refl n.link, split) (erase-split p xs ys front)
    | inr other ↦ rw (==_ne k n.link other) (
        erase_absent p (L k)
          (ground (arith, list_unique s L p k n.link r, p_mem s L n.link p xs ys r split)))
  ]

  -- In a store of well-formed lists, RemoveFromLink never faults on an allocated item: the item
  -- leaves the list that it is in, if any, the lists are well formed again, and no other changes.
  pub remove_from_link-Updates : Updates s (remove_from_link p s) (without p L)
  unfolding remove_from_link
  remove_from_link-Updates = elim (eq-cases n.link null) [
    | inl free ↦ (s, ground arith, rw (without-free free) r, λ q. refl)
    | inr linked ↦
        let (xs, ys, split, front) = has-split p (L n.link) (r.member p n e linked) in
        rw (without-split xs ys split front) (remove-split s L n.link p xs ys r split)
  ]
