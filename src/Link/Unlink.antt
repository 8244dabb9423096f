-- ===== src/Link/Unlink.antt =====
-- What taking one item out of its list does to the store: shared by RemoveFromLink and PopHead.
use jkyi_libco.Base.{
  ◌≡◌, refl, ◌≢◌, true, false, none, some, List, [], ◌∷◌, ◌++◌, arith, Ptr, null, has, has-append,
  Distinct, Distinct-apart, Distinct-front, Distinct-back, head_or, head_or-append, last_or,
  last_or-append, ne_last, ne_head, ◌==◌, if◌then◌else◌, inl, inr, ==_refl, ==_ne, eq-cases, subst,
  snoc-cases, Option, ap, Bool-cases, Option-cases, Distinct-append,
}
use jkyi_libco.Link.{Node, Store, write, detached}
use jkyi_libco.Link.Chain
use jkyi_libco.Link.Chain.{Chain, Chain-append, Chain-front, Chain-back, frame}
use jkyi_libco.Link.View.{Lists, Represents, list_unique}

abbrev pub with_next : Ptr → Option Node → Option Node
with_next v none = none
with_next v (some n) = some (record n { next = v })

abbrev pub with_prev : Ptr → Option Node → Option Node
with_prev v none = none
with_prev v (some n) = some (record n { prev = v })

-- `t` is `s` after `p` has left the list `l`, in which it stood between `xs` and `ys`.
pub record Unlinked (s t : Store) (l p : Ptr) (xs ys : List Ptr) : Type 0 where
  pub nodes :
      (q : Ptr)
      → t.node q ≡ (
          if q == p
          then some detached
          else if q == last_or xs null
          then with_next (head_or ys null) (s.node q)
          else if q == head_or ys null
          then with_prev (last_or xs null) (s.node q)
          else s.node q)
  pub ends :
      (k : Ptr)
      → t.ends k ≡ (
          if k == l
          then record { head = head_or xs (head_or ys null); tail = last_or ys (last_or xs null) }
          else s.ends k)

module _ (s : Store) (L : Lists) (l p : Ptr) (xs ys : List Ptr) (r : Represents s L)
    (split : L l ≡ xs ++ p ∷ ys) where
  old-Chain : Chain s l null (xs ++ p ∷ ys) null
  old-Chain = subst (λ zs. Chain s l null zs null) split (r.chain l)

  pub old-Distinct : Distinct (xs ++ p ∷ ys)
  old-Distinct = subst Distinct split (r.distinct l)

  -- The node of `p`, and the ends of its list.
  pub node_at :
      s.node p ≡ some (record { prev = last_or xs null; next = head_or ys null; link = l })
  node_at = (Chain-back l s null xs (p ∷ ys) null old-Chain).0

  pub ends_at : s.ends l ≡ record { head = head_or xs p; tail = last_or ys p }
  ends_at =
      ground
        (arith, r.ends l, split, head_or-append xs (p ∷ ys) null, last_or-append xs (p ∷ ys) null)

  pub not-mem_front : has p xs ≡ false
  not-mem_front = elim (Bool-cases (has p xs)) [
    | inl h ↦ ground (arith, Distinct-apart p xs (p ∷ ys) old-Distinct h)
    | inr h ↦ h
  ]

  pub not-mem_back : has p ys ≡ false
  not-mem_back = (Distinct-back xs (p ∷ ys) old-Distinct).0

  pub apart : (q : Ptr) → has q xs ≡ true → has q ys ≡ false
  apart q h = ground (arith, Distinct-apart q xs (p ∷ ys) old-Distinct h)

  pub null_absent : (k : Ptr) → has null (L k) ≡ false
  null_absent k = Chain.not-mem_null k s null (L k) null r.null_free (r.chain k)

  mem_list : (q : Ptr) → has q (xs ++ ys) ≡ true → has q (L l) ≡ true
  mem_list q h = ground (arith, split, has-append q xs ys, has-append q xs (p ∷ ys))

  list_mem : (q : Ptr) → has q (L l) ≡ true → q ≢ p → has q (xs ++ ys) ≡ true
  list_mem q h ne = ground (arith, split, has-append q xs ys, has-append q xs (p ∷ ys))

  pub ne_null : (q k : Ptr) → has q (L k) ≡ true → q ≢ null
  ne_null q k h = ground (arith, null_absent k)

  pub p_mem : has p (L l) ≡ true
  p_mem = ground (arith, split, has-append p xs (p ∷ ys), ==_refl p)

  pub list_ne_null : l ≢ null
  list_ne_null e = ground (arith, p_mem, ap (λ (k : Ptr). has p (L k)) e, ap (has p) r.no_null_list)

  pub front_mem : (q : Ptr) → has q xs ≡ true → has q (L l) ≡ true
  front_mem q h = mem_list q (ground (arith, has-append q xs ys))

  pub back_mem : (q : Ptr) → has q ys ≡ true → has q (L l) ≡ true
  back_mem q h = mem_list q (ground (arith, has-append q xs ys))

  back_apart : (q : Ptr) → has q ys ≡ true → has q xs ≡ false
  back_apart q h = ground (arith, apart q)

  module _ (t : Store) (u : Unlinked s t l p xs ys) where
    untouched : (q : Ptr) → q ≢ p → q ≢ last_or xs null → q ≢ head_or ys null → t.node q ≡ s.node q
    untouched q a b c = ground (arith, u.nodes q)

    other_list : (q k : Ptr) → k ≢ l → has q (L k) ≡ true → t.node q ≡ s.node q
    other_list q k ne h = elim (Bool-cases (has q (L l))) [
      | inl i ↦ absurd (ne (list_unique s L q k l r h i))
      | inr o ↦
          untouched q (ground (arith, split, has-append q xs (p ∷ ys)))
            (ne_last q xs null (ground (arith, split, has-append q xs (p ∷ ys))) (ne_null q k h))
            (ne_head q ys null (ground (arith, split, has-append q xs (p ∷ ys))) (ne_null q k h))
    ]

    front_snoc : (zs : List Ptr) (a : Ptr) → xs ≡ zs ++ a ∷ [] → Chain t l null xs (head_or ys null)
    front_snoc zs a e = rw e (
        Chain-append l t null zs (a ∷ []) (head_or ys null)
          (frame l s t null zs a (Chain-front l s null zs (a ∷ []) p old) λ q h.
            let in_xs : has q xs ≡ true = ground (arith, e, has-append q zs (a ∷ [])) in
            let in_l = front_mem q in_xs in
            untouched q (ground (arith, not-mem_front))
              (ground
                (arith, e, last_or-append zs (a ∷ []) null, Distinct-apart q zs (a ∷ []) distinct))
              (ne_head q ys null (apart q in_xs) (ne_null q l in_l)))
          (
            ground (
              arith,
              u.nodes a,
              not-mem_front,
              e,
              last_or-append zs (a ∷ []) null,
              has-append p zs (a ∷ []),
              Chain-back l s null zs (a ∷ []) p old,
            ),
            tt,
          ))
      where
        old : Chain s l null (zs ++ a ∷ []) p
        old = subst (λ ws. Chain s l null ws p) e (Chain-front l s null xs (p ∷ ys) null old-Chain)

        distinct : Distinct (zs ++ a ∷ [])
        distinct = subst Distinct e (Distinct-front xs (p ∷ ys) old-Distinct)

    front : Chain t l null xs (head_or ys null)
    front = elim (snoc-cases xs) [ inl e ↦ rw e tt | inr (zs, a, e) ↦ front_snoc zs a e ]

    back_cons : (b : Ptr) (zs : List Ptr) → ys ≡ b ∷ zs → Chain t l (last_or xs null) ys null
    back_cons b zs e = rw e (
      ground (arith, u.nodes b, not-mem_back, e, old.0, apart_b),
      frame l s t b zs null old.1 λ q h.
          let in_ys : has q ys ≡ true = ground (arith, e) in
          let in_l = back_mem q in_ys in
          untouched q (ground (arith, not-mem_back))
            (ne_last q xs null (back_apart q in_ys) (ne_null q l in_l))
            (ground (arith, e, distinct)),
    )
      where
        old : Chain s l p (b ∷ zs) null
        old = subst (λ ws. Chain s l p ws null) e (Chain-back l s null xs (p ∷ ys) null old-Chain).1

        distinct : Distinct (b ∷ zs)
        distinct = subst Distinct e (Distinct-back xs (p ∷ ys) old-Distinct).1

        apart_b : b ≢ last_or xs null
        apart_b =
            let in_ys : has b ys ≡ true = ground (arith, e, ==_refl b) in
            ne_last b xs null (back_apart b in_ys) (ne_null b l (back_mem b in_ys))

    back : (zs : List Ptr) → ys ≡ zs → Chain t l (last_or xs null) ys null
    back [] e = rw e tt
    back (b ∷ zs) e = back_cons b zs e

    link_kept :
        (q : Ptr) (m : Node)
        → t.node q ≡ some m
        → m.link ≢ null
        → (n : Node) × (s.node q ≡ some n) × (n.link ≡ m.link) × (q ≢ p)
    link_kept q m e linked = elim (Option-cases (s.node q)) [
      | inl gone ↦ absurd (ground (arith, u.nodes q))
      | inr (n, e') ↦ (n, e', ground (arith, u.nodes q), ground (arith, u.nodes q))
    ]

    pub Unlinked-Represents : Represents t (write L l (xs ++ ys))
    Unlinked-Represents = record {
      null_free = ground (arith, u.nodes null, r.null_free, node_at);
      no_null_list = ground (arith, r.no_null_list, list_ne_null);
      ends = λ k.
          ground (arith, u.ends k, r.ends k, head_or-append xs ys null, last_or-append xs ys null);
      chain = λ k. elim (eq-cases k l) [
        | inl same ↦ rw (same, ==_refl l) (Chain-append l t null xs ys null front (back ys refl))
        | inr ne ↦
            rw (==_ne k l ne) (frame k s t null (L k) null (r.chain k) λ q h. other_list q k ne h)
      ];
      distinct = λ k. elim (eq-cases k l) [
        | inl same ↦
            rw (same, ==_refl l)
              (Distinct-append xs ys (Distinct-front xs (p ∷ ys) old-Distinct)
                (Distinct-back xs (p ∷ ys) old-Distinct).1 apart)
        | inr ne ↦ rw (==_ne k l ne) (r.distinct k)
      ];
      member = λ q m e linked.
          let (n, e', same, ne) = link_kept q m e linked in
          ground (arith, r.member q n e', list_mem q);
    }
