-- ===== src/Link/Joined.antt =====
-- What moving the items of one list to the end of another does to the store.
use jkyi_libco.Base.{
  ◌≡◌, ◌≢◌, true, false, none, some, List, [], ◌∷◌, ◌++◌, arith, Ptr, null, has, has-append,
  Distinct, head_or, last_or, head_or-append, last_or-append, ◌==◌, if◌then◌else◌, inl, inr,
  ==_refl, ==_ne, eq-cases, subst, Option, Option-cases, snoc-cases, ne_last, Distinct-apart, ◌⊎◌,
  Bool-cases, Distinct-append,
}
use jkyi_libco.Link.{Node, Store, write}
use jkyi_libco.Link.Chain.{Chain, Chain-append, Chain-front, Chain-back, frame, not-mem_null}
use jkyi_libco.Link.View.{Lists, Represents, list_unique}
use jkyi_libco.Link.Unlink.{with_next}

abbrev pub with_link : Ptr → Option Node → Option Node
with_link v none = none
with_link v (some n) = some (record n { link = v })

module _ (s : Store) (L : Lists) (l o x : Ptr) (xs : List Ptr) (r : Represents s L)
    (split : L o ≡ x ∷ xs) (at : l ≢ o) (nl : l ≢ null) where
  -- `t` is `s` after the items of `o` have moved to the end of `l`.
  pub record Joined (t : Store) : Type 0 where
    pub nodes :
        (q : Ptr)
        → t.node q ≡ (
            if q == x
            then some (record { prev = last_or (L l) null; next = head_or xs null; link = l })
            else if q == last_or (L l) null
            then with_next x (s.node q)
            else if has q xs
            then with_link l (s.node q)
            else s.node q)
    pub ends :
        (k : Ptr)
        → t.ends k ≡ (
            if k == o
            then record { head = null; tail = null }
            else if k == l
            then record { head = head_or (L l) x; tail = last_or xs x }
            else s.ends k)

  pub old : Chain s o null (x ∷ xs) null
  old = subst (λ ys. Chain s o null ys null) split (r.chain o)

  pub old-Distinct : Distinct (x ∷ xs)
  old-Distinct = subst Distinct split (r.distinct o)

  pub null_absent : (k : Ptr) → has null (L k) ≡ false
  null_absent k = not-mem_null k s null (L k) null r.null_free (r.chain k)

  pub apart : (q : Ptr) → has q (L l) ≡ true → has q (x ∷ xs) ≡ false
  apart q h = elim (Bool-cases (has q (x ∷ xs))) [
    | inl i ↦ absurd (at (list_unique s L q l o r h (ground (arith, split))))
    | inr i ↦ i
  ]

  not_last : (q : Ptr) → has q xs ≡ true → q ≢ last_or (L l) null
  not_last q h =
      ne_last q (L l) null (ground (arith, apart q)) (ground (arith, null_absent o, split))

  other_list :
      (t : Store)
      → Joined t
      → (q k : Ptr) → k ≢ o
      → k ≢ l
      → has q (L k) ≡ true
      → t.node q ≡ s.node q
  other_list t u q k ne ne' h =
      ground
        (arith, u.nodes q, out, out', ne_last q (L l) null out' (ground (arith, null_absent k)))
    where
      out : has q (x ∷ xs) ≡ false
      out = elim (Bool-cases (has q (x ∷ xs))) [
        | inl i ↦ absurd (ne (list_unique s L q k o r h (ground (arith, split))))
        | inr i ↦ i
      ]

      out' : has q (L l) ≡ false
      out' = elim (Bool-cases (has q (L l))) [
        | inl i ↦ absurd (ne' (list_unique s L q k l r h i))
        | inr i ↦ i
      ]

  front_snoc :
      (t : Store)
      → Joined t
      → (ys : List Ptr) (a : Ptr) → L l ≡ ys ++ a ∷ []
      → Chain t l null (ys ++ a ∷ []) x
  front_snoc t u ys a e =
      Chain-append l t null ys (a ∷ []) x
        (frame l s t null ys a (Chain-front l s null ys (a ∷ []) null whole) λ q h. ground (
          arith,
          u.nodes q,
          apart q,
          e,
          has-append q ys (a ∷ []),
          last_or-append ys (a ∷ []) null,
          Distinct-apart q ys (a ∷ []) distinct,
        ))
        (
          ground (
            arith,
            u.nodes a,
            apart a,
            e,
            has-append a ys (a ∷ []),
            ==_refl a,
            last_or-append ys (a ∷ []) null,
            Chain-back l s null ys (a ∷ []) null whole,
          ),
          tt,
        )
    where
      whole : Chain s l null (ys ++ a ∷ []) null
      whole = subst (λ zs. Chain s l null zs null) e (r.chain l)

      distinct : Distinct (ys ++ a ∷ [])
      distinct = subst Distinct e (r.distinct l)

  front : (t : Store) → Joined t → Chain t l null (L l) x
  front t u = elim (snoc-cases (L l)) [
    | inl e ↦ rw e tt
    | inr (ys, a, e) ↦ rw e (front_snoc t u ys a e)
  ]

  Joined-member :
      (t : Store)
      → Joined t
      → (q : Ptr) (m : Node) → t.node q ≡ some m
      → m.link ≢ null
      → has q (write (write L l (L l ++ x ∷ xs)) o [] m.link) ≡ true
  Joined-member t u q m e linked = elim (Bool-cases (has q (x ∷ xs))) [
    | inl i ↦ moved_in i
    | inr i ↦ kept i (Option-cases (s.node q))
  ]
    where
      moved_in :
          has q (x ∷ xs) ≡ true → has q (write (write L l (L l ++ x ∷ xs)) o [] m.link) ≡ true
      moved_in i =
          let is_l : m.link ≡ l = ground (arith, u.nodes q, not_last q) in
          ground (arith, has-append q (L l) (x ∷ xs))

      kept :
          has q (x ∷ xs) ≡ false
          → (s.node q ≡ none) ⊎ ((n : Node) × (s.node q ≡ some n))
          → has q (write (write L l (L l ++ x ∷ xs)) o [] m.link) ≡ true
      kept i (inl none_at) = absurd (ground (arith, u.nodes q))
      kept i (inr (n, e')) =
          let same : n.link ≡ m.link = ground (arith, u.nodes q) in
          ground (arith, r.member q n e', has-append q (L l) (x ∷ xs), split)

  moved :
      (t : Store)
      → Joined t
      → (a : Ptr) (ys : List Ptr) → Chain s o a ys null
      → ((q : Ptr) → has q ys ≡ true → has q xs ≡ true)
      → Chain t l a ys null
  moved t u a [] c h = tt
  moved t u a (y ∷ ys) c h = (
    ground (arith, u.nodes y, in_xs, old-Distinct, not_last y in_xs),
    moved t u y ys c.1 λ q i. h q (ground (arith)),
  )
    where
      in_xs : has y xs ≡ true
      in_xs = h y (ground (arith, ==_refl y))

  pub Joined-Represents :
      (t : Store) → Joined t → Represents t (write (write L l (L l ++ x ∷ xs)) o [])
  Joined-Represents t u = record {
    null_free = ground (arith, u.nodes null, r.null_free, null_absent o, split);
    no_null_list = ground (arith, r.no_null_list);
    ends = λ k. ground (
      arith,
      u.ends k,
      r.ends k,
      head_or-append (L l) (x ∷ xs) null,
      last_or-append (L l) (x ∷ xs) null,
    );
    chain = λ k. elim (eq-cases k o) [
      | inl same ↦ rw (same, ==_refl o) tt
      | inr ne ↦ rw (==_ne k o ne) (elim (eq-cases k l) [
        | inl same ↦
            rw (same, ==_refl l)
              (Chain-append l t null (L l) (x ∷ xs) null (front t u)
                (ground (arith, u.nodes x, ==_refl x), moved t u x xs old.1 λ q i. i))
        | inr ne' ↦
            rw (==_ne k l ne')
              (frame k s t null (L k) null (r.chain k) λ q h. other_list t u q k ne ne' h)
      ])
    ];
    distinct = λ k. elim (eq-cases k o) [
      | inl same ↦ rw (same, ==_refl o) tt
      | inr ne ↦ rw (==_ne k o ne) (elim (eq-cases k l) [
        | inl same ↦
            rw (same, ==_refl l) (Distinct-append (L l) (x ∷ xs) (r.distinct l) old-Distinct apart)
        | inr ne' ↦ rw (==_ne k l ne') (r.distinct k)
      ])
    ];
    member = Joined-member t u;
  }
