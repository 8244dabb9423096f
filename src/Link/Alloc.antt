-- ===== src/Link/Alloc.antt =====
-- Allocating and freeing items, and what the view says of an item that is in no list.
use jkyi_libco.Base.{
  ◌≡◌, ◌≢◌, refl, false, none, some, arith, Ptr, null, has, inl, inr, eq-cases, Bool-cases,
  Option-cases,
}
use jkyi_libco.Link.{Node, Store, calloc, free}
use jkyi_libco.Link.Chain.{frame}
use jkyi_libco.Link.View.{Lists, Represents, not-mem_of_free, mem_allocated, allocated}

pub free_of_absent :
    (s : Store) (L : Lists) (p : Ptr) (n : Node)
    → Represents s L
    → s.node p ≡ some n
    → ((k : Ptr) → has p (L k) ≡ false)
    → n.link ≡ null
free_of_absent s L p n r e out = elim (eq-cases n.link null) [
  | inl h ↦ h
  | inr h ↦ absurd (ground (arith, r.member p n e h, out n.link))
]

pub node_of_allocated :
    (s t : Store) (p : Ptr) (n : Node)
    → allocated t p ≡ allocated s p
    → s.node p ≡ some n
    → (m : Node) × (t.node p ≡ some m)
node_of_allocated s t p n same e = elim (Option-cases (t.node p)) [
  | inl gone ↦ absurd (ground arith)
  | inr found ↦ found
]

module _ (s : Store) (L : Lists) (p : Ptr) (r : Represents s L) where
  -- A change of a node that is in no list, to a free node or to nothing.
  write-Represents :
      (c : Store)
      → p ≢ null
      → ((k : Ptr) → has p (L k) ≡ false)
      → ((q : Ptr) → q ≢ p → c.node q ≡ s.node q)
      → ((q : Ptr) → c.ends q ≡ s.ends q)
      → ((n : Node) → c.node p ≡ some n → n.link ≡ null)
      → Represents c L
  write-Represents c nn out same ends free = record {
    null_free = ground (arith, same null, r.null_free);
    no_null_list = r.no_null_list;
    ends = λ k. ground (arith, ends k, r.ends k);
    chain = λ k. frame k s c null (L k) null (r.chain k) λ q h. same q (ground (arith, out k));
    distinct = r.distinct;
    member = λ q m e linked. elim (eq-cases q p) [
      | inl at ↦ absurd (linked (free m (ground (arith, at))))
      | inr ne ↦ r.member q m (ground (arith, same q ne)) linked
    ];
  }

  pub calloc-Represents : p ≢ null → s.node p ≡ none → Represents (calloc p s) L
  calloc-Represents nn fresh =
      write-Represents (calloc p s) nn out (λ q ne. ground arith) (λ q. refl) (λ n e. ground arith)
    where
      out : (k : Ptr) → has p (L k) ≡ false
      out k = elim (Bool-cases (has p (L k))) [
        | inl h ↦ absurd (ground (arith, mem_allocated s L p k r h))
        | inr h ↦ h
      ]

  pub free-Represents : (n : Node) → s.node p ≡ some n → n.link ≡ null → Represents (free p s) L
  free-Represents n e unlinked =
      write-Represents (free p s) (ground (arith, r.null_free))
        (λ k. not-mem_of_free s L p n k r e unlinked) (λ q ne. ground arith) (λ q. refl)
        (λ m e'. ground arith)
