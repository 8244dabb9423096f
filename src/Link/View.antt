-- ===== src/Link/View.antt =====
-- The abstract view of a store: which addresses each list holds, in order.
use jkyi_libco.Base.{
  ◌≡◌, ◌≢◌, true, false, none, some, List, [], arith, Ptr, null, has, Distinct, head_or, last_or,
  Bool, ◌∙◌, ap, Bool-cases, inl, inr,
}
use jkyi_libco.Base.Run.{Run, ok}
use jkyi_libco.Link.{Node, Store}
use jkyi_libco.Link.Chain.{Chain, link-mem}

abbrev pub Lists : Type 0
Lists = Ptr → List Ptr

-- Each list is a doubly linked chain between its two ends, and an item whose `link` is set is in
-- that list.
pub record Represents (s : Store) (L : Lists) : Type 0 where
  pub null_free : s.node null ≡ none
  pub no_null_list : L null ≡ []
  pub ends : (l : Ptr) → s.ends l ≡ record { head = head_or (L l) null; tail = last_or (L l) null }
  pub chain : (l : Ptr) → Chain s l null (L l) null
  pub distinct : (l : Ptr) → Distinct (L l)
  pub member : (p : Ptr) (n : Node) → s.node p ≡ some n → n.link ≢ null → has p (L n.link) ≡ true

abbrev pub allocated : Store → Ptr → Bool
allocated s p = elim (s.node p) [ none ↦ false | some n ↦ true ]

-- The code ends without a fault in a store with these lists and the same items.
abbrev pub Updates : Store → Run Store → Lists → Type 0
Updates s r L =
    (t : Store) × (r ≡ ok t) × Represents t L × ((q : Ptr) → allocated t q ≡ allocated s q)

-- An item that is in no list is in none of the lists of the view, and conversely.
pub not-mem_of_free :
    (s : Store) (L : Lists) (p : Ptr) (n : Node) (l : Ptr)
    → Represents s L
    → s.node p ≡ some n
    → n.link ≡ null
    → has p (L l) ≡ false
not-mem_of_free s L p n l r e free = elim (Bool-cases (has p (L l))) [
  | inl h ↦ go (link-mem l s null (L l) null p (r.chain l) h)
  | inr h ↦ h
]
  where
    go : (m : Node) × (s.node p ≡ some m) × (m.link ≡ l) → has p (L l) ≡ false
    go (m, e', at) =
        let same : l ≡ null = ground arith in
        ap (λ (k : Ptr). has p (L k)) same ∙ ap (has p) r.no_null_list

-- No item is in two lists.
pub list_unique :
    (s : Store) (L : Lists) (p : Ptr) (k l : Ptr)
    → Represents s L
    → has p (L k) ≡ true
    → has p (L l) ≡ true
    → k ≡ l
list_unique s L p k l r h h' =
    go (link-mem k s null (L k) null p (r.chain k) h)
      (link-mem l s null (L l) null p (r.chain l) h')
  where
    go :
        (n : Node) × (s.node p ≡ some n) × (n.link ≡ k)
        → (n : Node) × (s.node p ≡ some n) × (n.link ≡ l)
        → k ≡ l
    go (n, e, at) (m, e', at') = ground arith

pub mem_allocated :
    (s : Store) (L : Lists) (p k : Ptr)
    → Represents s L
    → has p (L k) ≡ true
    → (n : Node) × (s.node p ≡ some n) × (n.link ≡ k)
mem_allocated s L p k r h = link-mem k s null (L k) null p (r.chain k) h
