-- ===== src/Link/Chain.antt =====
-- What it is for the nodes of a store to be the doubly linked list of given addresses.
use jkyi_libco.Base.{
  ◌≡◌, refl, true, false, none, some, inl, inr, Bool-cases, List, [], ◌∷◌, ◌++◌, arith, Ptr, null,
  ◌==◌, has, head_or, last_or, head_or-append,
}
use jkyi_libco.Link.{Node, Store}

-- From `prev` to `next` the nodes of `xs` point at their neighbours and at the list `l`.
abbrev pub Chain : Store → Ptr → Ptr → List Ptr → Ptr → Type 0
Chain s l prev [] next = Unit {0}
Chain s l prev (x ∷ xs) next =
    (s.node x ≡ some (record { prev = prev; next = head_or xs next; link = l }))
    × Chain s l x xs next

module _ (l : Ptr) where
  pub Chain-append :
      (s : Store) (prev : Ptr) (xs ys : List Ptr) (next : Ptr)
      → Chain s l prev xs (head_or ys next)
      → Chain s l (last_or xs prev) ys next
      → Chain s l prev (xs ++ ys) next
  Chain-append s prev [] ys next c d = d
  Chain-append s prev (x ∷ xs) ys next c d =
      ground (arith, head_or-append xs ys next, Chain-append s x xs ys next c.1 d)

  pub Chain-front :
      (s : Store) (prev : Ptr) (xs ys : List Ptr) (next : Ptr)
      → Chain s l prev (xs ++ ys) next
      → Chain s l prev xs (head_or ys next)
  Chain-front s prev [] ys next c = tt
  Chain-front s prev (x ∷ xs) ys next c =
      ground (arith, head_or-append xs ys next, Chain-front s x xs ys next c.1)

  pub Chain-back :
      (s : Store) (prev : Ptr) (xs ys : List Ptr) (next : Ptr)
      → Chain s l prev (xs ++ ys) next
      → Chain s l (last_or xs prev) ys next
  Chain-back s prev [] ys next c = c
  Chain-back s prev (x ∷ xs) ys next c = Chain-back s x xs ys next c.1

  -- A chain survives any change that spares its nodes.
  pub frame :
      (s t : Store) (prev : Ptr) (xs : List Ptr) (next : Ptr)
      → Chain s l prev xs next
      → ((p : Ptr) → has p xs ≡ true → t.node p ≡ s.node p)
      → Chain t l prev xs next
  frame s t prev [] next c same = tt
  frame s t prev (x ∷ xs) next c same =
      ground (arith, same x, frame s t x xs next c.1 λ p h. same p (ground arith))

  -- Its nodes are allocated, so none is `NULL`.
  pub not-mem_null :
      (s : Store) (prev : Ptr) (xs : List Ptr) (next : Ptr)
      → s.node null ≡ none
      → Chain s l prev xs next
      → has null xs ≡ false
  not-mem_null s prev [] next e c = refl
  not-mem_null s prev (x ∷ xs) next e c = ground (arith, not-mem_null s x xs next e c.1)

  -- A member names its list.
  pub link-mem :
      (s : Store) (prev : Ptr) (xs : List Ptr) (next p : Ptr)
      → Chain s l prev xs next
      → has p xs ≡ true
      → (n : Node) × (s.node p ≡ some n) × (n.link ≡ l)
  link-mem s prev [] next p c h = cc
  link-mem s prev (x ∷ xs) next p c h = elim (Bool-cases (p == x)) [
    | inl e ↦ (record { prev = prev; next = head_or xs next; link = l }, ground arith, refl)
    | inr e ↦ link-mem s x xs next p c.1 (ground arith)
  ]
