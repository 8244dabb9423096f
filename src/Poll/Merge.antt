-- ===== src/Poll/Merge.antt =====
-- The merged entries of poll: one for each descriptor, which asks for what any of the entries of
-- that descriptor asks for.
use jkyi_libco.Base.{
  get_elem?, ℕ, zero, suc, ◌<◌, ◌≡◌, refl, ◌⊎◌, inl, inr, false, Bool, Bool-cases, ◌&&◌, ◌||◌, none,
  some, Option, Option-cases, List, [], ◌∷◌, ◌++◌, append_assoc, append-nil, arith, length, ◌==◌,
  if◌then◌else◌, bit, lor, bit-lor,
}
use jkyi_libco.Poll.{Pollfd, Index, find, or_events, merge}

-- Whether one of the entries of `fd` asks for the event of bit `k`.
abbrev pub asks : ℕ → ℕ → List Pollfd → Bool
asks k fd [] = false
asks k fd (p ∷ ps) = (p.fd == fd && bit k p.events) || asks k fd ps

asks-append :
    (k fd : ℕ) (ps qs : List Pollfd) → asks k fd (ps ++ qs) ≡ (asks k fd ps || asks k fd qs)
asks-append k fd [] qs = refl
asks-append k fd (p ∷ ps) qs = ground (arith, asks-append k fd ps qs)

-- What the map and the merged entries say of the entries `ps` so far.
pub record IsMerged (ps merged : List Pollfd) (m : Index) : Type 0 where
  pub found :
      (fd j : ℕ)
      → find fd m ≡ some j
      → (q : Pollfd) × (get_elem? merged j ≡ some q)
        × (q.fd ≡ fd)
        × ((k : ℕ) → k < 16 → bit k q.events ≡ asks k fd ps)
  pub absent : (fd : ℕ) → find fd m ≡ none → (k : ℕ) → asks k fd ps ≡ false
  pub single : (j : ℕ) (q : Pollfd) → get_elem? merged j ≡ some q → find q.fd m ≡ some j

get_elem?-small :
    {A : Type 0} (xs : List A) (j : ℕ) (x : A) → get_elem? xs j ≡ some x → j < length xs
get_elem?-small [] j x h = cc
get_elem?-small (y ∷ ys) zero x h = omega arith
get_elem?-small (y ∷ ys) (suc j) x h = omega (arith, get_elem?-small ys j x h)

get_elem?-append :
    {A : Type 0} (xs ys : List A) (j : ℕ) → j < length xs → get_elem? (xs ++ ys) j ≡ get_elem? xs j
get_elem?-append [] ys j h = absurd (omega arith)
get_elem?-append (x ∷ xs) ys zero h = refl
get_elem?-append (x ∷ xs) ys (suc j) h = get_elem?-append xs ys j (omega arith)

get_elem?-last : {A : Type 0} (xs : List A) (x : A) → get_elem? (xs ++ x ∷ []) (length xs) ≡ some x
get_elem?-last [] x = refl
get_elem?-last (y ∷ ys) x = get_elem?-last ys x

get_elem?-cases :
    {A : Type 0} (xs : List A) (x y : A) (j : ℕ)
    → get_elem? (xs ++ x ∷ []) j ≡ some y
    → (get_elem? xs j ≡ some y) ⊎ ((j ≡ length xs) × (x ≡ y))
get_elem?-cases [] x y zero h = inr (refl, ground arith)
get_elem?-cases [] x y (suc j) h = cc
get_elem?-cases (z ∷ zs) x y zero h = inl h
get_elem?-cases (z ∷ zs) x y (suc j) h = elim (get_elem?-cases zs x y j h) [
  | inl e ↦ inl e
  | inr (e, f) ↦ inr (omega arith, f)
]

get_elem?-or_events :
    (i j events : ℕ) (qs : List Pollfd)
    → get_elem? (or_events j events qs) i ≡ elim (get_elem? qs i) as (λ x. Option Pollfd) [
      | none ↦ none
      | some q ↦ some (if i == j then record q { events = lor 16 q.events events } else q)
    ]
get_elem?-or_events i j events [] = ground arith
get_elem?-or_events zero zero events (q ∷ qs) = refl
get_elem?-or_events (suc i) zero events (q ∷ qs) = ground arith
get_elem?-or_events zero (suc j) events (q ∷ qs) = ground arith
get_elem?-or_events (suc i) (suc j) events (q ∷ qs) =
    ground (arith, get_elem?-or_events i j events qs)

-- The first entry of a descriptor is copied.
IsMerged-new :
    (ps merged : List Pollfd) (m : Index) (p : Pollfd)
    → IsMerged ps merged m
    → find p.fd m ≡ none
    → IsMerged (ps ++ p ∷ []) (merged ++ p ∷ []) ((p.fd, length merged) ∷ m)
IsMerged-new ps merged m p i new = record {
  found = λ fd j h. elim (Bool-cases (fd == p.fd)) [
    | inl same ↦ (
      p,
      ground (arith, get_elem?-last merged p),
      ground arith,
      λ k lt. ground (arith, asks-append k fd ps (p ∷ []), i.absent fd (ground arith) k),
    )
    | inr other ↦
        let (q, at, e, all) = i.found fd j (ground arith) in
        (
          q,
          ground (arith, get_elem?-append merged (p ∷ []) j (get_elem?-small merged j q at)),
          e,
          λ k lt. ground (arith, asks-append k fd ps (p ∷ []), all k lt),
        )
  ];
  absent = λ fd h k. ground (arith, asks-append k fd ps (p ∷ []), i.absent fd (ground arith) k);
  single = λ j q h. elim (get_elem?-cases merged p q j h) [
    | inl old ↦ ground (arith, i.single j q old)
    | inr (e, f) ↦ ground arith
  ];
}

-- A further entry adds its events.
IsMerged-again :
    (ps merged : List Pollfd) (m : Index) (p : Pollfd) (j : ℕ)
    → IsMerged ps merged m
    → find p.fd m ≡ some j
    → IsMerged (ps ++ p ∷ []) (or_events j p.events merged) m
IsMerged-again ps merged m p j i old =
    let (q₀, at₀, e₀, all₀) = i.found p.fd j old in
    record {
      found = λ fd i' h.
          let (q, at, e, all) = i.found fd i' h in
          elim (Bool-cases (i' == j)) [
            | inl same ↦ (
              record q { events = lor 16 q.events p.events },
              ground (arith, get_elem?-or_events i' j p.events merged),
              e,
              λ k lt. ground (
                arith,
                asks-append k fd ps (p ∷ []),
                all k lt,
                bit-lor 16 k q.events p.events lt,
              ),
            )
            | inr other ↦ (
              q,
              ground (arith, get_elem?-or_events i' j p.events merged),
              e,
              λ k lt. ground (arith, asks-append k fd ps (p ∷ []), all k lt),
            )
          ];
      absent = λ fd h k. ground (arith, asks-append k fd ps (p ∷ []), i.absent fd h k);
      single = λ i' q h. elim (Option-cases (get_elem? merged i')) [
        | inl none_there ↦ ground (arith, get_elem?-or_events i' j p.events merged)
        | inr (q', there) ↦
            ground (arith, get_elem?-or_events i' j p.events merged, i.single i' q' there)
      ];
    }

merge-keeps :
    (ps qs merged : List Pollfd) (m : Index)
    → IsMerged ps merged m
    → IsMerged (ps ++ qs) (merge qs merged m).0 (merge qs merged m).1
unfolding merge
merge-keeps ps [] merged m i = rw append-nil i
merge-keeps ps (p ∷ qs) merged m i = elim (Option-cases (find p.fd m)) [
  | inl new ↦
      rw (merge, new, ← append_assoc ps (p ∷ []) qs)
        (merge-keeps (ps ++ p ∷ []) qs (merged ++ p ∷ []) ((p.fd, length merged) ∷ m)
          (IsMerged-new ps merged m p i new))
  | inr (j, old) ↦
      rw (merge, old, ← append_assoc ps (p ∷ []) qs)
        (merge-keeps (ps ++ p ∷ []) qs (or_events j p.events merged) m
          (IsMerged-again ps merged m p j i old))
]

-- The loop of poll gives one merged entry to each descriptor that is asked for: the map leads
-- to it, it stands at no second place, and it asks for an event exactly if one of the entries of
-- its descriptor does.
pub merge-IsMerged : (fds : List Pollfd) → IsMerged fds (merge fds [] []).0 (merge fds [] []).1
merge-IsMerged fds =
    merge-keeps [] fds [] []
      (record { found = λ fd j h. cc; absent = λ fd h k. refl; single = λ j q h. cc })
