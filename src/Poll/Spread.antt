-- ===== src/Poll/Spread.antt =====
-- What the hooked poll gives back where a descriptor occurs more than once (co_hook_sys_call.cc, lines
-- 481 to 495).
use jkyi_libco.Base.{
  get_elem?, ℕ, zero, suc, ◌<◌, ◌≡◌, refl, ap, inl, inr, true, false, some, Option-cases, List, [],
  ◌∷◌, ◌++◌, map, arith, length, ◌==◌, if◌then◌else◌, land, Bool-cases,
}
use jkyi_libco.Poll.{Pollfd, Index, find, or_events, merge, spread, is_positive, poll}
use jkyi_libco.Poll.Merge.{merge-IsMerged}

-- Where a descriptor stands in the map stays.
find-merge :
    (qs merged : List Pollfd) (m : Index) (fd j : ℕ)
    → find fd m ≡ some j
    → find fd (merge qs merged m).1 ≡ some j
unfolding merge
find-merge [] merged m fd j h = h
find-merge (p ∷ qs) merged m fd j h = elim (Option-cases (find p.fd m)) [
  | inl new ↦
      let later =
        find-merge qs (merged ++ p ∷ []) ((p.fd, length merged) ∷ m) fd j
          (ground (arith, new, h)) in
      rw (merge, new) later
  | inr (i, old) ↦ rw (merge, old) (find-merge qs (or_events i p.events merged) m fd j h)
]

-- The map has a place for each descriptor that is asked for.
merge-finds :
    (qs merged : List Pollfd) (m : Index) (i : ℕ) (p : Pollfd)
    → get_elem? qs i ≡ some p
    → (j : ℕ) × (find p.fd (merge qs merged m).1 ≡ some j)
unfolding merge
merge-finds [] merged m i p h = cc
merge-finds (q ∷ qs) merged m zero p h = elim (Option-cases (find q.fd m)) [
  | inl new ↦
      let here : find p.fd ((q.fd, length merged) ∷ m) ≡ some (length merged) = ground (arith, h) in
      rw (merge, new)
        (
          length merged,
          find-merge qs (merged ++ q ∷ []) ((q.fd, length merged) ∷ m) p.fd (length merged) here,
        )
  | inr (j, old) ↦
      let here : find p.fd m ≡ some j = ground (arith, h, old) in
      rw (merge, old) (j, find-merge qs (or_events j q.events merged) m p.fd j here)
]
merge-finds (q ∷ qs) merged m (suc i) p h = elim (Option-cases (find q.fd m)) [
  | inl new ↦ rw (merge, new) (merge-finds qs (merged ++ q ∷ []) ((q.fd, length merged) ∷ m) i p h)
  | inr (j, old) ↦ rw (merge, old) (merge-finds qs (or_events j q.events merged) m i p h)
]

-- An answer for each descriptor, cut to what the entry asks for.
abbrev pub masked : (ℕ → ℕ) → Pollfd → Pollfd
masked answer p = record p { revents = land 16 (answer p.fd) p.events }

abbrev pub answered : (ℕ → ℕ) → Pollfd → Pollfd
answered answer q = record q { revents = answer q.fd }

get_elem?-map :
    {A B : Type 0} (f : A → B) (xs : List A) (j : ℕ) (x : A)
    → get_elem? xs j ≡ some x
    → get_elem? (map f xs) j ≡ some (f x)
get_elem?-map f [] j x h = cc
get_elem?-map f (y ∷ ys) zero x h = ground (arith, h)
get_elem?-map f (y ∷ ys) (suc j) x h = get_elem?-map f ys j x h

spread-masked :
    (answer : ℕ → ℕ) (merged : List Pollfd) (m : Index) (ps : List Pollfd)
    → ((i : ℕ) (p : Pollfd)
        → get_elem? ps i ≡ some p
        → (j : ℕ) × (q : Pollfd) × (find p.fd m ≡ some j)
          × (get_elem? merged j ≡ some q)
          × (q.revents ≡ answer p.fd))
    → spread merged m ps ≡ map (masked answer) ps
unfolding spread
spread-masked answer merged m [] h = refl
spread-masked answer merged m (p ∷ ps) h =
    let (j, q, at, there, same) = h 0 p refl in
    let rest = spread-masked answer merged m ps (λ i r e. h (suc i) r e) in
    rw (spread, at, there, same, rest) refl

module _ {W : Type 0} (sys inner : List Pollfd → (timeout : ℕ) → W → ℕ × List Pollfd × W) where
  -- co_poll_inner gives the same answer for each descriptor, in its entry. Then the hooked poll of a
  -- coroutine, with a time limit and with a descriptor that occurs twice, gives back in every entry
  -- the answer for its descriptor, as far as the entry asks for it, and leaves the entries alone
  -- where co_poll_inner returns 0 or less.
  pub poll-merge :
      (fds : List Pollfd) (timeout : ℕ) (w : W) (answer : ℕ → ℕ)
      → (timeout == 0) ≡ false
      → length (merge fds [] []).0 < length fds
      → 1 < length fds
      → (inner (merge fds [] []).0 timeout w).1 ≡ map (answered answer) (merge fds [] []).0
      → let (ret, qs, z) = inner (merge fds [] []).0 timeout w in
        poll sys inner true fds timeout w
        ≡ (ret, if is_positive ret then map (masked answer) fds else fds, z)
  unfolding poll
  poll-merge fds timeout w answer limit twice many replies =
      let i = merge-IsMerged fds in
      let places : spread (inner (merge fds [] []).0 timeout w).1 (merge fds [] []).1 fds
          ≡ map (masked answer) fds =
        rw replies (
          spread-masked answer (map (answered answer) (merge fds [] []).0) (merge fds [] []).1 fds
            λ k p at.
              let (j, found) = merge-finds fds [] [] k p at in
              let (q, there, same, all) = i.found p.fd j found in
              (
                j,
                answered answer q,
                found,
                get_elem?-map (answered answer) (merge fds [] []).0 j q there,
                ap answer same,
              )) in
      elim (Bool-cases (is_positive (inner (merge fds [] []).0 timeout w).0)) [
        | inl ready ↦ ground (arith, limit, twice, many, places, ready)
        | inr nothing ↦ ground (arith, limit, twice, many, nothing)
      ]
