-- ===== src/Context/Words.antt =====
-- Words on a stack: what is pushed is read again, from the bottom up.
use jkyi_libco.Base.{
  ℕ, zero, suc, ◌+◌, ◌-◌, ◌*◌, ◌≤◌, ◌<◌, ◌≡◌, ◌⊎◌, refl, List, [], ◌∷◌, arith, length, some,
  get_elem?,
}
use jkyi_libco.Link.{write}
use jkyi_libco.Timeout.{u64}
use jkyi_libco.Context.{below}

-- The words of a list are pushed below `top`.
abbrev pub store_words : (ℕ → ℕ) → ℕ → List ℕ → ℕ → ℕ
store_words mem top [] = mem
store_words mem top (v ∷ vs) = store_words (write mem (below top) v) (below top) vs

pub store_words-outside :
    (mem : ℕ → ℕ) (top : ℕ) (vs : List ℕ) (q : ℕ)
    → 8 * length vs ≤ top
    → top < u64
    → (q + 8 * length vs < top) ⊎ (top ≤ q)
    → store_words mem top vs q ≡ mem q
store_words-outside mem top [] q low high out = refl
store_words-outside mem top (v ∷ vs) q low high out =
    let at : below top ≡ top - 8 = omega arith in
    ground (
      arith,
      at,
      store_words-outside (write mem (below top) v) (below top) vs q (omega (arith, at))
          (omega (arith, at)) (ground (arith, at)),
    )

-- The `i`-th word of the list.
pub store_words-at :
    (mem : ℕ → ℕ) (top : ℕ) (vs : List ℕ) (i v : ℕ)
    → 8 * length vs ≤ top
    → top < u64
    → get_elem? vs i ≡ some v
    → store_words mem top vs (top - 8 * (i + 1)) ≡ v
store_words-at mem top [] i v low high h = cc
store_words-at mem top (x ∷ vs) zero v low high h =
    let at : below top ≡ top - 8 = omega arith in
    let here : top - 8 * (0 + 1) ≡ below top = omega (arith, at) in
    rw here (
      ground (
        arith,
        at,
        store_words-outside (write mem (below top) x) (below top) vs (below top) (omega (arith, at))
            (omega (arith, at)) (ground (arith, at)),
      ))
store_words-at mem top (x ∷ vs) (suc i) v low high h =
    let at : below top ≡ top - 8 = omega arith in
    let there : top - 8 * (suc i + 1) ≡ below top - 8 * (i + 1) = omega (arith, at) in
    rw there (
      store_words-at (write mem (below top) x) (below top) vs i v (omega (arith, at))
        (omega (arith, at)) h)
