-- ===== src/Base/Lists.antt =====
-- Lists measured by native numbers, and lists of addresses.
use Prim.Native.Nat.{ℕ, suc, ◌+◌, ◌≤◌}
use mathlib.Core.Path.{◌≡◌, refl, ap}
use mathlib.Core.Logic.{◌≢◌, ◌⊎◌, inl, inr}
use mathlib.Core.Bool.{Bool, true, false, ◌||◌, or_assoc}
use mathlib.Core.List.{List, [], ◌∷◌, ◌++◌}
use native.Mathlib.Omega.{arith}
use jkyi_libco.Base.Tests.{◌==◌, ==_refl, if◌then◌else◌, Bool-cases}

module _ {ℓ} {A : Type ℓ} where
  abbrev pub length : List A → ℕ
  length [] = 0
  length (x ∷ xs) = suc (length xs)

  pub length-append : (xs ys : List A) → length (xs ++ ys) ≡ length xs + length ys
  length-append [] ys = omega arith
  length-append (x ∷ xs) ys = omega (arith, length-append xs ys)

  -- A list is empty or begins with a first element.
  pub cons-cases : (xs : List A) → (xs ≡ []) ⊎ ((x : A) × (ys : List A) × (xs ≡ x ∷ ys))
  cons-cases [] = inl refl
  cons-cases (x ∷ ys) = inr (x, ys, refl)

  -- A list is empty or ends in a last element.
  pub snoc-cases : (xs : List A) → (xs ≡ []) ⊎ ((ys : List A) × (a : A) × (xs ≡ ys ++ a ∷ []))
  snoc-cases [] = inl refl
  snoc-cases (x ∷ xs) = go (snoc-cases xs)
    where
      go :
          (xs ≡ []) ⊎ ((ys : List A) × (a : A) × (xs ≡ ys ++ a ∷ []))
          → (x ∷ xs ≡ []) ⊎ ((ys : List A) × (a : A) × (x ∷ xs ≡ ys ++ a ∷ []))
      go (inl e) = inr ([], x, ap (◌∷◌ x) e)
      go (inr (ys, a, e)) = inr (x ∷ ys, a, ap (◌∷◌ x) e)

-- Membership as a test.
abbrev pub has : ℕ → List ℕ → Bool
has a [] = false
has a (x ∷ xs) = (a == x) || has a xs

pub has-append : (a : ℕ) (xs ys : List ℕ) → has a (xs ++ ys) ≡ (has a xs || has a ys)
has-append a [] ys = refl
has-append a (x ∷ xs) ys = rw (has-append a xs ys, or_assoc)

abbrev pub Distinct : List ℕ → Type 0
Distinct [] = Unit {0}
Distinct (x ∷ xs) = (has x xs ≡ false) × Distinct xs

-- The first occurrence is dropped.
abbrev pub erase : ℕ → List ℕ → List ℕ
erase a [] = []
erase a (x ∷ xs) = if a == x then xs else x ∷ erase a xs

-- The first and the last element, or `d` where there is none.
abbrev pub head_or : List ℕ → ℕ → ℕ
head_or [] d = d
head_or (x ∷ xs) d = x

abbrev pub last_or : List ℕ → ℕ → ℕ
last_or [] d = d
last_or (x ∷ xs) d = last_or xs x

abbrev pub tail : List ℕ → List ℕ
tail [] = []
tail (x ∷ xs) = xs

pub head_or-append : (xs ys : List ℕ) (d : ℕ) → head_or (xs ++ ys) d ≡ head_or xs (head_or ys d)
head_or-append [] ys d = refl
head_or-append (x ∷ xs) ys d = refl

pub last_or-append : (xs ys : List ℕ) (d : ℕ) → last_or (xs ++ ys) d ≡ last_or ys (last_or xs d)
last_or-append [] ys d = refl
last_or-append (x ∷ xs) ys d = last_or-append xs ys x

-- A member splits its list.
pub has-split :
    (a : ℕ) (xs : List ℕ)
    → has a xs ≡ true
    → (ys : List ℕ) × (zs : List ℕ) × (xs ≡ ys ++ a ∷ zs) × (has a ys ≡ false)
has-split a [] h = cc
has-split a (x ∷ xs) h = elim (Bool-cases (a == x)) [
  | inl e ↦ ([], xs, ground arith, refl)
  | inr e ↦ go e (has-split a xs (ground arith))
]
  where
    go :
        (a == x) ≡ false
        → ((ys : List ℕ) × (zs : List ℕ) × (xs ≡ ys ++ a ∷ zs) × (has a ys ≡ false))
        → (ys : List ℕ) × (zs : List ℕ) × (x ∷ xs ≡ ys ++ a ∷ zs) × (has a ys ≡ false)
    go e (ys, zs, split, n) = (x ∷ ys, zs, ap (◌∷◌ x) split, ground arith)

pub erase-split : (a : ℕ) (ys zs : List ℕ) → has a ys ≡ false → erase a (ys ++ a ∷ zs) ≡ ys ++ zs
erase-split a [] zs h = ground arith
erase-split a (y ∷ ys) zs h = ground (arith, erase-split a ys zs)

pub erase_absent : (a : ℕ) (xs : List ℕ) → has a xs ≡ false → erase a xs ≡ xs
erase_absent a [] h = refl
erase_absent a (x ∷ xs) h = ground (arith, erase_absent a xs)

-- In a list without repetitions, `erase` removes exactly its argument.
pub has-erase :
    (a b : ℕ) (xs : List ℕ)
    → Distinct xs
    → has b (erase a xs) ≡ (if a == b then false else has b xs)
has-erase a b [] d = ground arith
has-erase a b (x ∷ xs) d = ground (arith, has-erase a b xs)

Distinct-erase : (a : ℕ) (xs : List ℕ) → Distinct xs → Distinct (erase a xs)
Distinct-erase a [] d = tt
Distinct-erase a (x ∷ xs) d = ground (arith, Distinct-erase a xs, has-erase a x xs)

pub Distinct-append :
    (xs ys : List ℕ)
    → Distinct xs
    → Distinct ys
    → ((a : ℕ) → has a xs ≡ true → has a ys ≡ false)
    → Distinct (xs ++ ys)
Distinct-append [] ys dx dy apart = dy
Distinct-append (x ∷ xs) ys dx dy apart = ground (
  arith,
  has-append x xs ys,
  apart x,
  Distinct-append xs ys dx.1 dy λ a h. apart a (ground arith),
)

-- The two parts of a list without repetitions share nothing.
pub Distinct-apart :
    (a : ℕ) (xs ys : List ℕ) → Distinct (xs ++ ys) → has a xs ≡ true → has a ys ≡ false
Distinct-apart a [] ys d h = cc
Distinct-apart a (x ∷ xs) ys d h = ground (arith, has-append x xs ys, Distinct-apart a xs ys d.1)

pub Distinct-front : (xs ys : List ℕ) → Distinct (xs ++ ys) → Distinct xs
Distinct-front [] ys d = tt
Distinct-front (x ∷ xs) ys d = ground (arith, has-append x xs ys, Distinct-front xs ys d.1)

pub Distinct-back : (xs ys : List ℕ) → Distinct (xs ++ ys) → Distinct ys
Distinct-back [] ys d = d
Distinct-back (x ∷ xs) ys d = Distinct-back xs ys d.1

-- What is in no part of a list is none of its ends.
pub ne_last : (q : ℕ) (xs : List ℕ) (d : ℕ) → has q xs ≡ false → q ≢ d → q ≢ last_or xs d
ne_last q [] d h n = n
ne_last q (x ∷ xs) d h n = ne_last q xs x (ground arith) (ground arith)

pub ne_head : (q : ℕ) (xs : List ℕ) (d : ℕ) → has q xs ≡ false → q ≢ d → q ≢ head_or xs d
ne_head q [] d h n = n
ne_head q (x ∷ xs) d h n = ground arith

-- A list is empty, or holds both its ends.
pub ends-cases :
    (xs : List ℕ) (d e : ℕ)
    → (xs ≡ []) ⊎ ((has (head_or xs d) xs ≡ true) × (has (last_or xs e) xs ≡ true))
ends-cases [] d e = inl refl
ends-cases (x ∷ xs) d e = inr (ground arith, last_mem x xs)
  where
    last_mem : (x : ℕ) (xs : List ℕ) → has (last_or xs x) (x ∷ xs) ≡ true
    last_mem x [] = ground arith
    last_mem x (y ∷ ys) = ground (arith, last_mem y ys)

-- The default does not matter where there is an element.
pub last_or-of_mem : (a : ℕ) (xs : List ℕ) (d e : ℕ) → has a xs ≡ true → last_or xs d ≡ last_or xs e
last_or-of_mem a [] d e h = cc
last_or-of_mem a (x ∷ xs) d e h = refl

pub head_or-of_mem : (a : ℕ) (xs : List ℕ) (d e : ℕ) → has a xs ≡ true → head_or xs d ≡ head_or xs e
head_or-of_mem a [] d e h = cc
head_or-of_mem a (x ∷ xs) d e h = refl

pub nil_of_length {ℓ} : {A : Type ℓ} (xs : List A) → length xs ≡ 0 → xs ≡ []
nil_of_length [] h = refl
nil_of_length (x ∷ xs) h = absurd (omega arith)

pub has-erase_other : (a b : ℕ) (xs : List ℕ) → b ≢ a → has b xs ≡ true → has b (erase a xs) ≡ true
has-erase_other a b [] ne h = h
has-erase_other a b (x ∷ xs) ne h = ground (arith, ne, has-erase_other a b xs ne)

pub length-erase : (a : ℕ) (xs : List ℕ) → length (erase a xs) ≤ length xs
length-erase a [] = omega arith
length-erase a (x ∷ xs) = ground (arith, length-erase a xs)

length-erase_mem : (a : ℕ) (xs : List ℕ) → has a xs ≡ true → length xs ≡ suc (length (erase a xs))
length-erase_mem a [] h = cc
length-erase_mem a (x ∷ xs) h = ground (arith, length-erase_mem a xs)

-- A list without repetitions, all of whose elements are in another one, is not longer.
pub length-within :
    (xs pool : List ℕ)
    → Distinct xs
    → ((x : ℕ) → has x xs ≡ true → has x pool ≡ true)
    → length xs ≤ length pool
length-within [] pool d h = omega arith
length-within (x ∷ xs) pool d h =
    let first : has x pool ≡ true = h x (ground (arith, ==_refl x)) in
    let rest = length-within xs (erase x pool) d.1 (λ y m.
      has-erase_other x y pool (λ e. cc (ap (λ (z : ℕ). has z xs) e, m, d.0))
        (h y (ground (arith, m)))) in
    omega (arith, rest, length-erase_mem x pool first)
