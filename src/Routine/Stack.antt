-- ===== src/Routine/Stack.antt =====
-- Bytes in memory: what memcpy writes is read again, and it writes nothing else.
use jkyi_libco.Base.{
  ℕ, zero, suc, ◌+◌, ◌≤◌, ◌<◌, ◌≡◌, ◌⊎◌, refl, inl, inr, List, [], ◌∷◌, arith, Ptr, length, ==_refl,
}
use jkyi_libco.Routine.{load_bytes, store_bytes}

pub length-load_bytes : (mem : ℕ → ℕ) (a : Ptr) (n : ℕ) → length (load_bytes mem a n) ≡ n
length-load_bytes mem a zero = refl
length-load_bytes mem a (suc n) = omega (arith, length-load_bytes mem (a + 1) n)

-- Reading depends on the bytes read only.
pub load_bytes-same :
    (mem mem' : ℕ → ℕ) (a : Ptr) (n : ℕ)
    → ((q : ℕ) → a ≤ q → q < a + n → mem' q ≡ mem q)
    → load_bytes mem' a n ≡ load_bytes mem a n
load_bytes-same mem mem' a zero same = refl
load_bytes-same mem mem' a (suc n) same = ground (
  arith,
  same a (omega arith) (omega arith),
  load_bytes-same mem mem' (a + 1) n λ q low high. same q (omega arith) (omega arith),
)

-- memcpy writes within its range.
pub store_bytes-outside :
    (mem : ℕ → ℕ) (a : Ptr) (bs : List ℕ) (q : ℕ)
    → (q < a) ⊎ (a + length bs ≤ q)
    → store_bytes mem a bs q ≡ mem q
store_bytes-outside mem a [] q out = refl
store_bytes-outside mem a (b ∷ bs) q out = elim out [
  | inl below ↦ ground (arith, store_bytes-outside mem (a + 1) bs q (inl (omega arith)))
  | inr above ↦ ground (arith, store_bytes-outside mem (a + 1) bs q (inr (omega arith)))
]

pub load_bytes-store_bytes :
    (mem : ℕ → ℕ) (a : Ptr) (bs : List ℕ) → load_bytes (store_bytes mem a bs) a (length bs) ≡ bs
load_bytes-store_bytes mem a [] = refl
load_bytes-store_bytes mem a (b ∷ bs) = ground (
  arith,
  ==_refl a,
  load_bytes-store_bytes mem (a + 1) bs,
  load_bytes-same (store_bytes mem (a + 1) bs) (store_bytes mem a (b ∷ bs)) (a + 1) (length bs)
      λ q low high. ground arith,
)
