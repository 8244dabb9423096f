-- ===== src/Base/Slices.antt =====
-- The first elements of a list and the rest, counted by native numbers.
use Prim.Native.Nat.{ℕ, zero, suc, ◌+◌, ◌-◌}
use mathlib.Core.Path.{◌≡◌, refl, ap}
use mathlib.Core.Option.{Option, none, some}
use mathlib.Core.List.{List, [], ◌∷◌, ◌++◌}
use native.Mathlib.Omega.{arith}
use jkyi_libco.Base.Lists.{length}

module _ {ℓ} {A : Type ℓ} where
  abbrev pub take : ℕ → List A → List A
  take zero xs = []
  take (suc n) [] = []
  take (suc n) (x ∷ xs) = x ∷ take n xs

  abbrev pub drop : ℕ → List A → List A
  drop zero xs = xs
  drop (suc n) [] = []
  drop (suc n) (x ∷ xs) = drop n xs

  pub take-add : (m n : ℕ) (xs : List A) → take (m + n) xs ≡ take m xs ++ take n (drop m xs)
  take-add zero n xs = ground arith
  take-add (suc m) n [] = let more : suc m + n ≡ suc (m + n) = omega arith in rw more (nil n)
    where
      nil : (n : ℕ) → [] ≡ take n []
      nil zero = refl
      nil (suc n) = refl
  take-add (suc m) n (x ∷ xs) =
      let more : suc m + n ≡ suc (m + n) = omega arith in rw more (ap (◌∷◌ x) (take-add m n xs))

  pub length-drop : (n : ℕ) (xs : List A) → length (drop n xs) ≡ length xs - n
  length-drop zero xs = omega arith
  length-drop (suc n) [] = omega arith
  length-drop (suc n) (x ∷ xs) = omega (arith, length-drop n xs)

abbrev pub get_elem? {ℓ} : {A : Type ℓ} → List A → ℕ → Option A
get_elem? [] j = none
get_elem? (x ∷ xs) zero = some x
get_elem? (x ∷ xs) (suc j) = get_elem? xs j
