-- ===== src/Tests/Env.antt =====
-- Two coroutines, 1 and 2, and the listed variables [5] and [6].
use jkyi_libco.Base.{
  ℕ, suc, ◌≡◌, ◌≢◌, refl, true, false, Bool, ◌&&◌, none, some, Option, List, [], ◌∷◌, ap, Ptr, ◌==◌,
  if◌then◌else◌,
}
use jkyi_libco.Vars.{Vars, Library, setenv, getenv}
use jkyi_libco.Vars.Own.{names, getenv-setenv}

abbrev same : List ℕ → List ℕ → Bool
same [] [] = true
same [] (y ∷ ys) = false
same (x ∷ xs) [] = false
same (x ∷ xs) (y ∷ ys) = x == y && same xs ys

abbrev index_of : List ℕ → List (List ℕ) → Option ℕ
index_of n [] = none
index_of n (m ∷ ms) =
    let rest = index_of n ms in
    if same n m
    then some 0
    else elim rest as (λ x. Option ℕ) [ none ↦ none | some j ↦ some (suc j) ]

abbrev library : Library (List ℕ)
library = record {
  search = λ n es. index_of n (names es);
  sys_setenv = λ n v o w. (0, n);
  sys_unsetenv = λ n w. (0, []);
  sys_getenv = λ n w. some w;
}

abbrev vars : Vars (List ℕ)
vars = record {
  global = record { name = 5 ∷ []; value = none } ∷ record { name = 6 ∷ []; value = none } ∷ [];
  own = λ p. none;
  world = 9 ∷ [];
}

setenv_example :
    (z : Vars (List ℕ)) × (setenv library true 1 (6 ∷ []) (some (7 ∷ [])) true vars ≡ (0, z))
    × ((getenv library true 1 (6 ∷ []) z).0 ≡ some (7 ∷ []))
    × (z.world ≡ 9 ∷ [])
    × ((other : Ptr) (hooked : Bool) (m : List ℕ)
        → other ≢ 1
        → (getenv library hooked other m z).0 ≡ (getenv library hooked other m vars).0)
setenv_example =
    getenv-setenv library (λ n es fs h. ap (index_of n) h) 1 (6 ∷ []) (some (7 ∷ [])) vars 1
      (record { name = 6 ∷ []; value = none }) refl refl
