-- ===== src/Tests/Names.antt =====
-- Lists of variables with repetitions and with entries that are left out.
use jkyi_libco.Base.{
  ℕ, ◌+◌, ◌≡◌, refl, arith, none, some, Option, List, [], ◌∷◌, take, if◌then◌else◌,
}
use jkyi_libco.Base.Run.{ok}
use jkyi_libco.Vars.{Variable}
use jkyi_libco.Vars.Names.{str_ltb, dedupe, co_set_env_list}
use jkyi_libco.Vars.Listed.{dedupe-squeeze}
use jkyi_libco.Vars.Ascending.{Neighbours, has_name, listed, co_set_env_list-lists}

abbrev var : ℕ → Variable
var n = record { name = n ∷ []; value = none }

abbrev insert : Variable → List Variable → List Variable
insert v [] = v ∷ []
insert v (e ∷ es) = let rest = insert v es in if str_ltb e.name v.name then e ∷ rest else v ∷ e ∷ es

abbrev insertion_sort : List Variable → List Variable
insertion_sort [] = []
insertion_sort (e ∷ es) = insert e (insertion_sort es)

abbrev given : List (Option (List ℕ))
given = some (9 ∷ []) ∷ none ∷ some (5 ∷ []) ∷ some [] ∷ some (9 ∷ []) ∷ some (7 ∷ []) ∷ []

set_env_test : co_set_env_list insertion_sort given none ≡ ok (some (var 5 ∷ var 7 ∷ var 9 ∷ []))
unfolding co_set_env_list dedupe
set_env_test = refl

set_env_example :
    (es : List Variable) × (co_set_env_list insertion_sort given none ≡ ok (some es))
    × Neighbours str_ltb es
    × ((n : List ℕ) → has_name n es ≡ listed n given)
    × (co_set_env_list insertion_sort [] (some es) ≡ ok (some es))
set_env_example =
    co_set_env_list-lists insertion_sort given [] refl (refl, (refl, (refl, tt)))
      (λ n. ground arith)

dedupe_example :
    (lp : ℕ) × (arr : List Variable) × (dedupe 4 0 1 (var 3 ∷ var 3 ∷ var 4 ∷ var 4 ∷ var 5 ∷ [])
      ≡ ok (lp, arr))
    × (take (lp + 1) arr ≡ var 3 ∷ var 4 ∷ var 5 ∷ [])
dedupe_example = dedupe-squeeze (var 3) (var 3 ∷ var 4 ∷ var 4 ∷ var 5 ∷ [])
