-- ===== src/Vars/Own.antt =====
-- Each coroutine has its own values of the listed variables.
use jkyi_libco.Base.{
  get_elem?, ℕ, zero, suc, ◌≡◌, ◌≢◌, refl, true, Bool, some, Option, List, [], ◌∷◌, ap, arith, Ptr,
  ==_refl, ◌∙◌,
}
use jkyi_libco.Vars.{Variable, Vars, Library, set_value, copy_of, set_own, setenv, getenv}

abbrev pub names : List Variable → List (List ℕ)
names [] = []
names (e ∷ es) = e.name ∷ names es

names-set_value :
    (j : ℕ) (v : Option (List ℕ)) (es : List Variable) → names (set_value j v es) ≡ names es
names-set_value j v [] = refl
names-set_value zero v (e ∷ es) = refl
names-set_value (suc j) v (e ∷ es) = ap (◌∷◌ e.name) (names-set_value j v es)

get_elem?-set_value :
    (j : ℕ) (v : Option (List ℕ)) (es : List Variable) (e : Variable)
    → get_elem? es j ≡ some e
    → get_elem? (set_value j v es) j ≡ some (record e { value = v })
get_elem?-set_value j v [] e h = cc
get_elem?-set_value zero v (x ∷ es) e h = ground arith
get_elem?-set_value (suc j) v (x ∷ es) e h = get_elem?-set_value j v es e h

-- bsearch looks at the names only, and what it finds is there. Then a hooked coroutine that sets a
-- listed variable with `overwrite` succeeds and reads the new value; the environment of the process
-- does not change, and every other coroutine reads what it read before, whatever variable it asks
-- for.
pub getenv-setenv :
    {W : Type 0} (lib : Library W)
    → ((n : List ℕ) (es fs : List Variable)
        → names es ≡ names fs
        → lib.search n es ≡ lib.search n fs)
    → (self : Ptr) (n : List ℕ) (v : Option (List ℕ)) (s : Vars W) (j : ℕ) (e : Variable)
    → lib.search n (copy_of lib self s) ≡ some j
    → get_elem? (copy_of lib self s) j ≡ some e
    → (z : Vars W) × (setenv lib true self n v true s ≡ (0, z))
      × ((getenv lib true self n z).0 ≡ v)
      × (z.world ≡ s.world)
      × ((other : Ptr) (hooked : Bool) (m : List ℕ)
          → other ≢ self
          → (getenv lib hooked other m z).0 ≡ (getenv lib hooked other m s).0)
unfolding setenv getenv
getenv-setenv lib by_name self n v s j e found at =
    let arr = copy_of lib self s in
    let again : lib.search n (set_value j v arr) ≡ some j =
      by_name n (set_value j v arr) arr (names-set_value j v arr) ∙ found in
    (
      set_own lib self (set_value j v arr) s,
      ground (arith, found, at),
      ground (arith, ==_refl self, again, get_elem?-set_value j v arr e at),
      refl,
      λ other hooked m ne. ground arith,
    )
