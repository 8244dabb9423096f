-- ===== src/Vars/Names.antt =====
-- The list of the variables that each coroutine has for itself, co_hook_sys_call.cc:
-- co_set_env_list (lines 632 to 658) and co_sysenv_comp.
use jkyi_libco.Base.{
  get_elem?, ℕ, zero, suc, ◌+◌, ◌-◌, Bool, true, false, ◌&&◌, ◌||◌, ◌==◌, ltb, Option, none, some,
  List, [], ◌∷◌, length, take, if◌then◌else◌,
}
use jkyi_libco.Base.Run.{Run, ok, fault, ◌>>=◌}
use jkyi_libco.Vars.{Variable}

-- `strcmp(x, y) == 0` and `strcmp(x, y) < 0`, for strings by their bytes.
abbrev pub str_eq : List ℕ → List ℕ → Bool
str_eq [] [] = true
str_eq [] (b ∷ bs) = false
str_eq (a ∷ s) [] = false
str_eq (a ∷ s) (b ∷ bs) = (a == b) && str_eq s bs

abbrev pub str_ltb : List ℕ → List ℕ → Bool
str_ltb [] [] = false
str_ltb [] (b ∷ bs) = true
str_ltb (a ∷ s) [] = false
str_ltb (a ∷ s) (b ∷ bs) = ltb a b || ((a == b) && str_ltb s bs)

-- The first loop: the names that are neither NULL nor empty.
abbrev pub gather : List (Option (List ℕ)) → List Variable
gather [] = []
gather (none ∷ names) = gather names
gather (some [] ∷ names) = gather names
gather (some (c ∷ cs) ∷ names) = record { name = c ∷ cs; value = none } ∷ gather names

abbrev pub entry_at : List Variable → ℕ → Run Variable
entry_at arr i = elim (get_elem? arr i) [ none ↦ fault | some e ↦ ok e ]

-- `*lp = *lq`
abbrev pub put : ℕ → Variable → List Variable → List Variable
put i v [] = []
put zero v (e ∷ es) = v ∷ es
put (suc i) v (e ∷ es) = e ∷ put i v es

-- The second loop, over the indices `lp` and `lq`.
unfoldable pub dedupe : (rounds : ℕ) → (lp lq : ℕ) → List Variable → Run (ℕ × List Variable)
dedupe zero lp lq arr = ok (lp, arr)
dedupe (suc rounds) lp lq arr = do
  p ← entry_at arr lp
  q ← entry_at arr lq
  let same = str_eq p.name q.name
  dedupe rounds (if same then lp else lp + 1) (lq + 1)
      (if same || (lp + 1 == lq) then arr else put (lp + 1) q arr)

-- co_set_env_list. `none` is a g_co_sysenv whose `data` is NULL. qsort is a parameter.
unfoldable pub co_set_env_list :
    (qsort : List Variable → List Variable)
    → List (Option (List ℕ))
    → Option (List Variable)
    → Run (Option (List Variable))
co_set_env_list qsort names (some given) = ok (some given)
co_set_env_list qsort names none =
    let vars = gather names in
    if ltb 1 (length vars)
    then (do (lp, arr) ← dedupe (length vars - 1) 0 1 (qsort vars); ok (some (take (lp + 1) arr)))
    else ok (some vars)
