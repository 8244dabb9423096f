-- ===== src/Vars/Ascending.antt =====
-- What co_set_env_list (co_hook_sys_call.cc, lines 632 to 658) leaves in g_co_sysenv: the order
-- that bsearch relies on, and which names.
use jkyi_libco.Base.{
  ℕ, ◌+◌, ◌-◌, ◌≡◌, refl, ap, sym, subst, ◌∙◌, arith, Bool, true, false, ◌||◌, ltb, Option, none,
  some, List, [], ◌∷◌, length, take, inl, inr, Bool-cases,
}
use jkyi_libco.Base.Run.{ok}
use jkyi_libco.Vars.{Variable}
use jkyi_libco.Vars.Names.{str_eq, str_ltb, gather, dedupe, co_set_env_list}
use jkyi_libco.Vars.Listed.{squeeze, dedupe-squeeze}

abbrev pub str_leb : List ℕ → List ℕ → Bool
str_leb x y = str_ltb x y || str_eq x y

-- The test holds of the names of each two neighbours.
abbrev pub Neighbours : (List ℕ → List ℕ → Bool) → List Variable → Type 0
Neighbours r [] = Unit {0}
Neighbours r (x ∷ []) = Unit {0}
Neighbours r (x ∷ y ∷ es) = (r x.name y.name ≡ true) × Neighbours r (y ∷ es)

abbrev pub has_name : List ℕ → List Variable → Bool
has_name n [] = false
has_name n (e ∷ es) = str_eq n e.name || has_name n es

abbrev pub occurs : List ℕ → List (Option (List ℕ)) → Bool
occurs n [] = false
occurs n (none ∷ names) = occurs n names
occurs n (some m ∷ names) = str_eq n m || occurs n names

-- A name that is not empty and occurs among those of the caller.
abbrev pub listed : List ℕ → List (Option (List ℕ)) → Bool
listed [] names = false
listed (c ∷ cs) names = occurs (c ∷ cs) names

str_eq_sound : (x y : List ℕ) → str_eq x y ≡ true → x ≡ y
str_eq_sound [] [] h = refl
str_eq_sound [] (b ∷ y) h = cc
str_eq_sound (a ∷ x) [] h = cc
str_eq_sound (a ∷ x) (b ∷ y) h = ground (arith, str_eq_sound x y)

squeeze-head :
    (p : Variable) (rest : List Variable) → (es : List Variable) × (squeeze p rest ≡ p ∷ es)
squeeze-head p [] = ([], refl)
squeeze-head p (q ∷ qs) = elim (Bool-cases (str_eq p.name q.name)) [
  | inl e ↦ let (es, h) = squeeze-head p qs in (es, rw e h)
  | inr e ↦ (squeeze q qs, rw e refl)
]

Neighbours-head :
    (r : List ℕ → List ℕ → Bool) (p q : Variable) (es : List Variable)
    → p.name ≡ q.name
    → Neighbours r (q ∷ es)
    → Neighbours r (p ∷ es)
Neighbours-head r p q [] same h = tt
Neighbours-head r p q (e ∷ es) same h = (rw same h.0, h.1)

Neighbours-squeeze :
    (p : Variable) (rest : List Variable)
    → Neighbours str_leb (p ∷ rest)
    → Neighbours str_ltb (squeeze p rest)
Neighbours-squeeze p [] h = tt
Neighbours-squeeze p (q ∷ qs) h = elim (Bool-cases (str_eq p.name q.name)) [
  | inl e ↦
      rw e (
        Neighbours-squeeze p qs (Neighbours-head str_leb p q qs (str_eq_sound p.name q.name e) h.1))
  | inr e ↦
      let (es, head) = squeeze-head q qs in
      let less : str_ltb p.name q.name ≡ true = ground (arith, h.0, e) in
      rw (e, head) (less, subst (Neighbours str_ltb) head (Neighbours-squeeze q qs h.1))
]

has_name-squeeze :
    (n : List ℕ) (p : Variable) (rest : List Variable)
    → has_name n (squeeze p rest) ≡ has_name n (p ∷ rest)
has_name-squeeze n p [] = refl
has_name-squeeze n p (q ∷ qs) = elim (Bool-cases (str_eq p.name q.name)) [
  | inl e ↦
      let same : str_eq n q.name ≡ str_eq n p.name =
        ap (str_eq n) (sym (str_eq_sound p.name q.name e)) in
      ground (arith, e, same, has_name-squeeze n p qs)
  | inr e ↦ ground (arith, e, has_name-squeeze n q qs)
]

has_name-gather :
    (n : List ℕ) (names : List (Option (List ℕ))) → has_name n (gather names) ≡ listed n names
has_name-gather [] [] = refl
has_name-gather [] (none ∷ names) = has_name-gather [] names
has_name-gather [] (some [] ∷ names) = has_name-gather [] names
has_name-gather [] (some (c ∷ cs) ∷ names) = has_name-gather [] names
has_name-gather (b ∷ bs) [] = refl
has_name-gather (b ∷ bs) (none ∷ names) = has_name-gather (b ∷ bs) names
has_name-gather (b ∷ bs) (some [] ∷ names) = has_name-gather (b ∷ bs) names
has_name-gather (b ∷ bs) (some (c ∷ cs) ∷ names) =
    ap (str_eq (b ∷ bs) (c ∷ cs) ||◌) (has_name-gather (b ∷ bs) names)

-- One entry or none is in order.
Neighbours-short :
    (r : List ℕ → List ℕ → Bool) (es : List Variable) → ltb 1 (length es) ≡ false → Neighbours r es
Neighbours-short r [] h = tt
Neighbours-short r (e ∷ []) h = tt
Neighbours-short r (e ∷ f ∷ es) h = absurd (ground arith)

-- The loop on entries in order.
dedupe-strict :
    (es : List Variable)
    → ltb 1 (length es) ≡ true
    → Neighbours str_leb es
    → (lp : ℕ) × (arr : List Variable) × (dedupe (length es - 1) 0 1 es ≡ ok (lp, arr))
      × Neighbours str_ltb (take (lp + 1) arr)
      × ((n : List ℕ) → has_name n (take (lp + 1) arr) ≡ has_name n es)
dedupe-strict [] h sorted = absurd (ground arith)
dedupe-strict (p ∷ rest) h sorted =
    let (lp, arr, run, out) = dedupe-squeeze p rest in
    let less : length (p ∷ rest) - 1 ≡ length rest = omega arith in
    (
      lp,
      arr,
      rw less run,
      rw out (Neighbours-squeeze p rest sorted),
      λ n. rw out (has_name-squeeze n p rest),
    )

-- qsort gives as many entries, with the same names, in their order. Then the first call ends, its
-- names ascend strictly, so that none is there twice, and they are the names of the caller that
-- are not empty. A further call changes nothing.
pub co_set_env_list-lists :
    (qsort : List Variable → List Variable) (names more : List (Option (List ℕ)))
    → length (qsort (gather names)) ≡ length (gather names)
    → Neighbours str_leb (qsort (gather names))
    → ((n : List ℕ) → has_name n (qsort (gather names)) ≡ has_name n (gather names))
    → (es : List Variable) × (co_set_env_list qsort names none ≡ ok (some es))
      × Neighbours str_ltb es
      × ((n : List ℕ) → has_name n es ≡ listed n names)
      × (co_set_env_list qsort more (some es) ≡ ok (some es))
unfolding co_set_env_list
co_set_env_list-lists qsort names more size sorted kept =
    elim (Bool-cases (ltb 1 (length (gather names)))) [
      | inl e ↦
          let (lp, arr, run, strict, same) =
            dedupe-strict (qsort (gather names)) (rw size e) sorted in
          (
            take (lp + 1) arr,
            rw (e, sym size, run) refl,
            strict,
            λ n. same n ∙ kept n ∙ has_name-gather n names,
            refl,
          )
      | inr e ↦ (
        gather names,
        rw e refl,
        Neighbours-short str_ltb (gather names) e,
        λ n. has_name-gather n names,
        refl,
      )
    ]
