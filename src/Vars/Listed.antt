-- ===== src/Vars/Listed.antt =====
-- The loop of co_set_env_list that removes repetitions in place (co_hook_sys_call.cc, lines 644
-- to 656), against a pass that builds a new list.
use jkyi_libco.Base.{
  ℕ, suc, ◌+◌, ◌≡◌, refl, ap, sym, ◌∙◌, arith, ◌||◌, ◌==◌, List, [], ◌∷◌, ◌++◌, append_assoc,
  length, length-append, take, if◌then◌else◌, inl, inr, Bool-cases,
}
use jkyi_libco.Base.Run.{ok}
use jkyi_libco.Vars.{Variable}
use jkyi_libco.Vars.Names.{str_eq, entry_at, put, dedupe}

-- The first of each run of equal names.
abbrev pub squeeze : Variable → List Variable → List Variable
squeeze p [] = p ∷ []
squeeze p (q ∷ qs) = if str_eq p.name q.name then squeeze p qs else p ∷ squeeze q qs

entry_at-append :
    (xs ys : List Variable) (y : Variable) → entry_at (xs ++ y ∷ ys) (length xs) ≡ ok y
entry_at-append [] ys y = refl
entry_at-append (x ∷ xs) ys y = entry_at-append xs ys y

put-append :
    (xs ys : List Variable) (y v : Variable) → put (length xs) v (xs ++ y ∷ ys) ≡ xs ++ v ∷ ys
put-append [] ys y v = refl
put-append (x ∷ xs) ys y v = ap (◌∷◌ x) (put-append xs ys y v)

take-append :
    (xs ys : List Variable) (y : Variable) → take (length xs + 1) (xs ++ y ∷ ys) ≡ xs ++ y ∷ []
take-append [] ys y = refl
take-append (x ∷ xs) ys y =
    let more : suc (length xs) + 1 ≡ suc (length xs + 1) = omega arith in
    rw more (ap (◌∷◌ x) (take-append xs ys y))

-- What the loop computes from a state of its array.
abbrev Squeezes : (rounds lp lq : ℕ) (arr out : List Variable) → Type 0
Squeezes rounds lp lq arr out =
    (l : ℕ) × (a : List Variable) × (dedupe rounds lp lq arr ≡ ok (l, a)) × (take (l + 1) a ≡ out)

entry_at-lp :
    (done junk rest arr : List Variable) (p : Variable) (lp : ℕ)
    → arr ≡ done ++ p ∷ (junk ++ rest)
    → lp ≡ length done
    → entry_at arr lp ≡ ok p
entry_at-lp done junk rest arr p lp h l = rw (h, l) (entry_at-append done (junk ++ rest) p)

entry_at-lq :
    (done junk rest arr : List Variable) (p q : Variable) (lq : ℕ)
    → arr ≡ done ++ p ∷ (junk ++ q ∷ rest)
    → lq ≡ length done + 1 + length junk
    → entry_at arr lq ≡ ok q
entry_at-lq done junk rest arr p q lq h l =
    let place : lq ≡ length (done ++ p ∷ junk) = omega (arith, l, length-append done (p ∷ junk)) in
    rw (h, sym (append_assoc done (p ∷ junk) (q ∷ rest)), place)
      (entry_at-append (done ++ p ∷ junk) rest q)

-- One round, where the rest of the loop is known.
Squeezes-round :
    (done junk rest arr out : List Variable) (p q : Variable) (lp lq : ℕ)
    → arr ≡ done ++ p ∷ (junk ++ q ∷ rest)
    → lp ≡ length done
    → lq ≡ length done + 1 + length junk
    → Squeezes
        (length rest)
        (if str_eq p.name q.name then lp else lp + 1)
        (lq + 1)
        (if str_eq p.name q.name || (lp + 1 == lq) then arr else put (lp + 1) q arr)
        out
    → Squeezes (suc (length rest)) lp lq arr out
unfolding dedupe
Squeezes-round done junk rest arr out p q lp lq h at_p at_q (l, a, run, taken) = (
  l,
  a,
  rw
      (
        entry_at-lp done junk (q ∷ rest) arr p lp h at_p,
        entry_at-lq done junk rest arr p q lq h at_q,
      )
      run,
  taken,
)

-- Where the names differ, `q` moves behind `p`, over what was skipped.
advance :
    (done junk rest arr : List Variable) (p q : Variable) (lp lq : ℕ)
    → arr ≡ done ++ p ∷ (junk ++ q ∷ rest)
    → lp ≡ length done
    → lq ≡ length done + 1 + length junk
    → (skipped : List Variable) × ((if lp + 1 == lq then arr else put (lp + 1) q arr)
        ≡ (done ++ p ∷ []) ++ q ∷ (skipped ++ rest))
      × (length skipped ≡ length junk)
advance done [] rest arr p q lp lq h at_p at_q =
    ([], ground (arith, at_p, at_q, h ∙ sym (append_assoc done (p ∷ []) (q ∷ rest))), refl)
advance done (j ∷ junk) rest arr p q lp lq h at_p at_q =
    let behind : lp + 1 ≡ length (done ++ p ∷ []) =
      omega (arith, at_p, length-append done (p ∷ [])) in
    let shape : arr ≡ (done ++ p ∷ []) ++ j ∷ (junk ++ q ∷ rest) =
      h ∙ sym (append_assoc done (p ∷ []) (j ∷ (junk ++ q ∷ rest))) in
    let moved : put (lp + 1) q arr ≡ (done ++ p ∷ []) ++ q ∷ ((junk ++ q ∷ []) ++ rest) =
      rw (shape, behind, append_assoc junk (q ∷ []) rest)
        (put-append (done ++ p ∷ []) (junk ++ q ∷ rest) j q) in
    (junk ++ q ∷ [], ground (arith, at_p, at_q, moved), omega (arith, length-append junk (q ∷ [])))

-- `done` is finished, `p` is at `lp`, `junk` is what was overwritten or skipped, and `rest` starts
-- at `lq`.
dedupe-Squeezes :
    (done : List Variable) (p : Variable) (junk rest arr out : List Variable) (lp lq : ℕ)
    → arr ≡ done ++ p ∷ (junk ++ rest)
    → lp ≡ length done
    → lq ≡ length done + 1 + length junk
    → out ≡ done ++ squeeze p rest
    → Squeezes (length rest) lp lq arr out
unfolding dedupe
dedupe-Squeezes done p junk [] arr out lp lq h at_p at_q goal =
    (lp, arr, refl, rw (h, at_p, goal) (take-append done (junk ++ []) p))
dedupe-Squeezes done p junk (q ∷ qs) arr out lp lq h at_p at_q goal =
    Squeezes-round done junk qs arr out p q lp lq h at_p at_q
      (elim (Bool-cases (str_eq p.name q.name)) [
        | inl e ↦ rw e (
            dedupe-Squeezes done p (junk ++ q ∷ []) qs arr out lp (lq + 1)
              (rw (append_assoc junk (q ∷ []) qs) h) at_p
              (omega (arith, at_q, length-append junk (q ∷ []))) (rw goal (rw e refl)))
        | inr e ↦
            let (skipped, shape, same) = advance done junk qs arr p q lp lq h at_p at_q in
            rw e (
              dedupe-Squeezes (done ++ p ∷ []) q skipped qs
                (if lp + 1 == lq then arr else put (lp + 1) q arr) out (lp + 1) (lq + 1) shape
                (omega (arith, at_p, length-append done (p ∷ [])))
                (omega (arith, at_q, same, length-append done (p ∷ [])))
                (rw (append_assoc done (p ∷ []) (squeeze q qs)) (goal ∙ rw e refl)))
      ])

-- The loop leaves in the first `lp + 1` entries the first of each run of equal names, in their
-- order, and nothing else.
pub dedupe-squeeze :
    (p : Variable) (rest : List Variable)
    → (lp : ℕ) × (arr : List Variable) × (dedupe (length rest) 0 1 (p ∷ rest) ≡ ok (lp, arr))
      × (take (lp + 1) arr ≡ squeeze p rest)
dedupe-squeeze p rest =
    dedupe-Squeezes [] p [] rest (p ∷ rest) (squeeze p rest) 0 1 refl refl refl refl
