-- ===== src/Specific/Stable.antt =====
-- operator-> of CO_ROUTINE_SPECIFIC (co_routine_specific.h, lines 21 to 38) gives each coroutine one
-- object, which it makes at the first use.
use jkyi_libco.Base.{
  ◌≡◌, ◌≢◌, ◌<◌, inl, inr, refl, arith, ap, sym, ◌∙◌, true, some, Ptr, null, eq-cases, ==_refl,
}
use jkyi_libco.Base.Run.{ok}
use jkyi_libco.Link.{write}
use jkyi_libco.Routine.{Thread}
use jkyi_libco.Specific.{Pthread, Specs, Wrapper, max_keys, co_getspecific, make_key, arrow}
use jkyi_libco.Specific.Isolated.{Runs, getspecific-Runs, setspecific-Runs}

module _ {W : Type 0} (sys : Pthread W) where
  -- The key is made at the first use.
  arrow_initialized :
      (fresh : Ptr) (r : Wrapper) (s : Specs W)
      → arrow sys fresh r s ≡ arrow sys fresh (make_key sys r s).0 (make_key sys r s).1
  unfolding arrow make_key
  arrow_initialized fresh r s = ground arith

  made_key :
      (r : Wrapper) (s : Specs W)
      → ((make_key sys r s).0.init ≡ true)
        × ((make_key sys r s).1.thread ≡ s.thread)
        × ((make_key sys r s).1.spec ≡ s.spec)
  unfolding make_key
  made_key r s = (ground arith, ground arith, ground arith)

  -- What a use leaves: the object of the coroutine that runs, and the slots of the others as they
  -- were.
  abbrev Uses : (p fresh : Ptr) (r : Wrapper) (s : Specs W) → Type 0
  Uses p fresh r s =
      (a : Ptr) × (z : Specs W) × (arrow sys fresh r s ≡ ok (a, r, z))
      × (a ≢ null)
      × (z.spec p r.key ≡ a)
      × ((q : Ptr) → q ≢ p → z.spec q ≡ s.spec q)

  Uses-first :
      (p fresh : Ptr) (t : Thread) (r : Wrapper) (s : Specs W)
      → r.init ≡ true
      → s.thread ≡ some t
      → Runs p t
      → r.key < max_keys
      → fresh ≢ null
      → s.spec p r.key ≡ null
      → (arrow sys fresh r s
          ≡ ok (fresh, r, record s { spec = write s.spec p (write (s.spec p) r.key fresh) }))
  unfolding arrow make_key
  Uses-first p fresh t r s init h runs low nn empty =
      let got : co_getspecific sys r.key s ≡ ok null =
        ground (arith, h, empty, getspecific-Runs sys p t r.key s runs low) in
      ground (arith, init, got, setspecific-Runs sys p t r.key fresh s h runs low)

  Uses-again :
      (p fresh : Ptr) (t : Thread) (r : Wrapper) (s : Specs W)
      → r.init ≡ true
      → s.thread ≡ some t
      → Runs p t
      → r.key < max_keys
      → s.spec p r.key ≢ null
      → arrow sys fresh r s ≡ ok (s.spec p r.key, r, s)
  unfolding arrow make_key
  Uses-again p fresh t r s init h runs low full =
      let got : co_getspecific sys r.key s ≡ ok (s.spec p r.key) =
        ground (arith, h, getspecific-Runs sys p t r.key s runs low) in
      ground (arith, init, got, full)

  Uses-Runs :
      (p fresh : Ptr) (t : Thread) (r : Wrapper) (s : Specs W)
      → r.init ≡ true
      → s.thread ≡ some t
      → Runs p t
      → r.key < max_keys
      → fresh ≢ null
      → Uses p fresh r s
  Uses-Runs p fresh t r s init h runs low nn = elim (eq-cases (s.spec p r.key) null) [
    | inl empty ↦ (
      fresh,
      record s { spec = write s.spec p (write (s.spec p) r.key fresh) },
      Uses-first p fresh t r s init h runs low nn empty,
      nn,
      ground (arith, ==_refl p, ==_refl r.key),
      λ q ne. ground arith,
    )
    | inr full ↦
        (s.spec p r.key, s, Uses-again p fresh t r s init h runs low full, full, refl, λ q ne. refl)
  ]

  -- calloc does not fail and the key is in range. Then each use gives an object. A coroutine that
  -- has used the variable, and runs again after another one has used it too, gets the object it
  -- got, and nothing changes.
  pub arrow_stable :
      (p q : Ptr) (fresh fresh' fresh'' : Ptr) (t u t' : Thread) (r : Wrapper) (s : Specs W)
      → s.thread ≡ some t
      → Runs p t
      → Runs q u
      → Runs p t'
      → p ≢ q
      → (make_key sys r s).0.key < max_keys
      → fresh ≢ null
      → fresh' ≢ null
      → (a b : Ptr) × (w : Wrapper) × (y z : Specs W) × (arrow sys fresh r s ≡ ok (a, w, y))
        × (a ≢ null)
        × (arrow sys fresh' w (record y { thread = some u }) ≡ ok (b, w, z))
        × (b ≢ null)
        × (arrow sys fresh'' w (record z { thread = some t' })
            ≡ ok (a, w, record z { thread = some t' }))
  arrow_stable p q fresh fresh' fresh'' t u t' r s h runs other again ne low nn nn' =
      let w = (make_key sys r s).0 in
      let (init, thread, same) = made_key r s in
      let (a, y, use_a, some_a, slot_a, rest_a) =
        Uses-Runs p fresh t w (make_key sys r s).1 init (thread ∙ h) runs low nn in
      let (b, z, use_b, some_b, slot_b, rest_b) =
        Uses-Runs q fresh' u w (record y { thread = some u }) init refl other low nn' in
      let kept : z.spec p w.key ≡ a = ap (λ f. f w.key) (rest_b p ne) ∙ slot_a in
      let use_again =
        Uses-again p fresh'' t' w (record z { thread = some t' }) init refl again low
          (λ e. some_a (sym kept ∙ e)) in
      (
        a,
        b,
        w,
        y,
        z,
        arrow_initialized fresh r s ∙ use_a,
        some_a,
        use_b,
        some_b,
        use_again ∙ ap (λ x. ok (x, w, record z { thread = some t' })) kept,
      )
