-- ===== src/Loop/Serving/Front.antt =====
-- A round of co_eventloop up to its loop over the active list (co_routine.cc, lines 713 to 721): what
-- the loop starts with.
use jkyi_libco.Base.{
  ℕ, ◌+◌, ◌-◌, ◌^◌, ◌≤◌, ◌<◌, ◌≡◌, ◌≢◌, ◌∙◌, subst, true, false, Bool, List, [], ◌++◌, inl, inr,
  eq-cases, Bool-cases, arith, Ptr, null, length, has, has-append, Distinct, length-within,
  if◌then◌else◌,
}
use jkyi_libco.Link.{Store}
use jkyi_libco.Link.View.{Lists, Represents, list_unique, allocated}
use jkyi_libco.Timeout.{slot}
use jkyi_libco.Timeout.Add.{OnTime}
use jkyi_libco.Timeout.Take.{gather, after_take-cases, after_take_result}
use jkyi_libco.Timeout.Expiry.{count_due, turned, taken, take_all-Updates}
use jkyi_libco.Loop.{Sched}
use jkyi_libco.Loop.Joined.{gather-due}
use jkyi_libco.Loop.Wakes.{turned-IsWheel}
use jkyi_libco.Loop.Serving.{IsServing, Fit, length-serving}

module _ {W : Type 0} (active timeout : ℕ) (pool : List Ptr) (now : ℕ) (s : Sched W) (L : Lists)
    (v : IsServing active timeout pool s L) (nt : timeout ≢ null)
    (since : s.wheel.start ≤ now) where
  abbrev pub due : List Ptr
  due = gather s.wheel L 0 (count_due s.wheel now)

  -- What is due is as many items as the pool has, or less.
  pub length-due : now - s.wheel.start + 1 < 2 ^ 31 → length due ≤ length pool
  length-due short =
      let (t, run, r, same) =
        take_all-Updates s.wheel timeout now L v.wheel v.out_t nt since short (length pool + 1)
          s.timers v.view
          (λ d. omega (arith, length-serving active timeout pool s L (slot s.wheel d) v)) in
      let at : taken s.wheel timeout now L v.wheel v.out_t nt since timeout ≡ due = ground (
        arith,
        after_take_result s.wheel timeout v.wheel v.out_t nt 0 (count_due s.wheel now) L
            (omega arith),
        v.idle,
      ) in
      length-within due pool (subst Distinct at (r.distinct timeout)) λ x m.
        let (j, a, b, h) = gather-due s.wheel L 0 (count_due s.wheel now) x m in
        v.pooled (slot s.wheel j) x h

  -- What may be made active before the timers are taken may be made active after that.
  pub joined-Fit :
      (t : Store) (f : Ptr → Bool)
      → ((q : Ptr) → f q ≡ (if has q due then true else s.timed_out q))
      → ((q : Ptr) → allocated t q ≡ allocated s.timers q)
      → (q : Ptr) → Fit pool s q
      → Fit pool (record s { timers = t; wheel = turned s.wheel now; timed_out = f }) q
  joined-Fit t f marked same q (alive, pooled, fit) = (
    same q ∙ alive,
    pooled,
    elim (Bool-cases (has q due)) [
      | inl d ↦
          let (j, a, b, h) = gather-due s.wheel L 0 (count_due s.wheel now) q d in
          ground (arith, v.on_time j q (omega arith) h)
      | inr out ↦ ground (arith, marked q, fit, out, since)
    ],
  )

  -- The state in front of the loop over the active list.
  pub IsServing-joined :
      (t : Store) (f : Ptr → Bool) (M : Lists)
      → now < 2 ^ 62
      → s.wheel.idx + (now - s.wheel.start) < 2 ^ 62
      → Represents t M
      → M active ≡ L active ++ due
      → M timeout ≡ []
      → OnTime (turned s.wheel now) M s.expire
      → ((q : Ptr) → f q ≡ (if has q due then true else s.timed_out q))
      → ((k : Ptr)
          → k ≢ active
          → k ≢ timeout
          → M k ≡ taken s.wheel timeout now L v.wheel v.out_t nt since k)
      → IsServing active timeout pool
          (record s { timers = t; wheel = turned s.wheel now; timed_out = f })
          M
  IsServing-joined t f M small idx view at_a at_t on_time marked kept =
      let from : (k x : Ptr) → k ≢ active → has x (M k) ≡ true → has x (L k) ≡ true = λ k x ne m.
        elim (eq-cases k timeout) [
          | inl e ↦ absurd (ground (arith, at_t, subst (λ (l : Ptr). has x (M l) ≡ true) e m))
          | inr off ↦
              elim (after_take-cases s.wheel timeout v.wheel v.out_t nt 0 (count_due s.wheel now) L
                k off) [
                  | inl e ↦ subst (λ (ys : List Ptr). has x ys ≡ true) (kept k ne off ∙ e) m
                  | inr e ↦
                      absurd (cc (subst (λ (ys : List Ptr). has x ys ≡ true) (kept k ne off ∙ e) m))
                ]
        ] in
      let not_due : (k x : Ptr) → k ≢ active → has x (M k) ≡ true → has x due ≡ false = λ k x ne m.
        elim (Bool-cases (has x due)) [
          | inl d ↦ absurd (
              ne (
                list_unique t M x k active view m
                  (rw at_a (ground (arith, d, has-append x (L active) due)))))
          | inr out ↦ out
        ] in
      record {
        view = view;
        wheel = turned-IsWheel s.wheel now v.wheel since small idx;
        room = v.room;
        out_a = v.out_a;
        out_t = v.out_t;
        idle = at_t;
        on_time = on_time;
        unmarked = λ k x ne m.
            ground (arith, marked x, not_due k x ne m, v.unmarked k x ne (from k x ne m));
        attached = λ k x ne m. v.attached k x ne (from k x ne m);
        ready = λ x m. elim (Bool-cases (has x due)) [
          | inl d ↦
              let (j, a, b, h) = gather-due s.wheel L 0 (count_due s.wheel now) x d in
              ground (arith, v.on_time j x (omega arith) h)
          | inr out ↦
              let h : has x (L active) ≡ true =
                ground (arith, at_a, m, has-append x (L active) due, out) in
              ground (arith, marked x, v.ready x h, out, since)
        ];
        pooled = λ k x m. elim (eq-cases k active) [
          | inl e ↦
              let h : has x (L active ++ due) ≡ true =
                subst (λ (ys : List Ptr). has x ys ≡ true) at_a
                  (subst (λ (l : Ptr). has x (M l) ≡ true) e m) in
              elim (Bool-cases (has x due)) [
                | inl d ↦
                    let (j, a, b, at) = gather-due s.wheel L 0 (count_due s.wheel now) x d in
                    v.pooled (slot s.wheel j) x at
                | inr out ↦ v.pooled active x (ground (arith, h, has-append x (L active) due, out))
              ]
          | inr ne ↦ v.pooled k x (from k x ne m)
        ];
      }
