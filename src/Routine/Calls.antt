-- ===== src/Routine/Calls.antt =====
-- The stack of calls: co_resume and co_yield_env nest.
use jkyi_libco.Base.{
  ℕ, true, ◌+◌, ◌-◌, ◌≤◌, ◌<◌, ◌≡◌, ◌⊎◌, inl, inr, Bool-cases, some, Option-cases, arith, Ptr,
  eq-cases, sym, null, not_null, not, ◌&&◌, if◌then◌else◌, subst, ◌^◌, refl, ◌==◌, ◌||◌, leb, ltb,
  ap, ◌∙◌, ==_refl,
}
use jkyi_libco.Base.Run.{ok, fault}
use jkyi_libco.Link.{write}
use jkyi_libco.Routine.Entered.{entered}
use jkyi_libco.Routine.{
  load_bytes, stack_length, set_co, Co, Thread, swap_out, save_stack_buffer, co_resume,
  co_yield_env, max_calls,
}

-- What the switch leaves alone.
abbrev pub SameCalls : Thread → Thread → Type 0
SameCalls t u = (u.env.size ≡ t.env.size) × (u.env.call_stack ≡ t.env.call_stack)

save-SameCalls : (p : Ptr) (t u : Thread) → save_stack_buffer p t ≡ ok u → SameCalls t u
unfolding save_stack_buffer
save-SameCalls p t u h = ground arith

swap_out-SameCalls :
    (curr next sp : Ptr) (t u : Thread) → swap_out curr next sp t ≡ ok u → SameCalls t u
unfolding swap_out save_stack_buffer
swap_out-SameCalls curr next sp t u h = ground arith

save-noted :
    (p q : Ptr) (t u : Thread) (c : Co)
    → save_stack_buffer p t ≡ ok u
    → t.co q ≡ some c
    → (d : Co) × (u.co q ≡ some d)
      × (d.sp ≡ c.sp)
      × (d.is_share ≡ c.is_share)
      × (u.env.pending ≡ t.env.pending)
unfolding save_stack_buffer
save-noted p q t u c h at = elim (Option-cases (t.co p)) [
  | inl gone ↦ absurd (ground arith)
  | inr (e, e_at) ↦ elim (Option-cases (t.stack e.stack)) [
    | inl gone ↦ absurd (ground arith)
    | inr (s, s_at) ↦
        let len = stack_length s.bp e.sp in
        elim (Bool-cases (leb (2 ^ 31) len)) [
          | inl negative ↦ absurd (ground (arith, e_at, s_at, negative, h))
          | inr length ↦
              let e' : Co = record e {
                save_size = len;
                save_buffer = some (load_bytes t.mem e.sp len);
              } in
              let out : ok u ≡ ok (set_co p e' t) = sym h ∙ ground (arith, e_at, s_at, length) in
              let same : u ≡ set_co p e' t = ground (arith, out) in
              elim (eq-cases q p) [
                | inl mine ↦ (
                  e',
                  rw same (ground (arith, mine, ==_refl p)),
                  ground (arith, at, e_at, mine),
                  ground (arith, at, e_at, mine),
                  rw same refl,
                )
                | inr other ↦ (c, rw same (ground (arith, other, at)), refl, refl, rw same refl)
              ]
        ]
  ]
]

-- The switch is from `curr`, whose stack pointer is noted, to `next`, which is pending if it runs on
-- a shared stack.
abbrev pub Switched : (curr next sp : Ptr) → Thread → Type 0
Switched curr next sp u =
    (c n : Co) × (u.co curr ≡ some c)
    × (c.sp ≡ sp)
    × (u.co next ≡ some n)
    × (u.env.pending ≡ (if n.is_share then next else null))

swap_out-Switched :
    (curr next sp : Ptr) (t u : Thread) → swap_out curr next sp t ≡ ok u → Switched curr next sp u
unfolding swap_out
swap_out-Switched curr next sp t u h = elim (Option-cases (t.co curr)) [
  | inl gone ↦ absurd (ground (arith, gone, h))
  | inr (c, c_at) ↦
      let c' : Co = record c { sp = sp } in
      let v : Thread = set_co curr c' t in
      let here : v.co curr ≡ some c' = ground (arith, ==_refl curr) in
      elim (Option-cases (v.co next)) [
        | inl gone ↦ absurd (ground (arith, c_at, gone, h))
        | inr (n, n_at) ↦ elim (Bool-cases n.is_share) [
          | inr own ↦
              let out : ok u
                  ≡ ok (record v { env = record v.env { pending = null; occupy = null } }) =
                sym h ∙ ground (arith, c_at, n_at, own) in
              let same : u ≡ record v { env = record v.env { pending = null; occupy = null } } =
                ground (arith, out) in
              (c', n, rw same here, refl, rw same n_at, rw (same, own) refl)
          | inl share ↦ elim (Option-cases (t.stack n.stack)) [
            | inl gone ↦ absurd (ground (arith, c_at, n_at, share, gone, h))
            | inr (s, s_at) ↦
                let e : Thread = entered next n s v in
                elim (Bool-cases (not_null s.occupy && not (s.occupy == next))) [
                  | inr alone ↦
                      let out : ok u ≡ ok e =
                        sym h ∙ ground (arith, c_at, n_at, share, s_at, alone) in
                      let same : u ≡ e = ground (arith, out) in
                      (c', n, rw same here, refl, rw same n_at, rw (same, share) refl)
                  | inl other ↦
                      let run : save_stack_buffer s.occupy e ≡ ok u =
                        sym (ground (arith, c_at, n_at, share, s_at, other)) ∙ h in
                      let (c₁, c₁_at, c_sp, c_share, pending) =
                        save-noted s.occupy curr e u c' run here in
                      let (n₁, n₁_at, n_sp, n_share, pending') =
                        save-noted s.occupy next e u n run n_at in
                      (c₁, n₁, c₁_at, c_sp, n₁_at, pending ∙ ground (arith, n_share, share))
                ]
          ]
        ]
      ]
]

resume-calls :
    (p sp : Ptr) (t u : Thread)
    → co_resume p sp t ≡ ok u
    → (0 < t.env.size)
      × (u.env.size ≡ t.env.size + 1)
      × (u.env.call_stack ≡ write t.env.call_stack t.env.size p)
      × Switched (t.env.call_stack (t.env.size - 1)) p sp u
unfolding co_resume
resume-calls p sp t u h = elim (Option-cases (t.co p)) [
  | inl gone ↦ absurd (ground arith)
  | inr (c, at) ↦ elim (Bool-cases (t.env.size == 0 || leb max_calls t.env.size)) [
    | inl out ↦ absurd (ground (arith))
    | inr within ↦
        let called : Thread = record (set_co p (record c { started = true }) t) {
          env = record t.env {
            call_stack = write t.env.call_stack t.env.size p;
            size = t.env.size + 1;
          };
        } in
        let run : swap_out (t.env.call_stack (t.env.size - 1)) p sp called ≡ ok u =
          ground (arith, at, within) in
        let (size, calls) =
          swap_out-SameCalls (t.env.call_stack (t.env.size - 1)) p sp called u run in
        (
          ground arith,
          size,
          calls,
          swap_out-Switched (t.env.call_stack (t.env.size - 1)) p sp called u run,
        )
  ]
]

yield-calls :
    (sp : Ptr) (w v : Thread)
    → co_yield_env sp w ≡ ok v
    → (2 ≤ w.env.size)
      × (v.env.size ≡ w.env.size - 1)
      × (v.env.call_stack ≡ w.env.call_stack)
      × Switched (w.env.call_stack (w.env.size - 1)) (w.env.call_stack (w.env.size - 2)) sp v
unfolding co_yield_env
yield-calls sp w v h = elim (Bool-cases (ltb w.env.size 2)) [
  | inl few ↦ absurd (ground arith)
  | inr two ↦
      let run : swap_out (w.env.call_stack (w.env.size - 1)) (w.env.call_stack (w.env.size - 2)) sp
            (record w { env = record w.env { size = w.env.size - 1 } })
          ≡ ok v =
        ground arith in
      let (size, calls) =
        swap_out-SameCalls (w.env.call_stack (w.env.size - 1)) (w.env.call_stack (w.env.size - 2))
          sp (record w { env = record w.env { size = w.env.size - 1 } }) v run in
      (
        ground arith,
        size,
        calls,
        swap_out-Switched (w.env.call_stack (w.env.size - 1)) (w.env.call_stack (w.env.size - 2)) sp
            (record w { env = record w.env { size = w.env.size - 1 } }) v run,
      )
]

-- A coroutine that has been resumed and yields gives the control back. The switch of co_resume is
-- from the coroutine on top of the call stack, the caller, to `p`. When what has run in between
-- leaves the call stack as the resumption made it, the switch of co_yield_env is from `p` to the
-- caller; the call stack then has the length that it had before the resumption, and the same
-- coroutines on it.
pub co_yield_env-co_resume :
    (p sp sp' : Ptr) (t u w v : Thread)
    → co_resume p sp t ≡ ok u
    → SameCalls u w
    → co_yield_env sp' w ≡ ok v
    → Switched (t.env.call_stack (t.env.size - 1)) p sp u
      × Switched p (t.env.call_stack (t.env.size - 1)) sp' v
      × (v.env.size ≡ t.env.size)
      × ((i : ℕ) → i < t.env.size → v.env.call_stack i ≡ t.env.call_stack i)
co_yield_env-co_resume p sp sp' t u w v h same h' =
    let (some_one, size_u, calls_u, out) = resume-calls p sp t u h in
    let (two, size_v, calls_v, back) = yield-calls sp' w v h' in
    let calls_w : w.env.call_stack ≡ write t.env.call_stack t.env.size p = same.1 ∙ calls_u in
    let calls : v.env.call_stack ≡ write t.env.call_stack t.env.size p = calls_v ∙ calls_w in
    let top : w.env.call_stack (w.env.size - 1) ≡ p =
      ap (λ (f : ℕ → Ptr). f (w.env.size - 1)) calls_w ∙ ground (arith, same.0, size_u) in
    let below : w.env.call_stack (w.env.size - 2) ≡ t.env.call_stack (t.env.size - 1) =
      ap (λ (f : ℕ → Ptr). f (w.env.size - 2)) calls_w ∙ ground (arith, same.0, size_u, some_one) in
    (
      out,
      subst (λ (q : Ptr). Switched p q sp' v) below
          (subst (λ (q : Ptr). Switched q (w.env.call_stack (w.env.size - 2)) sp' v) top back),
      omega (arith, same.0, size_u, size_v),
      λ i lt. ap (λ (f : ℕ → Ptr). f i) calls ∙ ground arith,
    )

-- With no coroutine on the call stack, or with 128 of them, co_resume reads or writes out of the
-- array; with none, co_yield_env does too.
calls-fault :
    (p sp : Ptr) (t : Thread) (c : Co)
    → t.co p ≡ some c
    → (t.env.size ≡ 0) ⊎ (128 ≤ t.env.size)
    → (co_resume p sp t ≡ fault) × ((co_yield_env sp t ≡ fault) ⊎ (128 ≤ t.env.size))
unfolding co_resume co_yield_env
calls-fault p sp t c at (inl empty) = (ground arith, inl (ground arith))
calls-fault p sp t c at (inr full) = (ground arith, inr full)
