-- ===== src/Context/Resume.antt =====
-- A coroutine is left by one coctx_swap and entered again by a later one (coctx_swap.S, lines 48
-- to 96), or entered for the first time through coctx_make (coctx.cc, lines 100 to 112).
use jkyi_libco.Base.{
  ℕ, ◌+◌, ◌-◌, ◌*◌, ◌%◌, ◌≤◌, ◌<◌, ◌≡◌, ◌⊎◌, refl, ap, subst, sym, ◌∙◌, arith, some, get_elem?, Ptr,
}
use jkyi_libco.Timeout.{u64}
use jkyi_libco.Context.{
  Context, coctx_make, Cpu, run, save, restore, coctx_swap, rax, rbx, rsi, rdi, rbp, rsp, r12, r13,
  r14, r15,
}
use jkyi_libco.Context.Words.{store_words-at, store_words-outside}
use jkyi_libco.Context.Swap.{
  Apart, CanSave, saved_words, saved_mem, saved_rsi, Loaded, Loaded-restore,
}

-- The two contexts do not overlap, and the word under the loaded stack pointer, where the return
-- address is pushed, is none of the saved context's.
abbrev pub CanSwap : Cpu → Type 0
CanSwap m =
    CanSave m
    × (m.regs rsi + 112 < u64)
    × ((m.regs rsi + 112 ≤ m.regs rdi) ⊎ (m.regs rdi + 112 ≤ m.regs rsi))
    × (8 ≤ m.mem (m.regs rsi + 104))
    × (m.mem (m.regs rsi + 104) < u64)
    × Apart (m.regs rdi) (m.mem (m.regs rsi + 104) - 8)

-- regs[k] of the context at rdi is the word `13 - k` of the list.
save-at :
    (m : Cpu) (i v : ℕ)
    → CanSave m
    → get_elem? (saved_words m (m.regs rsp + 8) (m.mem (m.regs rsp))) i ≡ some v
    → (run save m).mem (m.regs rdi + 112 - 8 * (i + 1)) ≡ v
save-at m i v can h = rw (saved_mem m can) (
    store_words-at m.mem (m.regs rdi + 112) (saved_words m (m.regs rsp + 8) (m.mem (m.regs rsp))) i
      v (omega arith) can.0 h)

save-outside : (m : Cpu) (q : ℕ) → CanSave m → Apart (m.regs rdi) q → (run save m).mem q ≡ m.mem q
save-outside m q can out = rw (saved_mem m can) (
    store_words-outside m.mem (m.regs rdi + 112)
      (saved_words m (m.regs rsp + 8) (m.mem (m.regs rsp))) q (omega arith) can.0
      (ground (arith, out)))

Loaded-coctx_swap : (m : Cpu) → CanSwap m → Loaded (run save m) (coctx_swap m) (m.regs rsi)
unfolding coctx_swap
Loaded-coctx_swap m can =
    let sp : (run save m).mem (m.regs rsi + 104) ≡ m.mem (m.regs rsi + 104) =
      save-outside m (m.regs rsi + 104) can.0 (ground (arith, can.2)) in
    let from : (run save m).regs rsi ≡ m.regs rsi = saved_rsi m in
    subst (Loaded (run save m) (run restore (run save m))) from
      (Loaded-restore (run save m) (rw from can.1) (rw (from, sp) can.4))

-- The switch keeps what it saved.
swap-at :
    (m : Cpu) (i v : ℕ)
    → CanSwap m
    → i < 14
    → get_elem? (saved_words m (m.regs rsp + 8) (m.mem (m.regs rsp))) i ≡ some v
    → (coctx_swap m).mem (m.regs rdi + 112 - 8 * (i + 1)) ≡ v
swap-at m i v can le h =
    let sp : (run save m).mem (m.regs rsi + 104) ≡ m.mem (m.regs rsi + 104) =
      save-outside m (m.regs rsi + 104) can.0 (ground (arith, can.2)) in
    let after = Loaded-coctx_swap m can in
    rw (after.15, sp) (ground (arith, can.3, can.4, can.5, le, save-at m i v can.0 h))

-- What the caller of the first switch finds after a later one back.
abbrev pub Resumed : (left : Cpu) → (after : Cpu) → Type 0
Resumed m after =
    (after.rip ≡ m.mem (m.regs rsp))
    × (after.regs rsp ≡ m.regs rsp + 8)
    × (after.regs rbx ≡ m.regs rbx)
    × (after.regs rbp ≡ m.regs rbp)
    × (after.regs r12 ≡ m.regs r12)
    × (after.regs r13 ≡ m.regs r13)
    × (after.regs r14 ≡ m.regs r14)
    × (after.regs r15 ≡ m.regs r15)
    × (after.regs rdi ≡ m.regs rdi)
    × (after.regs rsi ≡ m.regs rsi)
    × (after.regs rax ≡ 0)

-- A switch to the context at rdi of an earlier switch, whose 14 words are what that switch left,
-- returns from the earlier switch.
pub coctx_swap-resumes :
    (m later : Cpu)
    → CanSwap m
    → CanSwap later
    → later.regs rsi ≡ m.regs rdi
    → ((k : ℕ) → k < 14 → later.mem (m.regs rdi + 8 * k) ≡ (coctx_swap m).mem (m.regs rdi + 8 * k))
    → Resumed m (coctx_swap later)
coctx_swap-resumes m later can can' to kept =
    let back : (k v : ℕ)
        → k < 14
        → get_elem? (saved_words m (m.regs rsp + 8) (m.mem (m.regs rsp))) (13 - k) ≡ some v
        → (run save later).mem (later.regs rsi + 8 * k) ≡ v =
      λ k v le h.
        let place : m.regs rdi + 112 - 8 * ((13 - k) + 1) ≡ m.regs rdi + 8 * k = omega arith in
        save-outside later (later.regs rsi + 8 * k) can'.0 (ground (arith, can'.2))
        ∙ ap (λ a. later.mem (a + 8 * k)) to
        ∙ kept k le
        ∙ ap (coctx_swap m).mem (sym place)
        ∙ swap-at m (13 - k) v can (omega arith) h in
    let after = Loaded-coctx_swap later can' in
    (
      after.9 ∙ back 9 _ (omega arith) refl,
      after.13 ∙ back 13 _ (omega arith) refl,
      after.12 ∙ back 12 _ (omega arith) refl,
      after.6 ∙ back 6 _ (omega arith) refl,
      after.3 ∙ back 3 _ (omega arith) refl,
      after.2 ∙ back 2 _ (omega arith) refl,
      after.1 ∙ back 1 _ (omega arith) refl,
      ground (arith, after.0, back 0 (m.regs r15) (omega arith) refl),
      after.7 ∙ back 7 _ (omega arith) refl,
      after.8 ∙ back 8 _ (omega arith) refl,
      after.14,
    )

-- The stack pointer of a fresh context: the last word of the stack but for the alignment.
abbrev fresh_rsp : Context → ℕ
fresh_rsp ctx = ctx.ss_sp + ctx.ss_size - (ctx.ss_sp + ctx.ss_size) % 16 - 8

coctx_make-rsp :
    (ctx : Context) (func s s1 : Ptr)
    → ctx.ss_sp + ctx.ss_size < u64
    → 32 ≤ ctx.ss_size
    → (coctx_make ctx func s s1).regs 13 ≡ fresh_rsp ctx
unfolding coctx_make
coctx_make-rsp ctx func s s1 fits size = omega (arith, fits)

-- A switch to a context in memory whose 14 words are those of coctx_make starts the function with
-- its two arguments, on a stack pointer as the calling convention wants it at a function's entry,
-- and what the switch pushed lies inside the stack. The stack has 32 bytes or more.
pub coctx_make-starts :
    (m : Cpu) (ctx : Context) (func s s1 : Ptr)
    → CanSwap m
    → ctx.ss_sp + ctx.ss_size < u64
    → 32 ≤ ctx.ss_size
    → ((k : ℕ) → k < 14 → m.mem (m.regs rsi + 8 * k) ≡ (coctx_make ctx func s s1).regs k)
    → ((coctx_swap m).rip ≡ func)
      × ((coctx_swap m).regs rdi ≡ s)
      × ((coctx_swap m).regs rsi ≡ s1)
      × ((coctx_swap m).regs rsp % 16 ≡ 8)
      × (ctx.ss_sp + 8 ≤ (coctx_swap m).regs rsp)
      × ((coctx_swap m).regs rsp + 8 ≤ ctx.ss_sp + ctx.ss_size)
unfolding coctx_make
coctx_make-starts m ctx func s s1 can fits size words =
    let word : (k : ℕ)
        → k < 14
        → (run save m).mem (m.regs rsi + 8 * k) ≡ (coctx_make ctx func s s1).regs k =
      λ k le. save-outside m (m.regs rsi + 8 * k) can.0 (ground (arith, can.2)) ∙ words k le in
    let after = Loaded-coctx_swap m can in
    let rsp_is : (coctx_swap m).regs rsp ≡ fresh_rsp ctx =
      after.13 ∙ word 13 (omega arith) ∙ coctx_make-rsp ctx func s s1 fits size in
    (
      after.9 ∙ word 9 (omega arith),
      after.7 ∙ word 7 (omega arith),
      after.8 ∙ word 8 (omega arith),
      rw rsp_is (omega (arith, size)),
      rw rsp_is (omega (arith, size)),
      rw rsp_is (omega (arith, size)),
    )
