-- ===== src/Context/Swap.antt =====
-- What coctx_swap (coctx_swap.S, lines 48 to 96) leaves in the context that it saves to, and in the
-- registers when it loads one.
use jkyi_libco.Base.{
  ℕ, zero, suc, ◌+◌, ◌*◌, ◌%◌, ◌≤◌, ◌<◌, ◌≡◌, ◌⊎◌, refl, ap, ◌∙◌, List, [], ◌∷◌, arith,
}
use jkyi_libco.Link.{write}
use jkyi_libco.Timeout.{u64}
use jkyi_libco.Context.{
  Cpu, step, run, save, restore, above, below, rax, rbx, rcx, rdx, rsi, rdi, rbp, rsp, r8, r9, r12,
  r13, r14, r15,
}
use jkyi_libco.Context.Words.{store_words, store_words-outside}

-- The word at `q` is none of the context's at `a`.
abbrev pub Apart : (a q : ℕ) → Type 0
Apart a q = (q + 8 ≤ a) ⊎ (a + 112 ≤ q)

-- The words from regs[13] down to regs[0].
abbrev pub saved_words : (m : Cpu) → (at ret_addr : ℕ) → List ℕ
saved_words m at ret_addr =
    at
    ∷ m.regs rbx
    ∷ m.regs rcx
    ∷ m.regs rdx
    ∷ ret_addr
    ∷ m.regs rsi
    ∷ m.regs rdi
    ∷ m.regs rbp
    ∷ m.regs r8
    ∷ m.regs r9
    ∷ m.regs r12
    ∷ m.regs r13
    ∷ m.regs r14
    ∷ m.regs r15
    ∷ []

saved_raw :
    (m : Cpu)
    → (run save m).mem
      ≡ store_words m.mem ((m.regs rdi + 112) % u64) (
          saved_words m (above (m.regs rsp)) (
            store_words m.mem
              ((m.regs rdi + 112) % u64)
              (above (m.regs rsp) ∷ m.regs rbx ∷ m.regs rcx ∷ m.regs rdx ∷ [])
              (below (above (m.regs rsp)))))
unfolding run step
saved_raw m = refl

-- The context at rdi and the word at rsp do not wrap around and are apart.
abbrev pub CanSave : Cpu → Type 0
CanSave m = (m.regs rdi + 112 < u64) × (m.regs rsp + 8 < u64) × Apart (m.regs rdi) (m.regs rsp)

pub saved_mem :
    (m : Cpu)
    → CanSave m
    → (run save m).mem
      ≡ store_words m.mem (m.regs rdi + 112) (saved_words m (m.regs rsp + 8) (m.mem (m.regs rsp)))
saved_mem m can =
    let top : (m.regs rdi + 112) % u64 ≡ m.regs rdi + 112 = omega (arith, can.0) in
    let up : above (m.regs rsp) ≡ m.regs rsp + 8 = omega (arith, can.1) in
    let down : below (m.regs rsp + 8) ≡ m.regs rsp = omega (arith, can.1) in
    let word =
      store_words-outside m.mem (m.regs rdi + 112)
        ((m.regs rsp + 8) ∷ m.regs rbx ∷ m.regs rcx ∷ m.regs rdx ∷ []) (m.regs rsp) (omega arith)
        can.0 (ground (arith, can.2)) in
    rw (saved_raw m, top, up, down, word) refl

-- The registers that the saving half leaves alone.
pub saved_rsi : (m : Cpu) → (run save m).regs rsi ≡ m.regs rsi
unfolding run step
saved_rsi m = refl

-- What the loading half leaves, by the words of the context at `b`.
abbrev pub Loaded : (before after : Cpu) → (b : ℕ) → Type 0
Loaded m after b =
    (after.regs r15 ≡ m.mem b)
    × (after.regs r14 ≡ m.mem (b + 8))
    × (after.regs r13 ≡ m.mem (b + 16))
    × (after.regs r12 ≡ m.mem (b + 24))
    × (after.regs r9 ≡ m.mem (b + 32))
    × (after.regs r8 ≡ m.mem (b + 40))
    × (after.regs rbp ≡ m.mem (b + 48))
    × (after.regs rdi ≡ m.mem (b + 56))
    × (after.regs rsi ≡ m.mem (b + 64))
    × (after.rip ≡ m.mem (b + 72))
    × (after.regs rdx ≡ m.mem (b + 80))
    × (after.regs rcx ≡ m.mem (b + 88))
    × (after.regs rbx ≡ m.mem (b + 96))
    × (after.regs rsp ≡ m.mem (b + 104))
    × (after.regs rax ≡ 0)
    × (after.mem ≡ write m.mem (below (m.mem (b + 104))) (m.mem (b + 72)))

-- The address that the `n`-th `pop` reads at.
abbrev pops : ℕ → ℕ → ℕ
pops zero b = b
pops (suc n) b = pops n (above b)

pops-add : (n b : ℕ) → b + 8 * n < u64 → pops n b ≡ b + 8 * n
pops-add zero b h = omega arith
pops-add (suc n) b h =
    let up : above b ≡ b + 8 = omega arith in
    rw up (omega (arith, pops-add n (b + 8) (omega arith)))

pub Loaded-restore :
    (m : Cpu)
    → m.regs rsi + 112 < u64
    → m.mem (m.regs rsi + 104) < u64
    → Loaded m (run restore m) (m.regs rsi)
unfolding run step
Loaded-restore m high range =
    let b = m.regs rsi in
    let word : (n : ℕ) → n ≤ 13 → m.mem (pops n b) ≡ m.mem (b + 8 * n) =
      λ n le. ap m.mem (pops-add n b (omega arith)) in
    let ret_addr = word 9 (omega arith) in
    let sp = word 13 (omega arith) in
    (
      refl,
      word 1 (omega arith),
      word 2 (omega arith),
      word 3 (omega arith),
      word 4 (omega arith),
      word 5 (omega arith),
      word 6 (omega arith),
      word 7 (omega arith),
      word 8 (omega arith),
      write-at (below (m.mem (pops 13 b))) (m.mem (pops 9 b)) ∙ ret_addr,
      word 10 (omega arith),
      word 11 (omega arith),
      word 12 (omega arith),
      ap (λ x. above (below x)) sp ∙ omega (arith, range),
      refl,
      ap (λ x. write m.mem (below x) (m.mem (pops 9 b))) sp ∙ ap (write m.mem _) ret_addr,
    )
  where
    write-at : (a v : ℕ) → write m.mem a v a ≡ v
    write-at a v = ground arith
