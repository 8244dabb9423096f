-- ===== src/Tests/Registers.antt =====
-- Switches of concrete registers (coctx.cc, coctx_swap.S).
use jkyi_libco.Base.{
  ℕ, ◌+◌, ◌*◌, ◌/◌, ◌-◌, ◌%◌, ◌≤◌, ◌<◌, ◌≡◌, inl, inr, ◌≢◌, refl, arith, ◌==◌, if◌then◌else◌,
}
use jkyi_libco.Link.{write}
use jkyi_libco.Timeout.{u64}
use jkyi_libco.Context.{Context, coctx_init, coctx_make, Cpu, step, run, coctx_swap, rsp, rsi, rdi}
use jkyi_libco.Context.Resume.{CanSwap, Resumed, coctx_swap-resumes, coctx_make-starts}

abbrev stack : Context
stack = record { regs = λ i. 0; ss_size = 128; ss_sp = 4004 }

-- A caller with the contexts at 1000 and 2000 and its stack pointer at 3000.
abbrev caller : Cpu
caller = record {
  regs = λ r. if r == rdi then 1000 else if r == rsi then 2000 else if r == rsp then 3000 else r;
  mem = λ a. if a == 3000 then 55 else (coctx_make stack 77 5 6).regs ((a - 2000) / 8);
  rip = 66;
}

-- The new coroutine switches back.
abbrev callee : Cpu
callee = record (coctx_swap caller) {
  regs = write (write (coctx_swap caller).regs rdi 2000) rsi 1000;
}

caller-CanSwap : CanSwap caller
unfolding coctx_make
caller-CanSwap = (
  (omega arith, omega arith, omega arith),
  omega arith,
  inr (omega arith),
  omega arith,
  omega arith,
  omega arith,
)

callee-CanSwap : CanSwap callee
unfolding coctx_make coctx_swap run step
callee-CanSwap = (
  (omega arith, omega arith, omega arith),
  omega arith,
  inl (omega arith),
  omega arith,
  omega arith,
  omega arith,
)

coctx_swap-resumes_example : Resumed caller (coctx_swap callee)
coctx_swap-resumes_example =
    coctx_swap-resumes caller callee caller-CanSwap callee-CanSwap refl (λ k le. refl)

coctx_make-starts_example :
    ((coctx_swap caller).rip ≡ 77)
    × ((coctx_swap caller).regs rdi ≡ 5)
    × ((coctx_swap caller).regs rsi ≡ 6)
    × ((coctx_swap caller).regs rsp % 16 ≡ 8)
    × (4004 + 8 ≤ (coctx_swap caller).regs rsp)
    × ((coctx_swap caller).regs rsp + 8 ≤ 4004 + 128)
coctx_make-starts_example =
    coctx_make-starts caller stack 77 5 6 caller-CanSwap (omega arith) (omega arith) caller_words
  where
    caller_words : (k : ℕ) → k < 14 → caller.mem (2000 + 8 * k) ≡ (coctx_make stack 77 5 6).regs k
    caller_words k le =
        let place : (2000 + 8 * k - 2000) / 8 ≡ k = omega arith in
        let off : 2000 + 8 * k ≢ 3000 = omega (arith, le) in ground (arith, place, off)

fresh_test : (coctx_make (coctx_init stack) 7 8 9).regs 13 ≡ u64 - 8
unfolding coctx_init coctx_make
fresh_test = refl
