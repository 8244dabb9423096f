-- ===== src/Context.antt =====
-- The switch of the registers on x86-64: coctx_init and coctx_make of coctx.cc (lines 86 to 112),
-- and the instructions of coctx_swap.S (lines 48 to 96).
pub mod Words
pub mod Swap
pub mod Resume
use jkyi_libco.Base.{
  ℕ, zero, suc, ◌+◌, ◌-◌, ◌*◌, ◌%◌, ◌^◌, List, [], ◌∷◌, ◌++◌, map, Ptr, ◌==◌, if◌then◌else◌,
}
use jkyi_libco.Link.{write}
use jkyi_libco.Timeout.{u64}

-- coctx_t: `regs` by the indices of the comment in coctx.cc, from r15 at 0 to rsp at 13.
pub record Context : Type 0 where
  pub regs : ℕ → ℕ
  pub ss_size : ℕ
  pub ss_sp : Ptr

abbrev pub k_rdi : ℕ
k_rdi = 7

abbrev pub k_rsi : ℕ
k_rsi = 8

abbrev pub k_ret_addr : ℕ
k_ret_addr = 9

abbrev pub k_rsp : ℕ
k_rsp = 13

-- coctx_init
unfoldable pub coctx_init : Context → Context
coctx_init ctx = record { regs = λ i. 0; ss_size = 0; ss_sp = 0 }

-- coctx_make. `sp & -16` clears the last four bits.
unfoldable pub coctx_make : Context → (func s s1 : Ptr) → Context
coctx_make ctx func s s1 =
    let top = (ctx.ss_sp + ctx.ss_size) % u64 in
    let sp = top - top % 16 in
    record ctx {
      regs =
          write
            (write (write (write (λ i. 0) k_ret_addr func) k_rsp ((sp + u64 - 8) % u64)) k_rdi s)
            k_rsi s1;
    }

-- The registers that coctx_swap touches.
abbrev pub rax : ℕ
rax = 0

abbrev pub rbx : ℕ
rbx = 1

abbrev pub rcx : ℕ
rcx = 2

abbrev pub rdx : ℕ
rdx = 3

abbrev pub rsi : ℕ
rsi = 4

abbrev pub rdi : ℕ
rdi = 5

abbrev pub rbp : ℕ
rbp = 6

abbrev pub rsp : ℕ
rsp = 7

abbrev pub r8 : ℕ
r8 = 8

abbrev pub r9 : ℕ
r9 = 9

abbrev pub r12 : ℕ
r12 = 12

abbrev pub r13 : ℕ
r13 = 13

abbrev pub r14 : ℕ
r14 = 14

abbrev pub r15 : ℕ
r15 = 15

-- The registers, the words of memory by address, and the instruction pointer. All addresses that
-- the code uses are multiples of 8.
pub record Cpu : Type 0 where
  pub regs : ℕ → ℕ
  pub mem : ℕ → ℕ
  pub rip : ℕ

pub data Instr : Type 0 where
  -- `leaq disp(%base),%dst`
  lea : (disp base dst : ℕ) → Instr
  push : ℕ → Instr
  -- `pushq -8(%base)`
  push_below : ℕ → Instr
  pop : ℕ → Instr
  mov : (src dst : ℕ) → Instr
  -- `xorl %reg,%reg`
  clear : ℕ → Instr
  ret : Instr

abbrev pub below : ℕ → ℕ
below a = (a + u64 - 8) % u64

abbrev pub above : ℕ → ℕ
above a = (a + 8) % u64

abbrev pub push_word : ℕ → Cpu → Cpu
push_word v m = record m {
  regs = write m.regs rsp (below (m.regs rsp));
  mem = write m.mem (below (m.regs rsp)) v;
}

unfoldable pub step : Instr → Cpu → Cpu
step (lea disp base dst) m = record m { regs = write m.regs dst ((m.regs base + disp) % u64) }
step (push r) m = push_word (m.regs r) m
step (push_below r) m = push_word (m.mem (below (m.regs r))) m
step (pop r) m = record m {
  regs = write (write m.regs rsp (above (m.regs rsp))) r (m.mem (m.regs rsp));
}
step (mov src dst) m = record m { regs = write m.regs dst (m.regs src) }
step (clear r) m = record m { regs = write m.regs r 0 }
step ret m = record m { regs = write m.regs rsp (above (m.regs rsp)); rip = m.mem (m.regs rsp) }

unfoldable pub run : List Instr → Cpu → Cpu
unfolding step
run [] m = m
run (i ∷ is) m = run is (step i m)

-- The registers go to the context at rdi, from the top of it down.
abbrev pub save : List Instr
save =
    lea 8 rsp rax
    ∷ lea 112 rdi rsp
    ∷ push rax
    ∷ push rbx
    ∷ push rcx
    ∷ push rdx
    ∷ push_below rax
    ∷ push rsi
    ∷ push rdi
    ∷ push rbp
    ∷ push r8
    ∷ push r9
    ∷ push r12
    ∷ push r13
    ∷ push r14
    ∷ push r15
    ∷ []

-- They come from the context at rsi.
abbrev pub restore : List Instr
restore =
    mov rsi rsp
    ∷ pop r15
    ∷ pop r14
    ∷ pop r13
    ∷ pop r12
    ∷ pop r9
    ∷ pop r8
    ∷ pop rbp
    ∷ pop rdi
    ∷ pop rsi
    ∷ pop rax
    ∷ pop rdx
    ∷ pop rcx
    ∷ pop rbx
    ∷ pop rsp
    ∷ push rax
    ∷ clear rax
    ∷ ret
    ∷ []

-- coctx_swap, from its first instruction on.
unfoldable pub coctx_swap : Cpu → Cpu
unfolding run
coctx_swap m = run restore (run save m)
