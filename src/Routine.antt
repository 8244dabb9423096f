-- ===== src/Routine.antt =====
-- Coroutines and their stacks, co_routine.cc: the stacks and shared stacks (lines 219 to 254),
-- co_create_env, co_free, co_reset (391 to 504), and the switch between coroutines (472 to 585).
pub mod Size
pub mod Stack
pub mod Entered
pub mod Kept
pub mod Switch
pub mod Calls
pub mod Current
pub mod Start
use jkyi_libco.Base.{
  ℕ, zero, suc, ◌+◌, ◌-◌, ◌*◌, ◌%◌, ◌^◌, Bool, true, false, ◌&&◌, ◌||◌, not, Option, none, some,
  List, [], ◌∷◌, Ptr, null, ◌==◌, ltb, leb, if◌then◌else◌, not_null, length,
}
use jkyi_libco.Base.Run.{Run, ok, fault, ◌>>=◌}
use jkyi_libco.Link.{write}
use jkyi_libco.Timeout.{u32, u64}

-- stStackMem_t. `bp` is the end of the buffer, where the stack begins.
pub record StackMem : Type 0 where
  pub occupy : Ptr
  pub size : ℕ
  pub bp : Ptr
  pub buffer : Ptr

-- stShareStack_t, with its array.
pub record ShareStack : Type 0 where
  pub alloc_idx : ℕ
  pub size : ℕ
  pub count : ℕ
  pub array : ℕ → Ptr

-- stCoRoutine_t, without the registers and the specific data. `save_buffer` holds its bytes.
pub record Co : Type 0 where
  pub func : Ptr
  pub arg : Ptr
  pub started : Bool
  pub ended : Bool
  pub is_main : Bool
  pub hooked : Bool
  pub is_share : Bool
  pub stack : Ptr
  pub sp : Ptr
  pub save_size : ℕ
  pub save_buffer : Option (List ℕ)

-- stCoRoutineEnv_t, without its epoll.
pub record Env : Type 0 where
  pub call_stack : ℕ → Ptr
  pub size : ℕ
  pub pending : Ptr
  pub occupy : Ptr

-- The thread: its objects by address, `none` where none is allocated, and the bytes of the stacks.
pub record Thread : Type 0 where
  pub co : Ptr → Option Co
  pub stack : Ptr → Option StackMem
  pub env : Env
  pub mem : ℕ → ℕ

-- The length of pCallStack.
abbrev pub max_calls : ℕ
max_calls = 128

abbrev pub load_co : Thread → Ptr → Run Co
load_co t p = elim (t.co p) [ none ↦ fault | some c ↦ ok c ]

abbrev pub load_stack : Thread → Ptr → Run StackMem
load_stack t p = elim (t.stack p) [ none ↦ fault | some s ↦ ok s ]

abbrev pub set_co : Ptr → Co → Thread → Thread
set_co p c t = record t { co = write t.co p (some c) }

abbrev pub set_stack : Ptr → StackMem → Thread → Thread
set_stack p s t = record t { stack = write t.stack p (some s) }

-- The `n` bytes from `a` on, and memcpy to `a`.
abbrev pub load_bytes : (ℕ → ℕ) → Ptr → ℕ → List ℕ
load_bytes mem a zero = []
load_bytes mem a (suc n) = mem a ∷ load_bytes mem (a + 1) n

-- The number of some bytes, the low one first.
abbrev pub word : List ℕ → ℕ
word [] = 0
word (b ∷ bs) = b + 256 * word bs

abbrev pub store_bytes : (ℕ → ℕ) → Ptr → List ℕ → ℕ → ℕ
store_bytes mem a [] = mem
store_bytes mem a (b ∷ bs) = write (store_bytes mem (a + 1) bs) a b

-- The stack size that co_create_env makes of the attribute's: the word of an `int`.
unfoldable pub stack_size : ℕ → ℕ
stack_size n =
    let m : ℕ =
      if n == 0 || leb (2 ^ 31) n
      then 128 * 1024
      else if ltb (1024 * 1024 * 8) n
      then 1024 * 1024 * 8
      else n in
    if m % 4096 == 0 then m else m - m % 4096 + 4096

-- co_alloc_stackmem, with the address of the buffer.
unfoldable pub co_alloc_stackmem : Ptr → ℕ → StackMem
co_alloc_stackmem buffer size = record {
  occupy = null;
  size = size;
  bp = buffer + size;
  buffer = buffer;
}

-- co_alloc_sharestack, with the addresses of the stacks.
unfoldable pub co_alloc_sharestack : (ℕ → Ptr) → (count size : ℕ) → ShareStack
co_alloc_sharestack array count size = record {
  alloc_idx = 0;
  size = size;
  count = count;
  array = array;
}

-- co_get_stackmem for a shared stack that is not NULL.
unfoldable pub co_get_stackmem : ShareStack → Run (Ptr × ShareStack)
co_get_stackmem s =
    if s.count == 0
    then fault
    else ok (s.array (s.alloc_idx % s.count), record s { alloc_idx = (s.alloc_idx + 1) % u32 })

-- The fields that co_create_env sets.
abbrev pub new_co : (func arg stack : Ptr) → Bool → Co
new_co func arg stack share = record {
  func = func;
  arg = arg;
  started = false;
  ended = false;
  is_main = false;
  hooked = false;
  is_share = share;
  stack = stack;
  sp = null;
  save_size = 0;
  save_buffer = none;
}

-- co_create_env at the address `p`, without a shared stack: the new stack is at `q`.
unfoldable pub co_create_env : (p q buffer func arg size : ℕ) → Thread → Thread
unfolding stack_size co_alloc_stackmem
co_create_env p q buffer func arg size t =
    set_co p (new_co func arg q false) (set_stack q (co_alloc_stackmem buffer (stack_size size)) t)

-- co_create_env with a shared stack.
unfoldable pub co_create_shared : (p func arg : ℕ) → ShareStack → Thread → Run (ShareStack × Thread)
unfolding co_get_stackmem
co_create_shared p func arg s t = do
  (q, s) ← co_get_stackmem s
  ok (s, set_co p (new_co func arg q true) t)

-- `if(stack_mem->occupy_co == co) stack_mem->occupy_co = NULL`
unfoldable pub leave_stack : Ptr → Ptr → Thread → Run Thread
leave_stack p q t = do
  s ← load_stack t q
  ok (if s.occupy == p then set_stack q (record s { occupy = null }) t else t)

-- co_free
unfoldable pub co_free : Ptr → Thread → Run Thread
unfolding leave_stack
co_free p t = do
  c ← load_co t p
  t ←
      if c.is_share
      then leave_stack p c.stack t
      else ok (record t { stack = write t.stack c.stack none })
  ok (record t { co = write t.co p none })

-- co_reset
unfoldable pub co_reset : Ptr → Thread → Run Thread
unfolding leave_stack
co_reset p t = do
  c ← load_co t p
  if not c.started || c.is_main
      then ok t
      else (let size = elim c.save_buffer as (λ x. ℕ) [ none ↦ c.save_size | some b ↦ 0 ] in
          leave_stack p c.stack (
            set_co p
              (record c { started = false; ended = false; save_size = size; save_buffer = none })
              t))

-- `int len = stack_mem->stack_bp - occupy_co->stack_sp`: the word of the `int`.
abbrev pub stack_length : (bp sp : Ptr) → ℕ
stack_length bp sp = (bp + u64 - sp) % u64 % u32

-- save_stack_buffer. A negative length is a size for malloc and memcpy that no object has.
unfoldable pub save_stack_buffer : Ptr → Thread → Run Thread
save_stack_buffer p t = do
  c ← load_co t p
  s ← load_stack t c.stack
  let len = stack_length s.bp c.sp
  if leb (2 ^ 31) len
      then fault
      else ok (
          set_co p (record c { save_size = len; save_buffer = some (load_bytes t.mem c.sp len) }) t)

-- co_swap, up to the switch of the registers. `sp` is the address of the local `c`.
unfoldable pub swap_out : (curr next sp : Ptr) → Thread → Run Thread
unfolding save_stack_buffer
swap_out curr next sp t = do
  c ← load_co t curr
  let t = set_co curr (record c { sp = sp }) t
  n ← load_co t next
  if not n.is_share
      then ok (record t { env = record t.env { pending = null; occupy = null } })
      else (do
        s ← load_stack t n.stack
        let t : Thread = record (set_stack n.stack (record s { occupy = next }) t) {
          env = record t.env { pending = next; occupy = s.occupy };
        }
        if not_null s.occupy && not (s.occupy == next) then save_stack_buffer s.occupy t else ok t)

-- The pointer that is stored at `a`, its low byte first.
abbrev pub load_pointer : (ℕ → ℕ) → Ptr → Ptr
load_pointer mem a = word (load_bytes mem a 8)

-- co_swap, after the switch, on the stack of the coroutine that has been switched to. The source reads
-- the local `env`, which stands at `local` on that stack, before the saved bytes of the stack are
-- copied back; `home` is the address of the environment of the thread. Any other pointer that is
-- found there is a fault.
unfoldable pub swap_in : (local home : Ptr) → Thread → Run Thread
swap_in local home t =
    let o = t.env.occupy in
    let p = t.env.pending in
    if not (load_pointer t.mem local == home)
    then fault
    else if not_null o && not_null p && not (o == p)
    then (do
      c ← load_co t p
      ok (elim c.save_buffer [
        | none ↦ t
        | some b ↦ if c.save_size == 0 then t else record t { mem = store_bytes t.mem c.sp b }
      ]))
    else ok t

-- co_resume, up to the switch of the registers. An index out of the call stack is a fault.
unfoldable pub co_resume : (p sp : Ptr) → Thread → Run Thread
unfolding swap_out
co_resume p sp t = do
  c ← load_co t p
  if t.env.size == 0 || leb max_calls t.env.size
      then fault
      else (let curr = t.env.call_stack (t.env.size - 1) in
          let env : Env = record t.env {
            call_stack = write t.env.call_stack t.env.size p;
            size = t.env.size + 1;
          } in
          swap_out curr p sp (record (set_co p (record c { started = true }) t) { env = env }))

-- co_yield_env, up to the switch of the registers.
unfoldable pub co_yield_env : Ptr → Thread → Run Thread
unfolding swap_out
co_yield_env sp t =
    if ltb t.env.size 2
    then fault
    else swap_out (t.env.call_stack (t.env.size - 1)) (t.env.call_stack (t.env.size - 2)) sp
        (record t { env = record t.env { size = t.env.size - 1 } })

-- CoRoutineFunc, after `pfn` has returned.
unfoldable pub co_routine_func : (p sp : Ptr) → Thread → Run Thread
unfolding co_yield_env
co_routine_func p sp t = do
  c ← load_co t p
  co_yield_env sp (set_co p (record c { ended = true }) t)
