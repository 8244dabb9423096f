-- ===== src/Routine/Size.antt =====
-- The stack sizes of co_create_env, and the turns of the shared stacks.
use jkyi_libco.Base.{ℕ, ◌+◌, ◌*◌, ◌%◌, ◌^◌, ◌≤◌, ◌<◌, ◌≡◌, ◌≢◌, ◌⊎◌, inl, inr, eq-cases, arith, Ptr}
use native.Mathlib.Decide.{dec_lt}
use jkyi_libco.Base.Run.{ok}
use jkyi_libco.Timeout.{u32}
use jkyi_libco.Routine.{ShareStack, stack_size, co_get_stackmem}

-- Whatever size a program asks for, the stack that co_create_env makes has 4096 bytes to 8 megabytes
-- and is a multiple of 4096; unless the program asks for 0, for a negative number or for more than 8
-- megabytes, it gets at least what it asks for, and less than 4096 bytes more.
pub stack_size_bounds :
    (n : ℕ)
    → n < 2 ^ 32
    → (4096 ≤ stack_size n)
      × (stack_size n ≤ 1024 * 1024 * 8)
      × (stack_size n % 4096 ≡ 0)
      × ((n ≡ 0) ⊎ ((1024 * 1024 * 8 < n) ⊎ ((n ≤ stack_size n) × (stack_size n < n + 4096))))
unfolding stack_size
stack_size_bounds n h = (
  ground arith,
  ground arith,
  ground arith,
  elim (eq-cases n 0) [
    | inl none_asked ↦ inl none_asked
    | inr some_asked ↦ elim (dec_lt (1024 * 1024 * 8) n) [
      | yes more ↦ inr (inl more)
      | no most ↦ inr (inr (ground arith, ground arith))
    ]
  ],
)

-- The stacks of a shared stack take turns: where the array holds at least two stacks, all of them
-- different, and the counter does not wrap, two calls in a row give two different stacks, those
-- that stand at the counter's place and at the next one, around the end of the array.
co_get_stackmem_turns :
    (s : ShareStack)
    → 2 ≤ s.count
    → s.alloc_idx + 2 < 2 ^ 32
    → ((i j : ℕ) → i < s.count → j < s.count → s.array i ≡ s.array j → i ≡ j)
    → (q q' : Ptr) × (s' s'' : ShareStack) × (co_get_stackmem s ≡ ok (q, s'))
      × (co_get_stackmem s' ≡ ok (q', s''))
      × (q ≢ q')
      × (q' ≡ s.array ((s.alloc_idx + 1) % s.count))
unfolding co_get_stackmem
co_get_stackmem_turns s two room apart =
    let s' : ShareStack = record s { alloc_idx = s.alloc_idx + 1 } in
    let small : (s.alloc_idx + 1) % u32 ≡ s.alloc_idx + 1 = omega arith in
    (
      s.array (s.alloc_idx % s.count),
      s.array ((s.alloc_idx + 1) % s.count),
      s',
      record s' { alloc_idx = s.alloc_idx + 1 + 1 },
      ground (arith, small),
      ground arith,
      λ e. turn (
          apart (s.alloc_idx % s.count) ((s.alloc_idx + 1) % s.count) (omega arith) (omega arith)
            e),
      ground arith,
    )
  where
    turn : s.alloc_idx % s.count ≡ (s.alloc_idx + 1) % s.count → ⊥
    turn e = grind arith
