-- ===== src/Routine/Entered.antt =====
-- The threads between the two halves of co_swap, and what each half makes of them
-- (co_routine.cc, lines 541 to 585).
use jkyi_libco.Base.{
  ℕ, ◌+◌, ◌-◌, ◌≤◌, ◌≡◌, ◌≢◌, ◌⊎◌, refl, inl, inr, true, Bool-cases, none, some, Option, List,
  arith, Ptr, null, length, ◌<◌, ◌^◌, ==_refl, ◌==◌, if◌then◌else◌,
}
use jkyi_libco.Base.Run.{ok}
use jkyi_libco.Routine.{
  Co, StackMem, Thread, set_co, set_stack, load_bytes, store_bytes, swap_out, swap_in, load_pointer,
  stack_length, save_stack_buffer,
}

-- The coroutine at `p` has the bytes `bs` on its stack, from its stack pointer to the stack's end:
-- in memory if it occupies the stack, and in its buffer if it does not.
pub record Holds (t : Thread) (p : Ptr) (bs : List ℕ) : Type 0 where
  pub co : Co
  pub stack : StackMem
  pub at : t.co p ≡ some co
  pub on : t.stack co.stack ≡ some stack
  pub content :
      ((stack.occupy ≡ p) × (co.sp ≤ stack.bp) × (load_bytes t.mem co.sp (stack.bp - co.sp) ≡ bs))
      ⊎ ((stack.occupy ≢ p)
          × (co.save_buffer ≡ some bs)
          × (co.save_size ≡ length bs)
          × (co.sp + length bs ≡ stack.bp))

-- The states after the switch, for a coroutine `next` on the shared stack `q`.
abbrev pub entered : Ptr → Co → StackMem → Thread → Thread
entered next n s t = record (set_stack n.stack (record s { occupy = next }) t) {
  env = record t.env { pending = next; occupy = s.occupy };
}

abbrev pub saved : Thread → Ptr → Co → StackMem → Thread
saved t o c s =
    set_co o
      (record c {
        save_size = s.bp - c.sp;
        save_buffer = some (load_bytes t.mem c.sp (s.bp - c.sp));
      })
      t

-- The thread at the moment of the switch: the stack pointer has been noted.
abbrev pub noted_at : Ptr → Ptr → Co → Thread → Thread
noted_at curr sp c t = set_co curr (record c { sp = sp }) t

-- What is in memory after the switch.
abbrev pub back : Co → Thread → Thread
back n u = record u {
  mem = elim n.save_buffer as (λ x. ℕ → ℕ) [
    | none ↦ u.mem
    | some b ↦ if n.save_size == 0 then u.mem else store_bytes u.mem n.sp b
  ];
}

module _ (curr next sp : Ptr) (t : Thread) (c n : Co) (s : StackMem) (at : t.co curr ≡ some c) where
  abbrev noted : Thread
  noted = noted_at curr sp c t

  module _ (there : noted.co next ≡ some n) (shared : n.is_share ≡ true)
      (on : t.stack n.stack ≡ some s) where
    pub swap_out-same :
        s.occupy ≢ null → s.occupy ≡ next → swap_out curr next sp t ≡ ok (entered next n s noted)
    unfolding swap_out
    swap_out-same some_one e = ground (arith, at, there, shared, on)

    pub swap_out-other :
        (oc : Co)
        → s.occupy ≢ null
        → s.occupy ≢ next
        → noted.co s.occupy ≡ some oc
        → oc.stack ≡ n.stack
        → oc.sp ≤ s.bp
        → s.bp - oc.sp < 2 ^ 31
        → swap_out curr next sp t ≡ ok (saved (entered next n s noted) s.occupy oc s)
    unfolding swap_out save_stack_buffer
    swap_out-other oc some_one ne e same low short =
        let len : stack_length s.bp oc.sp ≡ s.bp - oc.sp = omega arith in
        ground (arith, at, there, shared, on, same, len)

    pub swap_in-same :
        (local home : Ptr)
        → load_pointer t.mem local ≡ home
        → s.occupy ≡ next
        → swap_in local home (entered next n s noted) ≡ ok (entered next n s noted)
    unfolding swap_in
    swap_in-same local home here e = ground (arith, here, ==_refl home)

    pub swap_in-other :
        (local home : Ptr) (oc : Co)
        → load_pointer t.mem local ≡ home
        → s.occupy ≢ null
        → next ≢ null
        → s.occupy ≢ next
        → swap_in local home (saved (entered next n s noted) s.occupy oc s)
          ≡ ok (back n (saved (entered next n s noted) s.occupy oc s))
    unfolding swap_in
    swap_in-other local home oc here some_one nn ne = go n.save_buffer refl
      where
        go :
            (b : Option (List ℕ))
            → n.save_buffer ≡ b
            → swap_in local home (saved (entered next n s noted) s.occupy oc s)
              ≡ ok (back n (saved (entered next n s noted) s.occupy oc s))
        go none e = ground (arith, there, e, here, ==_refl home)
        go (some b) e = elim (Bool-cases (n.save_size == 0)) [
          | inl empty ↦ ground (arith, there, e, empty, here, ==_refl home)
          | inr full ↦ ground (arith, there, e, full, here, ==_refl home)
        ]
