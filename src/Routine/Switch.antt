-- ===== src/Routine/Switch.antt =====
-- The switch between coroutines keeps the stack content of every coroutine, in memory or saved.
use jkyi_libco.Base.{
  ℕ, ◌-◌, ◌<◌, ◌^◌, Bool-cases, ◌==◌, if◌then◌else◌, ◌≤◌, ◌≡◌, ◌≢◌, ◌⊎◌, refl, inl, inr, true, none,
  some, List, arith, Ptr, null, eq-cases,
}
use jkyi_libco.Base.Run.{ok, fault}
use jkyi_libco.Link.{write}
use jkyi_libco.Routine.{
  Co, StackMem, Thread, set_co, set_stack, swap_out, swap_in, co_free, leave_stack, load_pointer,
}
use jkyi_libco.Routine.Entered.{
  Holds, entered, saved, noted_at, back, swap_out-same, swap_out-other, swap_in-same, swap_in-other,
}
use jkyi_libco.Routine.Kept.{kept-same, kept}

module _ (curr next sp : Ptr) (t : Thread) (c n : Co) (s : StackMem) (at : t.co curr ≡ some c) where
  -- The thread at the moment of the switch: the stack pointer has been noted.
  abbrev pub noted : Thread
  noted = noted_at curr sp c t

  module _ (there : noted.co next ≡ some n) (shared : n.is_share ≡ true)
      (on : t.stack n.stack ≡ some s) where
    -- Switch to a coroutine on a shared stack that some coroutine occupies, itself or another one
    -- that runs on it and has less than 2 ^ 31 bytes there. The local `env` of co_swap on the stack
    -- that is switched to, which is read before the saved bytes of that stack are copied back, still
    -- holds the address of the environment. Then neither half of co_swap faults, and every coroutine
    -- that holds bytes on its stack at the moment of the switch, in memory or saved, holds the same
    -- bytes afterwards: the one that is left, the one that occupied the stack, the one that is
    -- switched to, which occupies it now, and all others, provided that a coroutine of another stack
    -- is not in the memory of this one.
    pub switch-keeps :
        (local home : Ptr) (oc : Co) (ns bs : List ℕ) (p : Ptr)
        → load_pointer t.mem local ≡ home
        → next ≢ null
        → s.occupy ≢ null
        → noted.co s.occupy ≡ some oc
        → oc.stack ≡ n.stack
        → oc.sp ≤ s.bp
        → s.bp - oc.sp < 2 ^ 31
        → Holds noted next ns
        → (h : Holds noted p bs) → (h.co.stack ≢ n.stack → (h.stack.bp ≤ n.sp) ⊎ (s.bp ≤ h.co.sp))
        → (u v : Thread) × (swap_out curr next sp t ≡ ok u)
          × (swap_in local home u ≡ ok v)
          × Holds v p bs
          × (v.stack n.stack ≡ some (record s { occupy = next }))
    switch-keeps local home oc ns bs p here nn some_one o_at o_on low short hn h apart =
        elim (eq-cases s.occupy next) [
          | inl same ↦ (
            entered next n s noted,
            entered next n s noted,
            swap_out-same curr next sp t c n s at there shared on some_one same,
            swap_in-same curr next sp t c n s at there shared on local home here same,
            kept-same curr next sp t c n s at there shared on p bs same h,
            ground arith,
          )
          | inr ne ↦
              let mid : Thread = saved (entered next n s noted) s.occupy oc s in
              (
                mid,
                back n mid,
                swap_out-other curr next sp t c n s at there shared on oc some_one ne o_at o_on low
                    short,
                swap_in-other curr next sp t c n s at there shared on local home oc here some_one nn
                    ne,
                kept curr next sp t c n s at there shared on oc some_one ne o_at o_on p bs ns hn h
                    apart,
                ground arith,
              )
        ]

-- Where the coroutine that occupied a shared stack has been freed, nobody occupies it, and a switch
-- to another coroutine of that stack does not bring its saved bytes back: the memory stays as the
-- freed coroutine has left it, and the second half of co_swap changes nothing, or faults where what
-- the freed coroutine has left lies over the local `env` that it reads.
pub swap_in-co_free :
    (local home freed curr next sp : Ptr) (t : Thread) (f c n : Co) (s : StackMem)
    → t.co freed ≡ some f
    → f.is_share ≡ true
    → t.stack f.stack ≡ some s
    → s.occupy ≡ freed
    → t.co curr ≡ some c
    → t.co next ≡ some n
    → n.is_share ≡ true
    → n.stack ≡ f.stack
    → curr ≢ freed
    → next ≢ freed
    → curr ≢ next
    → (u v : Thread) × (co_free freed t ≡ ok u)
      × (swap_out curr next sp u ≡ ok v)
      × (v.mem ≡ t.mem)
      × (swap_in local home v ≡ (if load_pointer t.mem local == home then ok v else fault))
unfolding co_free leave_stack swap_out swap_in
swap_in-co_free local home freed curr next sp t f c n s at share on mine cat nat nshare same cf nf
      cn =
    let u : Thread = record (set_stack f.stack (record s { occupy = null }) t) {
      co = write t.co freed none;
    } in
    let v = entered next n (record s { occupy = null }) (set_co curr (record c { sp = sp }) u) in
    (
      u,
      v,
      ground (arith, at, share, on, mine),
      ground (arith, cat, nat, nshare, same),
      refl,
      elim (Bool-cases (load_pointer t.mem local == home)) [
        | inl here ↦ ground (arith, here)
        | inr lost ↦ ground (arith, lost)
      ],
    )
