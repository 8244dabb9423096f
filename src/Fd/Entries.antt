-- ===== src/Fd/Entries.antt =====
-- The table of descriptors from co_accept to close.
use jkyi_libco.Base.{ℕ, ◌^◌, ◌≤◌, ◌<◌, ◌≡◌, ◌≢◌, ◌⊎◌, true, none, some, inl, inr, arith, ==_refl}
use native.Mathlib.Decide.{dec_lt}
use jkyi_libco.Base.Run.{ok, fault}
use jkyi_libco.Fd.{
  Table, System, new_rpc, get_by_fd, alloc_by_fd, free_by_fd, co_accept, close, store,
}

-- A connection that co_accept takes: if the descriptor is negative, it is returned and the table
-- stays. If it is below 102400, its entry is new, with limits of one second; after close no entry
-- is left, and no other descriptor's entry has changed. If it is 102400 or more, co_accept and close
-- both write out of the array, where get_by_fd finds nothing.
pub close-co_accept :
    {W : Type 0} (sys : System W) (fd cli : ℕ) (w w₁ : W) (t : Table)
    → sys.sys_accept fd w ≡ (cli, w₁)
    → ((2 ^ 31 ≤ cli) × (co_accept sys fd w t ≡ ok (cli, w₁, t)))
      ⊎ (((cli < 102400)
            × (u v : Table) × (co_accept sys fd w t ≡ ok (cli, w₁, u))
            × (get_by_fd cli u ≡ some new_rpc)
            × (close sys true cli w₁ u ≡ ok ((sys.sys_close cli w₁).0, (sys.sys_close cli w₁).1, v))
            × (get_by_fd cli v ≡ none)
            × ((other : ℕ) → other ≢ cli → get_by_fd other v ≡ get_by_fd other t))
          ⊎ ((102400 ≤ cli)
              × (cli < 2 ^ 31)
              × (co_accept sys fd w t ≡ fault)
              × (close sys true cli w t ≡ fault)
              × (get_by_fd cli t ≡ none)))
unfolding co_accept close get_by_fd alloc_by_fd free_by_fd
close-co_accept sys fd cli w w₁ t h = elim (dec_lt cli 102400) [
  | yes low ↦ inr (
      inl (
        low,
        store t cli (some new_rpc),
        store (store t cli (some new_rpc)) cli none,
        ground (arith, h),
        ground (arith, ==_refl cli),
        ground arith,
        ground (arith, ==_refl cli),
        λ other ne. ground arith,
      ))
  | no high ↦ elim (dec_lt cli (2 ^ 31)) [
    | yes int ↦ inr (inr (omega arith, int, ground (arith, h), ground arith, ground arith))
    | no negative ↦ inl (omega arith, ground (arith, h))
  ]
]
