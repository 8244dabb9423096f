-- ===== src/Epoll/Freed.antt =====
-- What AllocEpoll and co_eventloop take from the system, and what FreeEpoll gives back.
use jkyi_libco.Base.{
  ℕ, ◌*◌, ◌≡◌, inl, inr, eq-cases, arith, none, some, Option, List, [], ◌∷◌, Ptr, null, Distinct,
  ==_refl, ◌==◌, if◌then◌else◌,
}
use mathlib.Core.Path.{fun_ext}
use jkyi_libco.Base.Run.{ok, fault}
use jkyi_libco.Link.{write}
use jkyi_libco.Timeout.{Wheel}
use jkyi_libco.Epoll.{
  Resources, Places, free_block, alloc_timeout, co_epoll_res_alloc, co_epoll_res_free, alloc_epoll,
  free_timeout, free_epoll,
}

abbrev places_list : Places → List Ptr
places_list p = p.timeout_list ∷ p.active_list ∷ p.items ∷ p.timeout ∷ p.ctx ∷ []

taken_back :
    (wheels : Ptr → Option Wheel) (at : Ptr) (w : Option Wheel)
    → wheels at ≡ none
    → write (write wheels at w) at none ≡ wheels
taken_back wheels at w new = fun_ext λ q. elim (eq-cases q at) [
  | inl e ↦ ground (arith, e, new, ==_refl at)
  | inr ne ↦ ground (arith, ne)
]

-- The addresses are those of five blocks, and with the two for the results of epoll of seven; no
-- other stTimeout_t stands at the address of the new one, or where the missing value of AllocTimeout
-- points to. Then FreeEpoll ends without a fault and leaves what the process had before AllocEpoll,
-- whether co_eventloop has allocated the array of results in between or not, if that value happens
-- to be the address of the new stTimeout_t; and it faults if not.
pub free_epoll-alloc_epoll :
    (p : Places) (fd now at events size : ℕ) (r : Resources)
    → Distinct (null ∷ events ∷ at ∷ places_list p)
    → r.wheels p.timeout ≡ none
    → r.wheels p.returned ≡ none
    → let (ctx, s) = alloc_epoll p fd now r in
      let (res, t) = co_epoll_res_alloc at events size s in
      (free_epoll (some ctx) s ≡ (if p.returned == p.timeout then ok r else fault))
      × (free_epoll (some (record ctx { results = some res })) t
          ≡ (if p.returned == p.timeout then ok r else fault))
unfolding free_epoll alloc_epoll co_epoll_res_alloc free_block free_timeout co_epoll_res_free
    alloc_timeout
free_epoll-alloc_epoll p fd now at events size r d new other =
    elim (eq-cases p.returned p.timeout) [
      | inl e ↦
          let back =
            taken_back r.wheels p.timeout
              (some (record { items = p.items; size = 60 * 1000; start = now; idx = 0 })) new in
          (
            ground (arith, d, e, back, ==_refl p.timeout),
            ground (arith, d, e, back, ==_refl p.timeout),
          )
      | inr ne ↦ (ground (arith, d, ne, other), ground (arith, d, ne, other))
    ]
