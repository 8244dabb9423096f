-- ===== src/Epoll.antt =====
-- The scheduler's own objects: AllocTimeout, FreeTimeout, AllocEpoll and FreeEpoll of co_routine.cc
-- (lines 311 to 322 and 755 to 777), and the array for the results of epoll (co_epoll.cc, lines 19 to 35).
pub mod Freed
use jkyi_libco.Base.{
  ℕ, ◌*◌, Bool, true, false, Option, none, some, List, [], ◌∷◌, Ptr, null, ◌==◌, if◌then◌else◌, has,
  erase, not_null,
}
use jkyi_libco.Base.Run.{Run, ok, fault, ◌>>=◌}
use jkyi_libco.Link.{write}
use jkyi_libco.Timeout.{Wheel}

-- What the process has from malloc and calloc, the stTimeout_t objects among it by address, and its
-- open descriptors.
pub record Resources : Type 0 where
  pub blocks : List Ptr
  pub wheels : Ptr → Option Wheel
  pub fds : List ℕ

abbrev pub take_block : Ptr → Resources → Resources
take_block p r = record r { blocks = p ∷ r.blocks }

-- free. Anything but NULL and a block of the process is a fault.
unfoldable pub free_block : Ptr → Resources → Run Resources
free_block p r =
    if p == null
    then ok r
    else if has p r.blocks
    then ok (record r { blocks = erase p r.blocks })
    else fault

-- co_epoll_res, at its address.
pub record EpollRes : Type 0 where
  pub at : Ptr
  pub size : ℕ
  pub events : Ptr

-- stCoEpoll_t at its address. `timeout` is the pointer pTimeout.
pub record CoEpoll : Type 0 where
  pub at : Ptr
  pub fd : ℕ
  pub timeout : Ptr
  pub timeout_list : Ptr
  pub active_list : Ptr
  pub results : Option EpollRes

-- What malloc and calloc give AllocEpoll, in their order. `returned` is what stands in the place of
-- the value of AllocTimeout, which has no return statement.
pub record Places : Type 0 where
  pub ctx : Ptr
  pub timeout : Ptr
  pub items : Ptr
  pub returned : Ptr
  pub active_list : Ptr
  pub timeout_list : Ptr

-- co_epoll_res_alloc
unfoldable pub co_epoll_res_alloc : (at events size : ℕ) → Resources → EpollRes × Resources
co_epoll_res_alloc at events size r =
    (record { at = at; size = size; events = events }, take_block events (take_block at r))

-- co_epoll_res_free
unfoldable pub co_epoll_res_free : Option EpollRes → Resources → Run Resources
unfolding free_block
co_epoll_res_free none r = ok r
co_epoll_res_free (some res) r = do
  r ← if not_null res.events then free_block res.events r else ok r
  free_block res.at r

-- AllocTimeout, with the addresses that calloc gives and the current time. It makes the object and
-- returns no value.
unfoldable pub alloc_timeout : (at items size now : ℕ) → Resources → Resources
alloc_timeout at items size now r = record r {
  blocks = items ∷ at ∷ r.blocks;
  wheels = write r.wheels at (some (record { items = items; size = size; start = now; idx = 0 }));
}

-- AllocEpoll. `fd` is what epoll_create returns, and the wheel has 60000 slots.
unfoldable pub alloc_epoll : Places → (fd now : ℕ) → Resources → CoEpoll × Resources
unfolding alloc_timeout
alloc_epoll p fd now r =
    let r : Resources = record r { blocks = p.ctx ∷ r.blocks; fds = fd ∷ r.fds } in
    let r = alloc_timeout p.timeout p.items (60 * 1000) now r in
    (
      record {
        at = p.ctx;
        fd = fd;
        timeout = p.returned;
        timeout_list = p.timeout_list;
        active_list = p.active_list;
        results = none;
      },
      take_block p.timeout_list (take_block p.active_list r),
    )

-- FreeTimeout. A pointer to anything but an stTimeout_t is a fault.
unfoldable pub free_timeout : Ptr → Resources → Run Resources
unfolding free_block
free_timeout p r = do
  w ← elim (r.wheels p) as (λ x. Run Wheel) [ none ↦ fault | some w ↦ ok w ]
  r ← free_block w.items r
  free_block p (record r { wheels = write r.wheels p none })

-- FreeEpoll
unfoldable pub free_epoll : Option CoEpoll → Resources → Run Resources
unfolding free_block free_timeout co_epoll_res_free
free_epoll none r = ok r
free_epoll (some ctx) r = do
  r ← free_block ctx.timeout_list r
  r ← free_block ctx.active_list r
  r ← free_timeout ctx.timeout r
  r ← co_epoll_res_free ctx.results r
  free_block ctx.at (record r { fds = erase ctx.fd r.fds })
