-- ===== src/Tests/Hosts.antt =====
-- Lookups of hosts that want 3000 bytes, lookups of two coroutines, and a scheduler that is freed.
use jkyi_libco.Base.{
  ℕ, ◌≤◌, ◌<◌, ◌+◌, ◌*◌, ◌≡◌, ◌⊎◌, inl, inr, refl, arith, true, false, Bool, none, some, List, [],
  ◌∷◌, ltb, if◌then◌else◌,
}
use native.Mathlib.Decide.{dec_lt}
use jkyi_libco.Base.Run.{ok}
use jkyi_libco.Link.{write}
use jkyi_libco.Link.View.{Represents}
use jkyi_libco.Cond.{Sync}
use jkyi_libco.Cond.Signal.{woken}
use jkyi_libco.Mutex.{Mutex}
use jkyi_libco.Dns.{
  Reply, HostBuf, erange, netdb_internal, co_gethostbyname, gethostbyname, lock_dns, finish_dns,
}
use jkyi_libco.Dns.Buffer.{IsBuf, Needs, co_gethostbyname_ends}
use jkyi_libco.Dns.Locked.{finish_dns-lock_dns}
use jkyi_libco.Epoll.{Resources, Places, alloc_epoll, free_epoll, co_epoll_res_alloc}
use jkyi_libco.Epoll.Freed.{free_epoll-alloc_epoll}
use jkyi_libco.Tests.States.{store, lists, store-Represents, wheel}

-- The world counts the lookups.
abbrev resolver : List ℕ → ℕ → ℕ → Reply × ℕ
resolver name n w = (
  if ltb n 3000
      then record { ret = erange; found = false; host_errno = netdb_internal }
      else record { ret = 0; found = true; host_errno = 0 },
  w + 1,
)

resolver-Needs : Needs (resolver (7 ∷ [])) 3000
resolver-Needs n w = elim (dec_lt n 3000) [
  | yes small ↦ inl (small, ground arith, ground arith)
  | no large ↦ inr (omega arith, ground arith)
]

abbrev no_buffer : HostBuf
no_buffer = record { block = none; size = 0; host_errno = 0 }

buffer_test :
    gethostbyname true 3 (λ n w. (false, w)) resolver (some (7 ∷ [])) no_buffer 0
    ≡ ok (true, record { block = some 4096; size = 4096; host_errno = 0 }, 3)
unfolding gethostbyname
buffer_test = refl

hosts_example :
    (found : Bool) × (z : HostBuf) × (v v' : ℕ) × (co_gethostbyname 3001 resolver
        (some (7 ∷ []))
        no_buffer
        0
      ≡ ok (found, z, v'))
    × (resolver (7 ∷ []) z.size v ≡ (
      record { ret = (resolver (7 ∷ []) z.size v).0.ret; found = found; host_errno = z.host_errno },
      v',
    ))
    × IsBuf z
    × (3000 ≤ z.size)
    × ((z.size ≡ 1024) ⊎ (z.size < 2 * 3000))
hosts_example =
    co_gethostbyname_ends resolver (7 ∷ []) 3000 no_buffer 0 resolver-Needs (omega arith) (inl refl)

abbrev sync : Sync
sync = record { items = store; timers = store; wheel = wheel; expire = λ p. 0; arg = λ p. 0 }

turns_example :
    (m m' : Mutex) × (z u : Sync) × (lock_dns 300 8 1 0 none sync ≡ ok (false, m, sync))
    × (lock_dns 400 9 2 0 (some m) sync ≡ ok (true, m', z))
    × Represents z.items (write lists 300 (9 ∷ []))
    × (finish_dns 500 (resolver [] 4000) m' z 0
        ≡ ok (record { ret = 0; found = true; host_errno = 0 }, m, u, 1))
    × Represents u.items (write (write lists 300 (9 ∷ [])) 300 [])
    × Represents u.timers (woken 500 9 lists)
turns_example =
    finish_dns-lock_dns (resolver [] 4000) 500 300 400 8 1 0 9 2 0 sync lists lists 0
      store-Represents store-Represents refl (omega arith) (omega arith) (omega arith) refl refl

abbrev places : Places
places = record { ctx = 1; timeout = 2; items = 3; returned = 2; active_list = 4; timeout_list = 5 }

abbrev used : Resources
used = record { blocks = 9 ∷ []; wheels = λ p. none; fds = 3 ∷ [] }

scheduler_example :
    let (ctx, s) = alloc_epoll places 8 0 used in
    let (res, t) = co_epoll_res_alloc 6 7 10240 s in
    (free_epoll (some ctx) s ≡ ok used)
    × (free_epoll (some (record ctx { results = some res })) t ≡ ok used)
scheduler_example =
    free_epoll-alloc_epoll places 8 0 6 7 10240 used
      (refl, (refl, (refl, (refl, (refl, (refl, (refl, (refl, tt)))))))) refl refl
