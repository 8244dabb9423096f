-- ===== src/Dns.antt =====
-- The lookup of hosts, co_hook_sys_call.cc: gethostbyname, co_gethostbyname_r, gethostbyname_r
-- (lines 733 to 776) and co_gethostbyname with its buffer (lines 795 to 828).
pub mod Buffer
pub mod Locked
use jkyi_libco.Base.{
  ℕ, zero, suc, ◌+◌, ◌-◌, ◌*◌, ◌%◌, ◌^◌, Bool, true, false, ◌&&◌, not, Option, none, some, List,
  Ptr, null, ◌==◌, ltb, if◌then◌else◌,
}
use jkyi_libco.Base.Run.{Run, ok, fault, out_of_fuel, ◌>>=◌}
use jkyi_libco.Timeout.{u64, u32}
use jkyi_libco.Cond.{Sync}
use jkyi_libco.Mutex.{Mutex, make_mutex, co_lock, co_unlock}

-- The values of Linux. NETDB_INTERNAL is -1, as a word of 32 bits.
abbrev pub erange : ℕ
erange = 34

abbrev pub netdb_internal : ℕ
netdb_internal = u32 - 1

-- What gethostbyname_r leaves: its value, whether `*result` is the caller's structure, and
-- `*h_errnop`.
pub record Reply : Type 0 where
  pub ret : ℕ
  pub found : Bool
  pub host_errno : ℕ

-- hostbuf_wrap of a coroutine. `block` is the number of bytes behind `buffer`, `none` for NULL.
pub record HostBuf : Type 0 where
  pub block : Option ℕ
  pub size : ℕ
  pub host_errno : ℕ

-- The buffer at the start: a large one is freed, and where there is none one of 1024 bytes is
-- made.
unfoldable pub first_buffer : HostBuf → HostBuf
first_buffer b =
    let b : HostBuf = elim b.block [
      | none ↦ b
      | some n ↦ if ltb 1024 b.size then record b { block = none } else b
    ] in
    elim b.block [ none ↦ record b { block = some 1024; size = 1024 } | some n ↦ b ]

-- co_gethostbyname_r, up to where the lock is taken or the coroutine yields; `cond` is the
-- address for the queue of a new lock, and `true` says that it waits.
unfoldable pub lock_dns : (cond psi self now : ℕ) → Option Mutex → Sync → Run (Bool × Mutex × Sync)
unfolding make_mutex co_lock
lock_dns cond psi self now lock y =
    co_lock psi self now (elim lock [ none ↦ make_mutex cond | some m ↦ m ]) y

module _ {W : Type 0} where
  -- The loop. `ret = f(...) == ERANGE && ...` gives `ret` the value of the test. The lookup, which
  -- gets the size of the buffer, is gethostbyname_r; its lock is in lock_dns and finish_dns.
  unfoldable pub resolve :
      ℕ → (lookup : ℕ → W → Reply × W) → HostBuf → W → Run (ℕ × Bool × HostBuf × W)
  resolve zero lookup b w = out_of_fuel
  resolve (suc fuel) lookup b w =
      let (reply, w) = lookup b.size w in
      let b : HostBuf = record b { host_errno = reply.host_errno } in
      let ret = (if (reply.ret == erange) && (reply.host_errno == netdb_internal) then 1 else 0) in
      elim (ret == 0) [
        | true ↦ ok (ret, reply.found, b, w)
        | false ↦
            let size = b.size * 2 % u64 in
            resolve fuel lookup (record b { block = some size; size = size }) w
      ]

  -- co_gethostbyname: whether a host is returned. `none` is a name that is NULL.
  unfoldable pub co_gethostbyname :
      ℕ
      → (lookup : List ℕ → ℕ → W → Reply × W) → Option (List ℕ)
      → HostBuf
      → W
      → Run (Bool × HostBuf × W)
  unfolding resolve first_buffer
  co_gethostbyname fuel lookup none b w = ok (false, b, w)
  co_gethostbyname fuel lookup (some name) b w = do
    (ret, found, b, w) ← resolve fuel (lookup name) (first_buffer b) w
    ok (ret == 0 && found, b, w)

  -- gethostbyname: `system` is the system's function.
  unfoldable pub gethostbyname :
      Bool
      → ℕ
      → (system : Option (List ℕ) → W → Bool × W) → (lookup : List ℕ → ℕ → W → Reply × W)
      → Option (List ℕ)
      → HostBuf
      → W
      → Run (Bool × HostBuf × W)
  unfolding co_gethostbyname
  gethostbyname hooked fuel system lookup name b w =
      if not hooked
      then (let (found, w) = system name w in ok (found, b, w))
      else co_gethostbyname fuel lookup name b w

  -- co_gethostbyname_r with the lock: the system's function, and the destructor of clsSmartLock.
  unfoldable pub finish_dns :
      (active : Ptr) → (lookup : W → Reply × W) → Mutex → Sync → W → Run (Reply × Mutex × Sync × W)
  unfolding co_unlock
  finish_dns active lookup m y w = do
    let (reply, w) = lookup w
    (m, y) ← co_unlock active m y
    ok (reply, m, y, w)

  -- gethostbyname_r, up to where the coroutine yields (`none`) or the call returns.
  unfoldable pub gethostbyname_r :
      (hooked : Bool) (cond psi self now : ℕ) (active : Ptr) (lookup : W → Reply × W)
      → Option Mutex
      → Sync
      → W
      → Run (Option Reply × Option Mutex × Sync × W)
  unfolding lock_dns finish_dns
  gethostbyname_r hooked cond psi self now active lookup lock y w =
      if not hooked then (let (reply, w) = lookup w in ok (some reply, lock, y, w)) else (do
        (waits, m, y) ← lock_dns cond psi self now lock y
        if waits then ok (none, some m, y, w) else (do
          (reply, m, y, w) ← finish_dns active lookup m y w
          ok (some reply, some m, y, w)))
