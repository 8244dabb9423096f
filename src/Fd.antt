-- ===== src/Fd.antt =====
-- The sockets that co_hook_sys_call.cc hooks: the table of their descriptors (lines 33 to 49 and
-- 142 to 168), socket, co_accept and close (171 to 197, 257 to 265), setsockopt and fcntl (501 to
-- 605).
pub mod Flags
pub mod Entries
use jkyi_libco.Base.{
  ℕ, ◌-◌, ◌^◌, Bool, true, false, ◌&&◌, not, Option, none, some, List, [], zero, suc, ◌∷◌, ◌==◌,
  ltb, if◌then◌else◌, bit, land, lor, lnot,
}
use jkyi_libco.Base.Run.{Run, ok, fault, ◌>>=◌}
use jkyi_libco.Timeout.{u32}

-- struct timeval
pub record Timeval : Type 0 where
  pub sec : ℕ
  pub usec : ℕ

abbrev pub no_time : Timeval
no_time = record { sec = 0; usec = 0 }

-- rpchook_t. An address is its bytes.
pub record Rpc : Type 0 where
  pub user_flag : ℕ
  pub dest : List ℕ
  pub domain : ℕ
  pub read_timeout : Timeval
  pub write_timeout : Timeval

-- g_rpchook_socket_fd. An `int` is its word of 32 bits.
abbrev pub Table : Type 0
Table = ℕ → Option Rpc

-- `g_rpchook_socket_fd[fd] = …`, or a field of the entry.
abbrev pub store : Table → ℕ → Option Rpc → Table
store t fd o q = if q == fd then o else t q

abbrev pub entries : ℕ
entries = 102400

-- `fd > -1`
abbrev pub is_fd : ℕ → Bool
is_fd fd = ltb fd (2 ^ 31)

abbrev pub one_second : Timeval
one_second = record { sec = 1; usec = 0 }

abbrev pub zeros : ℕ → List ℕ
zeros zero = []
zeros (suc n) = 0 ∷ zeros n

-- What calloc and alloc_by_fd put in a new entry.
abbrev pub new_rpc : Rpc
new_rpc = record {
  user_flag = 0;
  dest = zeros 16;
  domain = 0;
  read_timeout = one_second;
  write_timeout = one_second;
}

unfoldable pub get_by_fd : ℕ → Table → Option Rpc
get_by_fd fd t = if is_fd fd && ltb fd entries then t fd else none

-- The bound is missing in the source: an index behind the table is a fault. The result says
-- whether there is an entry.
unfoldable pub alloc_by_fd : ℕ → Table → Run (Bool × Table)
alloc_by_fd fd t =
    if is_fd fd
    then if ltb fd entries then ok (true, store t fd (some new_rpc)) else fault
    else ok (false, t)

unfoldable pub free_by_fd : ℕ → Table → Run Table
free_by_fd fd t = if is_fd fd then if ltb fd entries then ok (store t fd none) else fault else ok t

-- The functions of the system that these call: each takes the world and gives its result, the
-- word of an `int`, with the world after it. The argument of fcntl is optional.
pub record System (W : Type 0) : Type 0 where
  pub sys_socket : (domain kind protocol : ℕ) → W → ℕ × W
  pub sys_accept : ℕ → W → ℕ × W
  pub sys_close : ℕ → W → ℕ × W
  pub sys_fcntl : (fd cmd : ℕ) → Option ℕ → W → ℕ × W
  pub sys_setsockopt : (fd level name : ℕ) → Timeval → W → ℕ × W

-- The numbers of the Linux headers.
abbrev pub o_nonblock : ℕ
o_nonblock = 2 ^ 11

abbrev pub f_dupfd : ℕ
f_dupfd = 0

abbrev pub f_getfd : ℕ
f_getfd = 1

abbrev pub f_setfd : ℕ
f_setfd = 2

abbrev pub f_getfl : ℕ
f_getfl = 3

abbrev pub f_setfl : ℕ
f_setfl = 4

abbrev pub f_setown : ℕ
f_setown = 8

abbrev pub f_getown : ℕ
f_getown = 9

abbrev pub sol_socket : ℕ
sol_socket = 1

abbrev pub so_rcvtimeo : ℕ
so_rcvtimeo = 20

abbrev pub so_sndtimeo : ℕ
so_sndtimeo = 21

-- `O_NONBLOCK & lp->user_flag`
abbrev pub is_nonblock : Rpc → Bool
is_nonblock r = bit 11 r.user_flag

-- What fcntl returns for a negative descriptor: its line.
abbrev pub no_descriptor : ℕ
no_descriptor = 524

module _ {W : Type 0} (sys : System W) where
  -- The case of F_SETFL. `hooked` is co_is_enable_sys_hook().
  unfoldable pub set_flags : Bool → (fd param : ℕ) → W → Table → ℕ × W × Table
  set_flags hooked fd param w t = elim (get_by_fd fd t) [
    | none ↦ (let (ret, w) = sys.sys_fcntl fd f_setfl (some param) w in (ret, w, t))
    | some r ↦
        let flag = if hooked then lor 32 param o_nonblock else param in
        let (ret, w) = sys.sys_fcntl fd f_setfl (some flag) w in
        (ret, w, if ret == 0 then store t fd (some (record r { user_flag = param })) else t)
  ]

  -- The case of F_GETFL.
  unfoldable pub get_flags : ℕ → W → Table → ℕ × W × Table
  get_flags fd w t =
      let (ret, w) = sys.sys_fcntl fd f_getfl none w in
      let shown : ℕ = elim (get_by_fd fd t) [
        | none ↦ ret
        | some r ↦ if is_nonblock r then ret else land 32 ret (lnot 32 o_nonblock)
      ] in
      (shown, w, t)

  -- fcntl. `param` is the argument behind the command: an `int` or, for the locks, an address.
  unfoldable pub fcntl : Bool → (fd cmd param : ℕ) → W → Table → ℕ × W × Table
  unfolding set_flags get_flags
  fcntl hooked fd cmd param w t =
      if not (is_fd fd)
      then (no_descriptor, w, t)
      else if cmd == f_setfl
      then set_flags hooked fd param w t
      else if cmd == f_getfl
      then get_flags fd w t
      else if cmd == f_getfd
      then plain none
      else if cmd == f_getown
      then plain none
      else if ltb cmd f_getown
      then plain (some param)
      else (u32 - 1, w, t)
    where
      plain : Option ℕ → ℕ × W × Table
      plain arg = let (ret, w) = sys.sys_fcntl fd cmd arg w in (ret, w, t)

  -- socket. The new entry is used without a test of the pointer.
  unfoldable pub socket : Bool → (domain kind protocol : ℕ) → W → Table → Run (ℕ × W × Table)
  unfolding alloc_by_fd fcntl
  socket hooked domain kind protocol w t =
      let (fd, w) = sys.sys_socket domain kind protocol w in
      if not hooked then ok (fd, w, t) else if not (is_fd fd) then ok (fd, w, t) else (do
        (there, t) ← alloc_by_fd fd t
        let t = store t fd (some (record new_rpc { domain = domain }))
        let (flags, w) = sys.sys_fcntl fd f_getfl (some 0) w
        let (ret, w, t) = fcntl hooked fd f_setfl flags w t
        ok (fd, w, t))

  -- co_accept
  unfoldable pub co_accept : ℕ → W → Table → Run (ℕ × W × Table)
  unfolding alloc_by_fd
  co_accept fd w t =
      let (cli, w) = sys.sys_accept fd w in
      if not (is_fd cli)
      then ok (cli, w, t)
      else (do (there, t) ← alloc_by_fd cli t; ok (cli, w, t))

  -- close
  unfoldable pub close : Bool → ℕ → W → Table → Run (ℕ × W × Table)
  unfolding free_by_fd
  close hooked fd w t =
      if not hooked
      then (let (ret, w) = sys.sys_close fd w in ok (ret, w, t))
      else (do t ← free_by_fd fd t; let (ret, w) = sys.sys_close fd w; ok (ret, w, t))

  -- setsockopt, for the options whose value is a time limit.
  unfoldable pub setsockopt : Bool → (fd level name : ℕ) → Timeval → W → Table → ℕ × W × Table
  setsockopt hooked fd level name val w t =
      let (ret, w') = sys.sys_setsockopt fd level name val w in
      if not hooked then (ret, w', t) else elim (get_by_fd fd t) [
        | none ↦ (ret, w', t)
        | some r ↦
            if level == sol_socket
            then if name == so_rcvtimeo
              then (ret, w', store t fd (some (record r { read_timeout = val })))
              else if name == so_sndtimeo
              then (ret, w', store t fd (some (record r { write_timeout = val })))
              else (ret, w', t)
            else (ret, w', t)
      ]
