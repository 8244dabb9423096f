-- ===== src/Io.antt =====
-- The hooked calls that transfer data, co_hook_sys_call.cc: connect (lines 199 to 256), read,
-- write, sendto, recvfrom, send and recv (267 to 451).
pub mod Write
pub mod Send
pub mod Counts
use jkyi_libco.Base.{
  ℕ, zero, suc, ◌+◌, ◌-◌, ◌*◌, ◌/◌, ◌%◌, ◌^◌, Bool, true, false, ◌&&◌, not, Option, none, some,
  List, ◌++◌, length, drop, ◌==◌, ltb, leb, if◌then◌else◌, bit,
}
use jkyi_libco.Base.Run.{Run, ok, out_of_fuel, ◌>>=◌}
use jkyi_libco.Timeout.{u32, u64}
use jkyi_libco.Fd.{store, Timeval, Rpc, Table, get_by_fd, is_nonblock}

-- What a call returns: a number that is not negative, or -1 with its `errno`.
pub data Ret : Type 0 where
  done : ℕ → Ret
  failed : ℕ → Ret

-- The functions of the system, and `poll`, which lets other coroutines run until the descriptor is
-- ready or the time is over: it gives its result, `revents` and the world. A buffer is its bytes.
pub record Calls (W : Type 0) : Type 0 where
  pub sys_connect : ℕ → List ℕ → W → Ret × W
  pub sys_so_error : ℕ → W → Ret × W
  pub sys_read : (fd nbyte : ℕ) → W → Ret × W
  pub sys_write : ℕ → List ℕ → W → Ret × W
  pub sys_sendto : ℕ → List ℕ → (flags : ℕ) → List ℕ → W → Ret × W
  pub sys_recvfrom : (socket length flags : ℕ) → W → Ret × W
  pub sys_send : ℕ → List ℕ → (length flags : ℕ) → W → Ret × W
  pub sys_recv : (socket length flags : ℕ) → W → Ret × W
  pub poll : (fd events timeout : ℕ) → W → ℕ × ℕ × W

-- The numbers of the Linux headers.
abbrev pub pollin : ℕ
pollin = 1

abbrev pub pollout : ℕ
pollout = 4

abbrev pub pollerr : ℕ
pollerr = 8

abbrev pub pollhup : ℕ
pollhup = 16

abbrev pub eagain : ℕ
eagain = 11

abbrev pub einprogress : ℕ
einprogress = 115

abbrev pub etimedout : ℕ
etimedout = 110

-- `(tv_sec * 1000) + (tv_usec / 1000)` as an `int`.
unfoldable pub timeout_ms : Timeval → ℕ
timeout_ms v = (v.sec * 1000 + v.usec / 1000) % u32

-- `!lp || (O_NONBLOCK & lp->user_flag)`, or no hook: the call goes to the system. Otherwise the
-- entry of the descriptor.
unfoldable pub entry : Bool → ℕ → Table → Option Rpc
entry hooked fd t =
    if not hooked
    then none
    else elim (get_by_fd fd t) [ none ↦ none | some r ↦ if is_nonblock r then none else some r ]

-- A `ssize_t` that is stored in a `size_t`.
abbrev pub as_size : Ret → ℕ
as_size (done n) = n
as_size (failed e) = u64 - 1

-- An `int` that is passed as a `size_t`: the word is extended by its sign.
abbrev pub size_of_int : ℕ → ℕ
size_of_int n = if ltb n (2 ^ 31) then n else n + u64 - u32

module _ {W : Type 0} (c : Calls W) where
  -- read
  unfoldable pub read : Bool → (fd nbyte : ℕ) → Table → W → Ret × W
  unfolding entry timeout_ms
  read hooked fd nbyte t w = elim (entry hooked fd t) [
    | none ↦ c.sys_read fd nbyte w
    | some r ↦
        let (pollret, revents, w) =
          c.poll fd (pollin + pollerr + pollhup) (timeout_ms r.read_timeout) w in
        c.sys_read fd nbyte w
  ]

  -- The loop of write. The result is the last answer of the system, and the bytes written.
  unfoldable pub write_rest : ℕ → ℕ → List ℕ → (timeout wrotelen : ℕ) → Ret → W → Run (Ret × ℕ × W)
  write_rest zero fd buf timeout wrotelen writeret w = out_of_fuel
  write_rest (suc fuel) fd buf timeout wrotelen writeret w = elim (ltb wrotelen (length buf)) [
    | false ↦ ok (writeret, wrotelen, w)
    | true ↦
        let (pollret, revents, w) = c.poll fd (pollout + pollerr + pollhup) timeout w in
        let (writeret, w) = c.sys_write fd (drop wrotelen buf) w in
        elim writeret [
          | failed e ↦ ok (failed e, wrotelen, w)
          | done n ↦ elim (n == 0) [
            | true ↦ ok (done 0, wrotelen, w)
            | false ↦ write_rest fuel fd buf timeout (wrotelen + n) (done n) w
          ]
        ]
  ]

  -- `writeret <= 0 && wrotelen == 0`
  abbrev pub write_result : Ret → ℕ → Ret
  write_result (failed e) wrotelen = if wrotelen == 0 then failed e else done wrotelen
  write_result (done n) wrotelen = if n == 0 && wrotelen == 0 then done n else done wrotelen

  -- write
  unfoldable pub write : ℕ → Bool → ℕ → List ℕ → Table → W → Run (Ret × W)
  unfolding entry timeout_ms write_rest
  write fuel hooked fd buf t w = elim (entry hooked fd t) [
    | none ↦ ok (c.sys_write fd buf w)
    | some r ↦
        let (writeret, w) = c.sys_write fd buf w in
        elim writeret [
          | done n ↦ elim (n == 0) [ true ↦ ok (done 0, w) | false ↦ finish r n (done n) w ]
          | failed e ↦ finish r 0 (failed e) w
        ]
  ]
    where
      finish : Rpc → ℕ → Ret → W → Run (Ret × W)
      finish r wrotelen writeret w = do
        (writeret, wrotelen, w) ←
            write_rest fuel fd buf (timeout_ms r.write_timeout) wrotelen writeret w
        ok (write_result writeret wrotelen, w)

  -- sendto. The events are `POLLOUT | POLLERR || POLLHUP`, which is 1: POLLIN.
  unfoldable pub sendto : Bool → ℕ → List ℕ → (flags : ℕ) → List ℕ → Table → W → Ret × W
  unfolding entry timeout_ms
  sendto hooked socket message flags dest t w =
      let (ret, w') = c.sys_sendto socket message flags dest w in
      elim (entry hooked socket t) [
        | none ↦ (ret, w')
        | some r ↦ elim ret [
          | done n ↦ (done n, w')
          | failed e ↦
              if e == eagain
              then (let (pollret, revents, w) = c.poll socket 1 (timeout_ms r.write_timeout) w' in
                  c.sys_sendto socket message flags dest w)
              else (failed e, w')
        ]
      ]

  -- recvfrom. The events name POLLERR twice, and not POLLHUP.
  unfoldable pub recvfrom : Bool → (socket length flags : ℕ) → Table → W → Ret × W
  unfolding entry timeout_ms
  recvfrom hooked socket length flags t w = elim (entry hooked socket t) [
    | none ↦ c.sys_recvfrom socket length flags w
    | some r ↦
        let (pollret, revents, w) =
          c.poll socket (pollin + pollerr) (timeout_ms r.read_timeout) w in
        c.sys_recvfrom socket length flags w
  ]

  -- recv
  unfoldable pub recv : Bool → (socket length flags : ℕ) → Table → W → Ret × W
  unfolding entry timeout_ms
  recv hooked socket length flags t w = elim (entry hooked socket t) [
    | none ↦ c.sys_recv socket length flags w
    | some r ↦
        let (pollret, revents, w) =
          c.poll socket (pollin + pollhup + pollerr) (timeout_ms r.read_timeout) w in
        c.sys_recv socket length flags w
  ]

  -- The loop of send: the whole buffer is sent again in each round. `writeret` is a `size_t`, so
  -- the test for an error holds of 0 only. The result is the last `writeret` and `wrotelen`.
  unfoldable pub send_rest :
      ℕ → ℕ → List ℕ → (length flags timeout wrotelen writeret : ℕ) → W → Run (ℕ × ℕ × W)
  send_rest zero socket buf length flags timeout wrotelen writeret w = out_of_fuel
  send_rest (suc fuel) socket buf length flags timeout wrotelen writeret w =
      elim (ltb wrotelen length) [
        | false ↦ ok (writeret, wrotelen, w)
        | true ↦
            let (pollret, revents, w) = c.poll socket (pollout + pollerr + pollhup) timeout w in
            let (ret, w) = c.sys_send socket buf length flags w in
            elim (as_size ret == 0) [
              | true ↦ ok (0, wrotelen, w)
              | false ↦
                  send_rest fuel socket buf length flags timeout ((wrotelen + as_size ret) % u64)
                    (as_size ret) w
            ]
      ]

  -- send. `length` is the word of an `int`; the result is the word of the `ssize_t`.
  unfoldable pub send : ℕ → Bool → ℕ → List ℕ → (length flags : ℕ) → Table → W → Run (ℕ × W)
  unfolding entry timeout_ms send_rest
  send fuel hooked socket buf length flags t w =
      let (ret, w) = c.sys_send socket buf (size_of_int length) flags w in
      elim (entry hooked socket t) [
        | none ↦ ok (as_size ret, w)
        | some r ↦ elim (as_size ret == 0) [
          | true ↦ ok (0, w)
          | false ↦ (do
            (writeret, wrotelen, w) ←
                send_rest fuel socket buf (size_of_int length) flags (timeout_ms r.write_timeout)
                  (as_size ret) (as_size ret) w
            ok (if writeret == 0 && wrotelen == 0 then writeret else wrotelen, w))
        ]
      ]

  -- The loop of connect, with the rounds left and `pf.revents`: up to three times 25 seconds.
  unfoldable pub connect_wait : (rounds fd revents : ℕ) → W → ℕ × W
  connect_wait zero fd revents w = (revents, w)
  connect_wait (suc rounds) fd revents w =
      let (pollret, revents, w) = c.poll fd (pollout + pollerr + pollhup) 25000 w in
      elim (pollret == 1) [ true ↦ (revents, w) | false ↦ connect_wait rounds fd revents w ]

  -- connect. `dest` of the entry is a struct of 16 bytes, and a shorter address covers its front. The result is that of the system for a
  -- connection that is not in progress.
  unfoldable pub connect : Bool → ℕ → List ℕ → Table → W → Ret × W × Table
  unfolding connect_wait
  connect hooked fd address t w =
      let (ret, w) = c.sys_connect fd address w in
      if not hooked then (ret, w, t) else elim (get_by_fd fd t) [
        | none ↦ (ret, w, t)
        | some r ↦
            let t : Table =
              if leb (length address) 16
              then store t fd (some (record r { dest = address ++ drop (length address) r.dest }))
              else t in
            if is_nonblock r then (ret, w, t) else elim ret [
              | done n ↦ (done n, w, t)
              | failed e ↦
                  if not (e == einprogress)
                  then (failed e, w, t)
                  else (let (revents, w) = connect_wait 3 fd 0 w in
                      if not (bit 2 revents)
                      then (failed etimedout, w, t)
                      else (let (so, w) = c.sys_so_error fd w in
                          elim so [
                            | failed e ↦ (failed e, w, t)
                            | done err ↦ if err == 0 then (done 0, w, t) else (failed err, w, t)
                          ]))
            ]
      ]
