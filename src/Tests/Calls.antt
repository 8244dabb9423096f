-- ===== src/Tests/Calls.antt =====
-- Systems that the tests of Io, Fd and Loop run on.
use jkyi_libco.Base.{ℕ, suc, none, some, List, ◌++◌, length, take, ◌==◌, if◌then◌else◌}
use Prim.Native.Nat.{min}
use jkyi_libco.Fd.{Table, System, new_rpc}
use jkyi_libco.Io.{done, failed, Calls}

-- A socket that takes two bytes at most in each call; the world is what it has taken.
abbrev pub slow : Calls (List ℕ)
slow = record {
  sys_connect = λ fd a w. (failed 115, w);
  sys_so_error = λ fd w. (done 0, w);
  sys_read = λ fd n w. (done 0, w);
  sys_write = λ fd b w. (done (min 2 (length b)), w ++ take (min 2 (length b)) b);
  sys_sendto = λ fd b flags d w. (done (length b), w ++ b);
  sys_recvfrom = λ fd n flags w. (done 0, w);
  sys_send = λ fd b n flags w. (done (min 2 n), w ++ take (min 2 n) b);
  sys_recv = λ fd n flags w. (done 0, w);
  poll = λ fd events timeout w. (1, events, w);
}

-- A socket whose calls fail, and a world that counts them.
abbrev pub full : Calls ℕ
full = record {
  sys_connect = λ fd a w. (failed 115, w);
  sys_so_error = λ fd w. (done 111, w);
  sys_read = λ fd n w. (failed 11, suc w);
  sys_write = λ fd b w. (failed 11, w);
  sys_sendto = λ fd b flags d w. (failed 11, w);
  sys_recvfrom = λ fd n flags w. (failed 11, suc w);
  sys_send = λ fd b n flags w. (failed 11, w);
  sys_recv = λ fd n flags w. (failed 11, suc w);
  poll = λ fd events timeout w. (0, 0, w);
}

-- The descriptor 3 is known and blocking.
abbrev pub table : Table
table fd = if fd == 3 then some new_rpc else none

-- A kernel that keeps the flags of each descriptor.
abbrev pub kernel : System (ℕ → ℕ)
kernel = record {
  sys_socket = λ domain kind protocol w. (3, w);
  sys_accept = λ fd w. (4, w);
  sys_close = λ fd w. (0, w);
  sys_fcntl =
      λ fd cmd arg w. elim arg [ none ↦ (w fd, w) | some v ↦ (0, λ k. if k == fd then v else w k) ];
  sys_setsockopt = λ fd level name val w. (0, w);
}
