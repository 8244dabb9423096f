-- ===== src/Io/Send.antt =====
-- The hooked send: where the system takes the buffer in two parts, the second starts at the front
-- again; an error of the first call is returned at once.
use jkyi_libco.Base.{
  ℕ, suc, ◌+◌, ◌-◌, ◌^◌, ◌≤◌, ◌<◌, ◌≡◌, true, some, List, ◌++◌, append_assoc, arith, take,
}
use jkyi_libco.Base.Run.{ok}
use jkyi_libco.Timeout.{u64}
use jkyi_libco.Fd.{Table, Rpc}
use jkyi_libco.Io.{
  done, failed, Calls, send, send_rest, entry, timeout_ms, pollout, pollerr, pollhup,
}

module _ {W : Type 0} (c : Calls W) (socket flags size : ℕ) (sent : W → List ℕ)
    (accepts : (b : List ℕ) (w : W) (n : ℕ)
      → (c.sys_send socket b size flags w).0 ≡ done n
      → (n ≤ size) × (sent (c.sys_send socket b size flags w).1 ≡ sent w ++ take n b))
    (idle : (events timeout : ℕ) (w : W) → sent (c.poll socket events timeout w).2 ≡ sent w)
    (buf : List ℕ) (t : Table) (r : Rpc) (known : entry true socket t ≡ some r)
    (small : size < 2 ^ 31) where
  -- The world after the wait that follows a first part.
  abbrev waited : W → W
  waited w =
      (c.poll socket (pollout + pollerr + pollhup) (timeout_ms r.write_timeout)
        (c.sys_send socket buf size flags w).1).2

  -- The system reports what it takes, and the wait takes nothing. Where a blocking socket takes `n`
  -- bytes of the `size` given, some but not all, and `m` bytes, the rest or more, in the next call,
  -- then send returns `n + m`, and what has been sent is the first `n` bytes of the buffer and then
  -- the first `m` bytes of it again.
  pub send-resends :
      (w : W) (n m : ℕ)
      → (c.sys_send socket buf size flags w).0 ≡ done n
      → (c.sys_send socket buf size flags (waited w)).0 ≡ done m
      → 0 < n
      → n < size
      → size ≤ n + m
      → (w' : W) × (send c 2 true socket buf size flags t w ≡ ok (n + m, w'))
        × (sent w' ≡ sent w ++ take n buf ++ take m buf)
  unfolding send send_rest
  send-resends w n m first second part short rest =
      let (fits, sends) = accepts buf w n first in
      let (fits₂, sends₂) = accepts buf (waited w) m second in
      let still =
        idle (pollout + pollerr + pollhup) (timeout_ms r.write_timeout)
          (c.sys_send socket buf size flags w).1 in
      (
        (c.sys_send socket buf size flags (waited w)).1,
        ground (arith, known, first, second),
        ground (arith, sends, sends₂, still, append_assoc (sent w) (take n buf) (take m buf)),
      )

  -- Where the first call fails, with EAGAIN for one, send returns -1 at once and does not wait.
  send-failed :
      (fuel : ℕ) (w : W) (e : ℕ)
      → (c.sys_send socket buf size flags w).0 ≡ failed e
      → send c (suc fuel) true socket buf size flags t w
        ≡ ok (u64 - 1, (c.sys_send socket buf size flags w).1)
  unfolding send send_rest
  send-failed fuel w e failure = ground (arith, known, failure)
