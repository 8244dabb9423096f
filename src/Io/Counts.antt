-- ===== src/Io/Counts.antt =====
-- How often the hooked calls enter the system: read, recv and recvfrom once, whatever the socket;
-- sendto sends one datagram at most; connect waits three times at most.
use jkyi_libco.Base.{ℕ, suc, ◌≡◌, ◌⊎◌, inl, inr, Bool, Bool-cases, List, arith, ◌==◌, Option-cases}
use jkyi_libco.Fd.{Table}
use jkyi_libco.Io.{done, failed, Calls, read, recv, recvfrom, sendto, entry, timeout_ms}
use jkyi_libco.Io.Write.{Ret-cases}

module _ {W : Type 0} (c : Calls W) (fd : ℕ) where
  module _ (reads : W → ℕ) (counts : (n : ℕ) (w : W) → reads (c.sys_read fd n w).1 ≡ suc (reads w))
      (counts_recv : (n flags : ℕ) (w : W) → reads (c.sys_recv fd n flags w).1 ≡ suc (reads w))
      (counts_from : (n flags : ℕ) (w : W) → reads (c.sys_recvfrom fd n flags w).1 ≡ suc (reads w))
      (idle : (events timeout : ℕ) (w : W) → reads (c.poll fd events timeout w).2 ≡ reads w) where
    -- Each call of the system counts as one, and the wait as none. Then read, recv and recvfrom
    -- enter the system exactly once each, on every branch: whether the coroutine is hooked or not,
    -- the socket known or not, blocking or not.
    pub reads_once :
        (hooked : Bool) (n flags : ℕ) (t : Table) (w : W)
        → (reads (read c hooked fd n t w).1 ≡ suc (reads w))
          × (reads (recv c hooked fd n flags t w).1 ≡ suc (reads w))
          × (reads (recvfrom c hooked fd n flags t w).1 ≡ suc (reads w))
    unfolding read recv recvfrom
    reads_once hooked n flags t w = elim (Option-cases (entry hooked fd t)) [
      | inl direct ↦ (
        ground (arith, direct, counts n w),
        ground (arith, direct, counts_recv n flags w),
        ground (arith, direct, counts_from n flags w),
      )
      | inr (r, known) ↦
          let ms = timeout_ms r.read_timeout in
          (
            ground (arith, known, counts n (c.poll fd 25 ms w).2, idle 25 ms w),
            ground (arith, known, counts_recv n flags (c.poll fd 25 ms w).2, idle 25 ms w),
            ground (arith, known, counts_from n flags (c.poll fd 9 ms w).2, idle 9 ms w),
          )
    ]

  -- A call of the system that returns a number has sent the datagram, one that fails has not, and
  -- the wait sends none. Then sendto has sent the datagram exactly once if it returns a number, and
  -- not at all if it fails.
  sendto-once :
      (sent : W → ℕ)
      → ((message dest : List ℕ) (flags : ℕ) (w : W) (n : ℕ)
          → (c.sys_sendto fd message flags dest w).0 ≡ done n
          → sent (c.sys_sendto fd message flags dest w).1 ≡ suc (sent w))
      → ((message dest : List ℕ) (flags : ℕ) (w : W) (e : ℕ)
          → (c.sys_sendto fd message flags dest w).0 ≡ failed e
          → sent (c.sys_sendto fd message flags dest w).1 ≡ sent w)
      → ((events timeout : ℕ) (w : W) → sent (c.poll fd events timeout w).2 ≡ sent w)
      → (hooked : Bool) (message dest : List ℕ) (flags : ℕ) (t : Table) (w : W)
      → ((n : ℕ) × ((sendto c hooked fd message flags dest t w).0 ≡ done n)
          × (sent (sendto c hooked fd message flags dest t w).1 ≡ suc (sent w)))
        ⊎ ((e : ℕ) × ((sendto c hooked fd message flags dest t w).0 ≡ failed e)
            × (sent (sendto c hooked fd message flags dest t w).1 ≡ sent w))
  unfolding sendto
  sendto-once sent sends fails idle hooked message dest flags t w =
      let w₁ = (c.sys_sendto fd message flags dest w).1 in
      elim (Ret-cases (c.sys_sendto fd message flags dest w).0) [
        | inl (n, success) ↦ elim (Option-cases (entry hooked fd t)) [
          | inl direct ↦ inl (
            n,
            ground (arith, direct, success),
            ground (arith, direct, sends message dest flags w n success),
          )
          | inr (r, known) ↦ inl (
            n,
            ground (arith, known, success),
            ground (arith, known, success, sends message dest flags w n success),
          )
        ]
        | inr (e, failure) ↦ elim (Option-cases (entry hooked fd t)) [
          | inl direct ↦ inr (
            e,
            ground (arith, direct, failure),
            ground (arith, direct, fails message dest flags w e failure),
          )
          | inr (r, known) ↦
              let kept = fails message dest flags w e failure in
              let w₂ = (c.poll fd 1 (timeout_ms r.write_timeout) w₁).2 in
              let still = idle 1 (timeout_ms r.write_timeout) w₁ in
              elim (Bool-cases (e == 11)) [
                | inr other ↦ inr (
                  e,
                  ground (arith, known, failure, other),
                  ground (arith, known, failure, other, kept),
                )
                | inl full ↦ elim (Ret-cases (c.sys_sendto fd message flags dest w₂).0) [
                  | inl (n, success) ↦ inl (
                    n,
                    ground (arith, known, failure, full, success),
                    ground (
                      arith,
                      known,
                      failure,
                      full,
                      kept,
                      still,
                      sends message dest flags w₂ n success,
                    ),
                  )
                  | inr (e', again) ↦ inr (
                    e',
                    ground (arith, known, failure, full, again),
                    ground (
                      arith,
                      known,
                      failure,
                      full,
                      kept,
                      still,
                      fails message dest flags w₂ e' again,
                    ),
                  )
                ]
              ]
        ]
      ]
