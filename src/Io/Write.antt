-- ===== src/Io/Write.antt =====
-- The hooked write: what it returns is the number of bytes that the system has taken, from the
-- front of the buffer and in order.
use jkyi_libco.Base.{
  ℕ, zero, suc, ◌+◌, ◌-◌, ◌≤◌, ◌<◌, ◌≡◌, refl, ◌⊎◌, inl, inr, Bool, Bool-cases, List, ◌++◌,
  append_assoc, append-nil, arith, length, take, drop, take-add, length-drop, ◌==◌, ltb,
  Option-cases,
}
use jkyi_libco.Base.Run.{ok}
use jkyi_libco.Fd.{Table}
use jkyi_libco.Io.{
  Ret, done, failed, Calls, write, write_rest, write_result, entry, timeout_ms, pollout, pollerr,
  pollhup,
}

pub Ret-cases : (r : Ret) → ((n : ℕ) × (r ≡ done n)) ⊎ ((e : ℕ) × (r ≡ failed e))
Ret-cases (done n) = inl (n, refl)
Ret-cases (failed e) = inr (e, refl)

module _ {W : Type 0} (c : Calls W) (fd : ℕ) (sent : W → List ℕ)
    (accepts : (b : List ℕ) (w : W) (n : ℕ)
      → (c.sys_write fd b w).0 ≡ done n
      → (n ≤ length b) × (sent (c.sys_write fd b w).1 ≡ sent w ++ take n b))
    (refuses : (b : List ℕ) (w : W) (e : ℕ)
      → (c.sys_write fd b w).0 ≡ failed e
      → sent (c.sys_write fd b w).1 ≡ sent w)
    (idle : (events timeout : ℕ) (w : W) → sent (c.poll fd events timeout w).2 ≡ sent w)
    (buf : List ℕ) where
  write_rest-Sent :
      (fuel timeout wrotelen : ℕ) (last : Ret) (w : W) (base : List ℕ)
      → wrotelen ≤ length buf
      → length buf - wrotelen < fuel
      → sent w ≡ base ++ take wrotelen buf
      → (r : Ret) × (n : ℕ) × (w' : W) × (write_rest c fuel fd buf timeout wrotelen last w
          ≡ ok (r, n, w'))
        × (n ≤ length buf)
        × (sent w' ≡ base ++ take n buf)
  unfolding write_rest
  write_rest-Sent zero timeout wrotelen last w base low enough h = absurd (omega arith)
  write_rest-Sent (suc fuel) timeout wrotelen last w base low enough h =
      elim (Bool-cases (ltb wrotelen (length buf))) [
        | inr over ↦ (last, wrotelen, w, ground (arith, over), low, h)
        | inl more ↦
            let w₁ = (c.poll fd (pollout + pollerr + pollhup) timeout w).2 in
            let b = drop wrotelen buf in
            let w₂ = (c.sys_write fd b w₁).1 in
            let still = idle (pollout + pollerr + pollhup) timeout w in
            elim (Ret-cases (c.sys_write fd b w₁).0) [
              | inr (e, failure) ↦ (
                failed e,
                wrotelen,
                w₂,
                ground (arith, more, failure),
                low,
                ground (arith, refuses b w₁ e failure, still),
              )
              | inl (n, success) ↦
                  let (fits, sends) = accepts b w₁ n success in
                  let short : wrotelen + n ≤ length buf = omega (arith, length-drop wrotelen buf) in
                  let now : sent w₂ ≡ base ++ take (wrotelen + n) buf =
                    rw (take-add wrotelen n buf, ← append_assoc) (ground (arith, sends, still)) in
                  elim (Bool-cases (n == 0)) [
                    | inl nothing ↦ (
                      done 0,
                      wrotelen,
                      w₂,
                      ground (arith, more, success, nothing),
                      low,
                      ground (arith, now),
                    )
                    | inr some_bytes ↦
                        let (r, m, w', run, within, all) =
                          write_rest-Sent fuel timeout (wrotelen + n) (done n) w₂ base short
                            (ground arith) now in
                        (r, m, w', ground (arith, more, success, some_bytes, run), within, all)
                  ]
            ]
      ]

  -- What the last lines of write make of the loop's end.
  result-cases :
      (r : Ret) (n : ℕ) (w : W) (base : List ℕ)
      → n ≤ length buf
      → sent w ≡ base ++ take n buf
      → ((m : ℕ) × (write_result c r n ≡ done m) × (m ≤ length buf) × (sent w ≡ base ++ take m buf))
        ⊎ ((e : ℕ) × (write_result c r n ≡ failed e) × (sent w ≡ base))
  result-cases (done m) n w base within h = inl (n, ground arith, within, h)
  result-cases (failed e) zero w base within h = inr (e, refl, ground (arith, h, append-nil base))
  result-cases (failed e) (suc n) w base within h = inl (suc n, ground arith, within, h)

  -- The system reports what it takes: a call that returns `n` has taken the first `n` bytes given
  -- to it, one that fails none, and the wait takes none. Then write, with more rounds than the
  -- buffer has bytes, ends. Either it returns a number `n` and the system has taken the first `n`
  -- bytes of the buffer, in order and each of them once, or it fails and the system has taken none.
  pub write-Sent :
      (fuel : ℕ) (hooked : Bool) (t : Table) (w : W)
      → length buf < fuel
      → (r : Ret) × (w' : W) × (write c fuel hooked fd buf t w ≡ ok (r, w'))
        × (((n : ℕ) × (r ≡ done n) × (n ≤ length buf) × (sent w' ≡ sent w ++ take n buf))
            ⊎ ((e : ℕ) × (r ≡ failed e) × (sent w' ≡ sent w)))
  unfolding write
  write-Sent fuel hooked t w enough =
      let w₁ = (c.sys_write fd buf w).1 in
      elim (Option-cases (entry hooked fd t)) [
        | inl direct ↦ elim (Ret-cases (c.sys_write fd buf w).0) [
          | inl (n, success) ↦
              let (fits, sends) = accepts buf w n success in
              (done n, w₁, ground (arith, direct, success), inl (n, refl, fits, sends))
          | inr (e, failure) ↦ (
            failed e,
            w₁,
            ground (arith, direct, failure),
            inr (e, refl, refuses buf w e failure),
          )
        ]
        | inr (r, known) ↦ elim (Ret-cases (c.sys_write fd buf w).0) [
          | inl (n, success) ↦
              let (fits, sends) = accepts buf w n success in
              elim (Bool-cases (n == 0)) [
                | inl nothing ↦ (
                  done 0,
                  w₁,
                  ground (arith, known, success, nothing),
                  inl (0, refl, omega arith, ground (arith, sends)),
                )
                | inr some_bytes ↦
                    let (last, m, w', run, within, all) =
                      write_rest-Sent fuel (timeout_ms r.write_timeout) n (done n) w₁ (sent w) fits
                        (omega arith) sends in
                    (
                      write_result c last m,
                      w',
                      ground (arith, known, success, some_bytes, run),
                      result-cases last m w' (sent w) within all,
                    )
              ]
          | inr (e, failure) ↦
              let (last, m, w', run, within, all) =
                write_rest-Sent fuel (timeout_ms r.write_timeout) 0 (failed e) w₁ (sent w)
                  (omega arith) (omega arith) (rw append-nil (refuses buf w e failure)) in
              (
                write_result c last m,
                w',
                ground (arith, known, failure, run),
                result-cases last m w' (sent w) within all,
              )
        ]
      ]
