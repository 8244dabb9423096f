-- ===== src/Clock.antt =====
-- The clock and the thread's number, co_routine.cc: GetTickMS by gettimeofday (lines 85 to 98) and
-- GetPid for Linux (lines 100 to 120).
use jkyi_libco.Base.{
  ℕ, ◌+◌, ◌*◌, ◌/◌, ◌%◌, ◌^◌, ◌≤◌, ◌<◌, ◌≡◌, ◌≢◌, ◌⊎◌, inl, inr, ◌||◌, not, ◌==◌, if◌then◌else◌,
  arith,
}
use jkyi_libco.Fd.{Timeval}
use jkyi_libco.Timeout.{u64}

-- GetTickMS, on what gettimeofday has stored.
unfoldable pub get_tick_ms : Timeval → ℕ
get_tick_ms tv = (tv.sec % u64 * 1000 % u64 + tv.usec / 1000) % u64

-- The statics of GetPid.
pub record Ids : Type 0 where
  pub pid : ℕ
  pub tid : ℕ

-- GetPid, where getpid gives `process` and gettid gives `thread`.
unfoldable pub get_pid : (process thread : ℕ) → Ids → ℕ × Ids
get_pid process thread i =
    if i.pid == 0 || i.tid == 0 || not (i.pid == process)
    then (thread, record { pid = process; tid = thread })
    else (i.tid, i)

-- A time that a clock can give: less than a second of microseconds, and fewer than 2 ^ 52 seconds.
record IsTime (tv : Timeval) : Type 0 where
  sec : tv.sec < 2 ^ 52
  usec : tv.usec < 1000000

module _ (tv : Timeval) (ok : IsTime tv) where
  -- The sum does not wrap around: it is the whole milliseconds of the time in microseconds, and
  -- less than the 2 ^ 62 that the timing wheel asks for.
  get_tick_ms_exact :
      (get_tick_ms tv ≡ (tv.sec * 1000000 + tv.usec) / 1000) × (get_tick_ms tv < 2 ^ 62)
  unfolding get_tick_ms
  get_tick_ms_exact = let a = ok.sec in let b = ok.usec in (omega arith, omega arith)

-- A later time has no smaller number of milliseconds.
get_tick_ms_monotone :
    (a b : Timeval)
    → IsTime a
    → IsTime b
    → (a.sec < b.sec) ⊎ ((a.sec ≡ b.sec) × (a.usec ≤ b.usec))
    → get_tick_ms a ≤ get_tick_ms b
get_tick_ms_monotone a b p q later =
    let (x, _) = get_tick_ms_exact a p in
    let (y, _) = get_tick_ms_exact b q in
    let s = p.usec in
    let t = q.usec in elim later [ inl sooner ↦ omega arith | inr (same, sooner) ↦ omega arith ]

-- The statics hold nothing, or the numbers of this thread, or those of another process: of the
-- parent, where fork has copied them.
Trusted : (process thread : ℕ) → Ids → Type 0
Trusted process thread i = (i.tid ≡ 0) ⊎ ((i.pid ≢ process) ⊎ (i.tid ≡ thread))

-- The answer is the number of the thread that calls, after a fork too, and the statics can be
-- trusted from then on.
get_pid-Trusted :
    (process thread : ℕ) (i : Ids)
    → Trusted process thread i
    → ((get_pid process thread i).0 ≡ thread)
      × Trusted process thread ((get_pid process thread i).1)
unfolding get_pid Trusted
get_pid-Trusted process thread i known = elim known [
  | inl nothing ↦ ground (arith, nothing)
  | inr (inl other) ↦ ground (arith, other)
  | inr (inr mine) ↦ ground (arith, mine)
]
