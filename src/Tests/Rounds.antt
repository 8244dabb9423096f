-- ===== src/Tests/Rounds.antt =====
-- Rounds of the event loop at the store and the wheel of the tests.
use jkyi_libco.Base.{◌≡◌, refl, false, none, List, [], ◌∷◌, ◌++◌, arith, Ptr, ◌==◌}
use jkyi_libco.Base.Run.{Run, ok}
use jkyi_libco.Link.View.{Lists, Represents}
use jkyi_libco.Timeout.{slot}
use jkyi_libco.Timeout.Add.{OnTime}
use jkyi_libco.Timeout.Take.{gather}
use jkyi_libco.Timeout.Expiry.{turned}
use jkyi_libco.Loop.{Sched, PollState, round}
use jkyi_libco.Loop.Drain.{run_all}
use jkyi_libco.Loop.Round.{round-processes}
use jkyi_libco.Tests.States.{
  store, lists, store-Represents, wheel, expire, wheel-IsWheel, wheel-OnTime, wheel_short,
}

abbrev pub idle : PollState
idle = record { raised = 0; detached = false; revents = λ i. 0 }

abbrev sched : Sched (List Ptr)
sched = record {
  timers = store;
  wheel = wheel;
  expire = expire;
  timed_out = λ p. p == 3;
  owner = λ p. none;
  polls = λ p. idle;
  world = [];
}

abbrev log : Ptr → List Ptr → List Ptr
log p w = w ++ p ∷ []

abbrev process : Ptr → Sched (List Ptr) → Run (Sched (List Ptr))
process p s = ok (record s { world = log p s.world })

-- Items 1 and 2, whose time is 11, are processed at 12, and item 3 stays.
round_example :
    (z : Sched (List Ptr)) × (L : Lists) × (round 5 500 600 [] 12 process sched ≡ ok z)
    × Represents z.timers L
    × (z.world ≡ run_all log (lists 500 ++ gather wheel lists 0 3) [])
    × (L 500 ≡ [])
    × (L 600 ≡ [])
    × (z.wheel ≡ turned wheel 12)
    × OnTime z.wheel L z.expire
unfolding gather slot
round_example =
    round-processes 500 600 12 process log (λ p s. refl) sched lists store-Represents wheel-IsWheel
      5 (omega arith) (omega arith) (omega arith) (λ h. omega arith) (λ h. omega arith)
      (omega arith) (omega arith) refl wheel-OnTime (λ x h. cc) wheel_short (omega arith)
