-- ===== src/Tests/Waits.antt =====
-- co_poll_inner at the store and the wheel of the tests: the stPoll_t at 5, its item at 7.
use jkyi_libco.Base.{ℕ, ◌≡◌, refl, true, false, none, List, [], ◌∷◌, ◌++◌, arith}
use jkyi_libco.Base.Run.{ok}
use jkyi_libco.Io.{done}
use jkyi_libco.Loop.{Sched}
use jkyi_libco.Poll.{Pollfd}
use jkyi_libco.Wait.{Epoll, returns, not_added, poll_begin}
use jkyi_libco.Wait.Begin.{poll_begin-negative}
use jkyi_libco.Timeout.{Wheel}
use jkyi_libco.Timeout.Slots.{IsWheel}
use jkyi_libco.Tests.States.{store, wheel, expire}
use jkyi_libco.Tests.Rounds.{idle}

abbrev watched : Epoll (List ℕ)
watched = record { add = λ fd item events w. (done 0, w ++ fd ∷ []); del = λ fd w. w }

abbrev sched : Wheel → Sched (List ℕ)
sched w = record {
  timers = store;
  wheel = w;
  expire = expire;
  timed_out = λ p. false;
  owner = λ p. none;
  polls = λ p. idle;
  world = [];
}

abbrev readable : List Pollfd
readable = record { fd = 3; events = 1; revents = 0 } ∷ []

abbrev late : Wheel
late = record wheel { start = 5000000000 }

late-IsWheel : IsWheel late
late-IsWheel = record {
  begun = omega arith;
  has_slots = omega arith;
  int_size = omega arith;
  small_start = omega arith;
  small_idx = omega arith;
  has_items = omega arith;
}

negative_example :
    (z : Sched (List ℕ)) × (poll_begin watched 5
        (λ i. 7)
        readable
        4294967295
        true
        5000000012
        (sched late)
      ≡ ok (returns not_added, z))
    × (z.timers.node 5 ≡ none)
negative_example =
    poll_begin-negative watched (λ fd item events w. refl) 5 (λ i. 7) readable true 5000000012
      (sched late) late-IsWheel (omega arith) (omega arith) 4294967295 (omega arith) (omega arith)
      (omega arith)
