-- ===== src/Tests/Wakes.antt =====
-- The event loop at the store and the wheel of the tests, until item 3, whose time is 111, or the
-- poll at 5, which waits from 12 to 62, has been processed.
use jkyi_libco.Base.{◌≡◌, refl, true, false, none, List, [], ◌∷◌, map, arith, Ptr, has, length, ◌≤◌}
use jkyi_libco.Base.Run.{Run, ok}
use jkyi_libco.Io.{done}
use jkyi_libco.Poll.{Pollfd, epoll_event2poll}
use jkyi_libco.Timeout.{slot}
use jkyi_libco.Loop.{Sched, round, co_eventloop}
use jkyi_libco.Loop.Drain.{run_all}
use jkyi_libco.Wait.Answered.{poll_end-poll_begin}
use jkyi_libco.Loop.Wakes.{IsLoop, Waits}
use jkyi_libco.Wait.{Epoll, yields, poll_begin, poll_end}
use jkyi_libco.Wait.Woken.{co_eventloop-poll_begin}
use jkyi_libco.Tests.States.{
  store, lists, store-Represents, wheel, expire, wheel-IsWheel, wheel-OnTime,
}
use jkyi_libco.Tests.Rounds.{idle}

abbrev sched : Sched (List Ptr)
sched = record {
  timers = store;
  wheel = wheel;
  expire = expire;
  timed_out = λ p. false;
  owner = λ p. none;
  polls = λ p. idle;
  world = [];
}

abbrev log : Ptr → List Ptr → List Ptr
log p w = p ∷ w

abbrev process : Ptr → Sched (List Ptr) → Run (Sched (List Ptr))
process p s = ok (record s { world = log p s.world })

lists_few : (k : Ptr) → length (lists k) ≤ 2
lists_few k = ground arith

sched-IsLoop : IsLoop 500 600 2 sched
sched-IsLoop = record {
  L = lists;
  view = store-Represents;
  wheel = wheel-IsWheel;
  out_a = λ h. omega arith;
  out_t = λ h. omega arith;
  idle = refl;
  on_time = wheel-OnTime;
  unmarked = λ x h. refl;
  few = λ k h. lists_few k;
  few_active = omega arith;
}

sched-Waits : Waits 500 600 3 2 sched
unfolding slot sched-IsLoop
sched-Waits = record { loop = sched-IsLoop; place = 101; on_wheel = omega arith; here = refl }

abbrev watched : Epoll (List Ptr)
watched = record { add = λ fd item events w. (done 0, w); del = λ fd w. w }

abbrev readable : List Pollfd
readable = record { fd = 3; events = 1; revents = 0 } ∷ []

poll_example :
    (y z : Sched (List Ptr)) × (poll_begin watched 5 (λ i. 7) readable 50 true 12 sched
      ≡ ok (yields, y))
    × (co_eventloop 400 500 600
          (map (λ t. ([], t)) (13 ∷ 20 ∷ 62 ∷ []))
          process
          (λ w. (has 5 w, w))
          y
        ≡ ok z)
    × (has 5 z.world ≡ true)
poll_example =
    co_eventloop-poll_begin watched (λ fd item events w. refl) 500 600 2 5 12 50 (λ i. 7) readable
      true sched sched-IsLoop (omega arith) refl (omega arith) (omega arith) (omega arith)
      (omega arith) process log (λ w. (has 5 w, w)) (has 5) 400 13 (20 ∷ 62 ∷ []) (omega arith)
      (omega arith) (omega arith) (λ q s. refl) (λ w. refl) (λ w. refl) (λ q w h. ground (arith, h))
      (omega arith, omega arith, (omega arith, omega arith, (omega arith, omega arith, tt)))
      (omega arith) (omega arith) (omega arith) (omega arith) (omega arith)

answered_example :
    (y z u : Sched (List Ptr)) × (xs : List Ptr) × (poll_begin watched 5
        (λ i. 7)
        readable
        50
        true
        12
        sched
      ≡ ok (yields, y))
    × (round 500 500 600 ((7, 1) ∷ []) 20 process y ≡ ok z)
    × (z.world ≡ run_all log xs y.world)
    × (has 5 xs ≡ true)
    × (poll_end watched 5 readable z
        ≡ ok (1, record { fd = 3; events = 1; revents = epoll_event2poll 1 } ∷ [], u))
    × (u.world ≡ z.world)
    × (u.timers.node 5 ≡ none)
answered_example =
    poll_end-poll_begin watched (λ fd item events w. refl) 500 600 2 5 12 50 (λ i. 7)
      (record { fd = 3; events = 1; revents = 0 }) true sched sched-IsLoop (omega arith) refl
      (omega arith) (omega arith) (omega arith) (omega arith) process log 500 20 1 refl
      (omega arith) (omega arith) (omega arith) (λ q s. refl) (omega arith) (omega arith)
      (omega arith) (omega arith) (omega arith) (omega arith)
