-- ===== src/Tests/Served.antt =====
-- Three coroutines that poll again and again: the stPoll_ts at 1, 2 and 3, for which the wheel of the
-- tests has 60000 slots. The item of the poll at 3 is at 1003.
use jkyi_libco.Base.{
  ap, ℕ, ◌+◌, ◌≤◌, ◌<◌, ◌≡◌, ◌⊎◌, ◌↔◌, refl, true, false, none, some, List, [], ◌∷◌, ◌++◌, map,
  arith, Ptr, has, Distinct, ◌==◌, if◌then◌else◌,
}
use jkyi_libco.Base.Run.{Run, ok}
use jkyi_libco.Link.View.{Lists}
use jkyi_libco.Io.{done}
use jkyi_libco.Poll.{Pollfd}
use jkyi_libco.Timeout.{slot}
use jkyi_libco.Timeout.Add.{OnTime}
use jkyi_libco.Loop.{Sched, round, co_eventloop}
use jkyi_libco.Loop.Serving.{IsServing, Resumes, quiet}
use jkyi_libco.Loop.Serving.Again.{OnWheel, Rejoins}
use jkyi_libco.Loop.Serving.Batch.{hit}
use jkyi_libco.Loop.Serving.Turn.{round-serves}
use jkyi_libco.Loop.Serving.Rounds.{turn, rest, Rounds-IsServing}
use jkyi_libco.Loop.Serving.Ends.{co_eventloop-serves}
use jkyi_libco.Wait.{Epoll}
use jkyi_libco.Wait.Repeats.{repeat, outcome, repeat-Resumes}
use jkyi_libco.Wait.Served.{reply, round-repeat}
use jkyi_libco.Tests.States.{store, lists, store-Represents, wide, wide-IsWheel, expire}

abbrev Log : Type 0
Log = List (Ptr × (ℕ × List Pollfd))

abbrev polling : Sched Log
polling = record {
  timers = store;
  wheel = wide;
  expire = expire;
  timed_out = λ p. false;
  owner = λ item. if item == 1003 then some (3, 0) else none;
  polls = λ p. quiet;
  world = [];
}

abbrev pool : List Ptr
pool = 1 ∷ 2 ∷ 3 ∷ 4 ∷ []

wide-OnTime : OnTime wide lists expire
unfolding slot
wide-OnTime d p lt m = ground arith

lists_pooled : (k x : Ptr) → has x (lists k) ≡ true → has x pool ≡ true
lists_pooled k x m = ground arith

polling-IsServing : IsServing 70000 70001 pool polling lists
polling-IsServing = record {
  view = store-Represents;
  wheel = wide-IsWheel;
  out_a = λ h. omega arith;
  out_t = λ h. omega arith;
  idle = refl;
  on_time = wide-OnTime;
  unmarked = λ k x ne m. refl;
  attached = λ k x ne m. refl;
  ready = λ x m. refl;
  room = omega arith;
  pooled = lists_pooled;
}

abbrev system : Epoll Log
system = record { add = λ fd item events w. (done 0, w); del = λ fd w. w }

abbrev readable : Ptr → List Pollfd
readable p = record { fd = p; events = 1; revents = 0 } ∷ []

abbrev item_of : Ptr → ℕ → Ptr
item_of p i = p + 1000

abbrev note : Ptr → ℕ → List Pollfd → Log → Log
note p ret results w = w ++ (p, (ret, results)) ∷ []

abbrev body : Ptr → Sched Log → Run (Sched Log)
body = repeat system readable item_of (λ p. 50) true (λ s. s.wheel.start) note

-- At 10 milliseconds epoll has an event for the poll at 3.
repeat_example :
    (z : Sched Log) × (M : Lists) × (xs : List Ptr) × (round 5 70000 70001
        ((1003, 1) ∷ [])
        10
        body
        polling
      ≡ ok z)
    × IsServing 70000 70001 pool z M
    × (M 70000 ≡ [])
    × (z.world ≡ [] ++ map (reply readable polling.owner ((1003, 1) ∷ [])) xs)
    × Distinct xs
    × ((q : Ptr)
        → (has q xs ≡ true) ↔ (
            (hit polling.owner ((1003, 1) ∷ []) q ≡ true)
            ⊎ ((d : ℕ) × (d < 60000) × (has q (lists (slot wide d)) ≡ true) × (expire q ≤ 10))))
    × ((q : Ptr)
        → (hit polling.owner ((1003, 1) ∷ []) q ≡ true)
          ⊎ ((d : ℕ) × (d < 60000) × (has q (lists (slot wide d)) ≡ true))
        → OnWheel z.wheel M q)
repeat_example =
    round-repeat system readable item_of (λ p. 50) true (λ s. s.wheel.start) note (λ w. w)
      (λ fd item events w. refl) (λ fd item events w. refl) (λ fd w. refl) (λ p ret results w. refl)
      (λ p. omega arith) (λ s v. (omega arith, omega arith, v.small_start)) 70000 70001 5 10 pool
      ((1003, 1) ∷ []) polling lists (omega arith) (omega arith) (omega arith) polling-IsServing
      refl ((3, 0, 200, refl, refl), tt) (omega arith) (omega arith) (omega arith) (omega arith)
      (omega arith)

-- Such coroutines meet both contracts.
resumed_example :
    Resumes 70000 70001 pool body (outcome readable) (λ w. w) × Rejoins 70000 70001 pool body
resumed_example =
    repeat-Resumes system readable item_of (λ p. 50) true (λ s. s.wheel.start) note (λ w. w)
      (λ fd item events w. refl) (λ fd item events w. refl) (λ fd w. refl) (λ p ret results w. refl)
      (λ p. omega arith) (λ s v. (omega arith, omega arith, v.small_start)) 70000 70001 pool

body-Resumes : Resumes 70000 70001 pool body (outcome readable) (λ w. w)
body-Resumes =
    (repeat-Resumes system readable item_of (λ p. 50) true (λ s. s.wheel.start) note (λ w. w)
      (λ fd item events w. refl) (λ fd item events w. refl) (λ fd w. refl) (λ p ret results w. refl)
      (λ p. omega arith) (λ s v. (omega arith, omega arith, v.small_start)) 70000 70001 pool).0

-- A round at 12 milliseconds, without events.
quiet_turn :
    (z : Sched Log) × (round 5 70000 70001 [] 12 body polling ≡ ok z) × (z.wheel.start ≡ 12)
quiet_turn =
    let (z, M, xs, run, v, none_left, wheel, log, once, members, others) =
      round-serves 70000 70001 pool (omega arith) (omega arith) (omega arith) body
        (outcome readable) (λ w. w) body-Resumes 5 12 [] polling lists polling-IsServing tt
        (omega arith) (omega arith) (omega arith) (omega arith) (omega arith) in
    (z, run, ap (λ w. w.start) wheel)

rounds_example :
    (M : Lists) × (ys : Log) × IsServing 70000 70001 pool quiet_turn.0 M
    × (quiet_turn.0.world ≡ [] ++ ys)
    × ((q d : Ptr)
        → d < 60000
        → has q (lists (slot wide d)) ≡ true
        → expire q < quiet_turn.0.wheel.start
        → has q (map (λ y. y.0) ys) ≡ true)
rounds_example =
    Rounds-IsServing 70000 70001 pool (omega arith) (omega arith) (omega arith) body
      (outcome readable) (λ w. w) body-Resumes 5 (omega arith) polling quiet_turn.0 lists
      polling-IsServing
      (turn 12 [] tt (omega arith) (omega arith) (omega arith) (omega arith) quiet_turn.1 rest)

-- The loop stops when the poll at 3 has returned, whose time is 111.
stopped_loop_example :
    (z : Sched Log) × (M : Lists) × (co_eventloop 5 70000 70001
        (map (λ t. ([], t)) (50 ∷ 111 ∷ []))
        body
        (λ w. (has 3 (map (λ y. y.0) w), w))
        polling
      ≡ ok z)
    × (has 3 (map (λ y. y.0) z.world) ≡ true)
    × IsServing 70000 70001 pool z M
unfolding slot
stopped_loop_example =
    co_eventloop-serves 70000 70001 pool (omega arith) (omega arith) (omega arith) body
      (outcome readable) (λ w. w) body-Resumes (λ w. (has 3 (map (λ y. y.0) w), w))
      (λ w. has 3 (map (λ y. y.0) w)) (λ w. refl) 3 (λ w h. h) 5 (omega arith) 50 (111 ∷ []) polling
      lists 101 polling-IsServing (omega arith) refl
      (omega arith, omega arith, (omega arith, omega arith, tt)) (omega arith) (omega arith)
      (omega arith)
