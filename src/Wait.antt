-- ===== src/Wait.antt =====
-- co_poll_inner of co_routine.cc (lines 794 to 896), in its two halves: up to the yield of the
-- coroutine, and after it. pfnProcess and pArg, which resume the coroutine, stand in the argument
-- `process` of Loop.
pub mod Begin
pub mod Woken
pub mod End
pub mod Answered
pub mod Repeats
pub mod Served
use jkyi_libco.Base.{
  ℕ, suc, ◌+◌, ◌-◌, ◌*◌, ◌%◌, ◌^◌, Bool, true, false, ◌&&◌, not, Option, none, some, List, [], ◌∷◌,
  Ptr, ◌==◌, ltb, if◌then◌else◌, length,
}
use jkyi_libco.Base.Run.{Run, ok, fault, ◌>>=◌}
use jkyi_libco.Link.{Store, write, calloc, free, remove_from_link}
use jkyi_libco.Timeout.{u32, u64, add_timeout}
use jkyi_libco.Poll.{Pollfd, poll_event2epoll}
use jkyi_libco.Loop.{Sched, PollState}
use jkyi_libco.Io.{Ret, done, failed}
use jkyi_libco.Fd.{is_fd}

-- How the first half ends: with the poll of the system, with a value that is returned at once (the
-- word of an `int`), or with the yield.
pub data Begun : Type 0 where
  falls_back : Begun
  returns : ℕ → Begun
  yields : Begun

-- eMaxTimeout
abbrev pub max_timeout : ℕ
max_timeout = 40 * 1000

abbrev pub eperm : ℕ
eperm = 1

-- `- __LINE__` where AddTimeout refuses.
abbrev pub not_added : ℕ
not_added = u32 - 870

-- A time limit, the word of an `int`, is cut to 40 seconds if it is longer; a negative one stays.
unfoldable pub cut : ℕ → ℕ
cut timeout = if is_fd timeout && ltb max_timeout timeout then max_timeout else timeout

-- `now + timeout` as an `unsigned long long`: the `int` is extended by its sign.
unfoldable pub deadline : (now timeout : ℕ) → ℕ
deadline now timeout = (now + (if ltb timeout (2 ^ 31) then timeout else timeout + u64 - u32)) % u64

-- What memset leaves of an stPoll_t.
abbrev pub new_poll : PollState
new_poll = record { raised = 0; detached = false; revents = λ i. 0 }

-- epoll_ctl of the system, to add an item for a descriptor and to delete the descriptor.
pub record Epoll (W : Type 0) : Type 0 where
  pub add : (fd : ℕ) → (item : Ptr) → (events : ℕ) → W → Ret × W
  pub del : ℕ → W → W

-- `ret < 0 && errno == EPERM`
abbrev pub is_eperm : Ret → Bool
is_eperm (done n) = false
is_eperm (failed e) = e == eperm

module _ {W : Type 0} (epoll : Epoll W) where
  -- The loop that adds the events, from entry `i` on. `alone` is `nfds == 1 && pollfunc != NULL`;
  -- the result is `true` where the poll of the system has to take over.
  unfoldable pub register_all : Bool → Ptr → (ℕ → Ptr) → ℕ → List Pollfd → Sched W → Bool × Sched W
  register_all alone p item i [] s = (false, s)
  register_all alone p item i (f ∷ fs) s =
      let s : Sched W = record s { owner = write s.owner (item i) (some (p, i)) } in
      elim (is_fd f.fd) [
        | false ↦ register_all alone p item (i + 1) fs s
        | true ↦
            let (ret, w) = epoll.add f.fd (item i) (poll_event2epoll f.events) s.world in
            let s : Sched W = record s { world = w } in
            elim (is_eperm ret && alone) [
              | true ↦ (true, s)
              | false ↦ register_all alone p item (i + 1) fs s
            ]
      ]

  -- Up to the yield. `p` is what malloc gives for the stPoll_t, `item i` the address of the `i`-th
  -- stPollItem_t, in `arr` or from malloc.
  unfoldable pub poll_begin :
      (p : Ptr)
      → (item : ℕ → Ptr) → List Pollfd
      → (timeout : ℕ) → (pollfunc : Bool) → (now : ℕ) → Sched W
      → Run (Begun × Sched W)
  unfolding register_all cut deadline
  poll_begin p item fds timeout pollfunc now s =
      let fresh : Sched W = record s {
        timers = calloc p s.timers;
        timed_out = write s.timed_out p false;
        owner = write s.owner p none;
        polls = write s.polls p new_poll;
      } in
      let (fall, s) = register_all (length fds == 1 && pollfunc) p item 0 fds fresh in
      if fall then ok (falls_back, record s { timers = free p s.timers }) else (do
        let s : Sched W = record s { expire = write s.expire p (deadline now (cut timeout)) }
        (ret, wheel, timers) ← add_timeout s.wheel p s.expire now s.timers
        let s : Sched W = record s { wheel = wheel; timers = timers }
        if ret == 0
            then ok (yields, s)
            else ok (returns not_added, record s { timers = free p s.timers }))

  -- The loop that takes the events out of epoll again and gives the results.
  unfoldable pub unregister_all : (ℕ → ℕ) → ℕ → List Pollfd → W → List Pollfd × W
  unregister_all revents i [] w = ([], w)
  unregister_all revents i (f ∷ fs) w =
      let w = if is_fd f.fd then epoll.del f.fd w else w in
      let (rest, w) = unregister_all revents (i + 1) fs w in
      (record f { revents = revents i } ∷ rest, w)

  -- After the yield: the number of events, and the entries with their results.
  unfoldable pub poll_end : Ptr → List Pollfd → Sched W → Run (ℕ × List Pollfd × Sched W)
  unfolding unregister_all
  poll_end p fds s = do
    timers ← remove_from_link p s.timers
    let q : PollState = s.polls p
    let (fds, w) = unregister_all q.revents 0 fds s.world
    ok (q.raised, fds, record s { timers = free p timers; world = w })
