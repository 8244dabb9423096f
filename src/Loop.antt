-- ===== src/Loop.antt =====
-- The event loop of co_routine.cc: co_eventloop (lines 689 to 748) and OnPollPreparePfn (670 to
-- 686). One round joins the ready items and the timers that are due in the active list, and
-- processes them in order.
pub mod Prepare
pub mod Drain
pub mod Joined
pub mod Round
pub mod Wakes
pub mod Live
pub mod Events
pub mod Raised
pub mod Serving
use jkyi_libco.Base.{
  ℕ, zero, suc, ◌+◌, ◌%◌, ◌^◌, Bool, true, false, ◌&&◌, Option, none, some, List, [], ◌∷◌, Ptr,
  null, ◌==◌, ltb, if◌then◌else◌,
}
use jkyi_libco.Base.Run.{Run, ok, fault, out_of_fuel, ◌>>=◌}
use jkyi_libco.Link.{Store, write, set_head, set_tail, remove_from_link, add_tail, pop_head, join}
use jkyi_libco.Timeout.{Wheel, u32, add_timeout, take_all_timeout}
use jkyi_libco.Poll.{epoll_event2poll}

-- What the loop sees of an stPoll_t: iRaiseCnt as its word, iAllEventDetach, and the `revents` of
-- its entries.
pub record PollState : Type 0 where
  pub raised : ℕ
  pub detached : Bool
  pub revents : ℕ → ℕ

-- The event with the mask `events` of epoll at entry `i`.
abbrev pub raise : (i events : ℕ) → PollState → PollState
raise i events q = record {
  raised = (q.raised + 1) % u32;
  detached = true;
  revents = write q.revents i (epoll_event2poll events);
}

-- The timers and ready items, with the fields ullExpireTime and bTimeout. `owner` is, for an
-- stPollItem_t, its stPoll_t and the place of its entry; other items have no pfnPrepare. `world` is
-- what the coroutines change.
pub record Sched (W : Type 0) : Type 0 where
  pub timers : Store
  pub wheel : Wheel
  pub expire : Ptr → ℕ
  pub timed_out : Ptr → Bool
  pub owner : Ptr → Option (Ptr × ℕ)
  pub polls : Ptr → PollState
  pub world : W

module _ {W : Type 0} where
  -- OnPollPreparePfn, for entry `i` of the stPoll_t at `p` and the mask of epoll.
  unfoldable pub on_poll_prepare : (active p : Ptr) → (i events : ℕ) → Sched W → Run (Sched W)
  on_poll_prepare active p i events s =
      let q = s.polls p in
      let s' : Sched W = record s { polls = write s.polls p (raise i events q) } in
      if q.detached then ok s' else (do
        timers ← remove_from_link p s.timers
        timers ← add_tail active p timers
        ok (record s' { timers = timers }))

  -- The loop over the results of epoll: each is the item of the event, and its mask.
  unfoldable pub prepare_all : Ptr → List (Ptr × ℕ) → Sched W → Run (Sched W)
  unfolding on_poll_prepare
  prepare_all active [] s = ok s
  prepare_all active ((item, events) ∷ es) s =
      elim (s.owner item) as (λ x. Run (Sched W)) [
        | some (p, i) ↦ on_poll_prepare active p i events s
        | none ↦ add_tail active item s.timers >>= λ timers. ok (record s { timers = timers })
      ]
      >>= λ s. prepare_all active es s

  -- The loop that sets bTimeout, from the item `p` on.
  unfoldable pub mark : ℕ → Ptr → Sched W → Run (Sched W)
  mark zero p s = out_of_fuel
  mark (suc fuel) p s = elim (p == null) [
    | true ↦ ok s
    | false ↦ elim (s.timers.node p) [
      | none ↦ fault
      | some n ↦ mark fuel n.next (record s { timed_out = write s.timed_out p true })
    ]
  ]

  -- A timer that has been taken too early goes back to the wheel. The result says whether it does.
  unfoldable pub put_back : (p : Ptr) → (now : ℕ) → Sched W → Run (Bool × Sched W)
  put_back p now s =
      if s.timed_out p && ltb now (s.expire p)
      then (do
        (ret, wheel, timers) ← add_timeout s.wheel p s.expire now s.timers
        let s : Sched W = record s { wheel = wheel; timers = timers }
        ok (
            if ret == 0
            then (true, record s { timed_out = write s.timed_out p false })
            else (false, s)))
      else ok (false, s)

  -- The loop over the active list. `process` is the call of pfnProcess, which resumes the coroutine
  -- of the item; it does nothing where pfnProcess is NULL.
  unfoldable pub drain : ℕ → Ptr → ℕ → (Ptr → Sched W → Run (Sched W)) → Sched W → Run (Sched W)
  unfolding put_back
  drain zero active now process s = out_of_fuel
  drain (suc fuel) active now process s =
      let p = (s.timers.ends active).head in
      elim (p == null) [
        | true ↦ ok s
        | false ↦ pop_head active s.timers >>= λ timers.
            put_back p now (record s { timers = timers }) >>= λ x. elim x.0 [
              | true ↦ drain fuel active now process x.1
              | false ↦ process p x.1 >>= λ s. drain fuel active now process s
            ]
      ]

  -- One round. `fuel` bounds each of its loops.
  unfoldable pub round :
      ℕ
      → (active timeout : Ptr) → List (Ptr × ℕ)
      → ℕ
      → (Ptr → Sched W → Run (Sched W))
      → Sched W
      → Run (Sched W)
  unfolding prepare_all mark drain
  round fuel active timeout events now process s = do
    let cleared = set_tail timeout null (set_head timeout null s.timers)
    s ← prepare_all active events (record s { timers = cleared })
    (wheel, timers) ← take_all_timeout fuel s.wheel now timeout s.timers
    let s : Sched W = record s { wheel = wheel; timers = timers }
    s ← mark fuel (s.timers.ends timeout).head s
    timers ← join fuel active timeout s.timers
    drain fuel active now process (record s { timers = timers })

  -- co_eventloop, for the results of epoll and the times of the rounds to come. `pfn` is the
  -- caller's function: the loop ends when it returns -1, which is `true` here.
  unfoldable pub co_eventloop :
      ℕ
      → (active timeout : Ptr) → List (List (Ptr × ℕ) × ℕ)
      → (Ptr → Sched W → Run (Sched W))
      → (W → Bool × W)
      → Sched W
      → Run (Sched W)
  unfolding round
  co_eventloop fuel active timeout [] process pfn s = out_of_fuel
  co_eventloop fuel active timeout ((events, now) ∷ rest) process pfn s =
      round fuel active timeout events now process s >>= λ s.
      let (stop, world) = pfn s.world in
      let s : Sched W = record s { world = world } in
      elim stop [ true ↦ ok s | false ↦ co_eventloop fuel active timeout rest process pfn s ]
