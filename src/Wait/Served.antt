-- ===== src/Wait/Served.antt =====
-- Any number of coroutines that call poll again and again, in a round of co_eventloop (co_routine.cc,
-- lines 689 to 748 and 794 to 896): which polls return, and what.
use jkyi_libco.Base.{
  ℕ, ◌+◌, ◌-◌, ◌%◌, ◌^◌, ◌≤◌, ◌<◌, ◌≡◌, ◌≢◌, ◌⊎◌, ◌↔◌, ap, ◌∙◌, true, false, Bool, List, [], ◌∷◌,
  map, ◌++◌, inl, inr, refl, Option, arith, Ptr, null, length, has, Distinct, subst, sym,
}
use mathlib.Core.Path.{fun_ext}
use jkyi_libco.Base.Run.{ok}
use jkyi_libco.Link.View.{Lists}
use jkyi_libco.Timeout.{u32, slot}
use jkyi_libco.Timeout.Slots.{IsWheel}
use jkyi_libco.Poll.{Pollfd}
use jkyi_libco.Loop.{Sched, PollState, round}
use jkyi_libco.Loop.Serving.{IsServing, seen, quiet}
use jkyi_libco.Loop.Serving.Pass.{map-agree}
use jkyi_libco.Loop.Serving.Batch.{hit, recorded, Known}
use jkyi_libco.Loop.Serving.Turn.{round-serves}
use jkyi_libco.Loop.Serving.Counted.{hits, last_mask, recorded-raised, recorded-revents, hit-has}
use jkyi_libco.Loop.Serving.Again.{OnWheel, round-again}
use jkyi_libco.Wait.{Epoll, is_eperm}
use jkyi_libco.Wait.End.{answers}
use jkyi_libco.Wait.Repeats.{repeat, outcome, repeat-Resumes}

-- What the events say poll returns: how many there are for the coroutine, and for each entry the
-- last mask, or 0.
abbrev pub reply :
    (Ptr → List Pollfd) → (Ptr → Option (Ptr × ℕ)) → List (Ptr × ℕ) → Ptr → Ptr × (ℕ × List Pollfd)
reply fds owner es q =
    (q, (hits owner es q % u32, answers 0 (λ i. last_mask owner es q i 0) (fds q)))

outcome-recorded :
    (fds : Ptr → List Pollfd) (owner : Ptr → Option (Ptr × ℕ)) (es : List (Ptr × ℕ))
    (polls : Ptr → PollState) (q : Ptr)
    → polls q ≡ quiet
    → seen (outcome fds) (recorded owner es polls) q ≡ reply fds owner es q
outcome-recorded fds owner es polls q e =
    let count : (recorded owner es polls q).raised ≡ hits owner es q % u32 =
      recorded-raised owner es polls q
        (subst (λ (r : PollState). r.raised < u32) (sym e) (omega arith))
      ∙ ap (λ (r : PollState). (r.raised + hits owner es q) % u32) e
      ∙ omega arith in
    let masks : (recorded owner es polls q).revents ≡ (λ i. last_mask owner es q i 0) = fun_ext λ i.
      recorded-revents owner es polls q i
      ∙ ap (λ (r : PollState). last_mask owner es q i (r.revents i)) e in
    rw (count, masks) refl

module _ {W : Type 0} (epoll : Epoll W) (fds : Ptr → List Pollfd) (item : Ptr → ℕ → Ptr)
    (limit : Ptr → ℕ) (pollfunc : Bool) (clock : Sched W → ℕ)
    (work : Ptr → (ret : ℕ) → List Pollfd → W → W) (resumed : W → List (Ptr × (ℕ × List Pollfd)))
    (adds : (fd : ℕ) (item : Ptr) (events : ℕ) (w : W)
      → is_eperm (epoll.add fd item events w).0 ≡ false)
    (add_log : (fd : ℕ) (item : Ptr) (events : ℕ) (w : W)
      → resumed (epoll.add fd item events w).1 ≡ resumed w)
    (del_log : (fd : ℕ) (w : W) → resumed (epoll.del fd w) ≡ resumed w)
    (work_log : (p : Ptr) (ret : ℕ) (results : List Pollfd) (w : W)
      → resumed (work p ret results w) ≡ resumed w ++ (p, (ret, results)) ∷ [])
    (positive : (p : Ptr) → limit p < 2 ^ 31)
    (in_time : (s : Sched W)
      → IsWheel s.wheel
      → (s.wheel.start ≤ clock s) × (clock s < s.wheel.start + 20000) × (clock s < 2 ^ 62)) where
  -- Coroutines whose work is to call poll again and again; adding an event to epoll never fails with
  -- EPERM, no time limit is negative, and work takes less than 20 seconds. All wait in poll, the
  -- events of the round are for such polls, the clock has moved less than 2 ^ 31 - 1 milliseconds,
  -- and `fuel` is more than the number of stPoll_ts. Then the round ends without a fault, nothing is
  -- left active, and all wait again: what was on the wheel or had an event is on the wheel. The polls
  -- that have returned are exactly those that have an event or whose deadline is over, each once;
  -- each has returned the number of its events, 0 where its time was over without any, and for each
  -- of its entries the last mask of epoll as poll has it, or 0.
  pub round-repeat :
      (active timeout fuel now : ℕ) (pool : List Ptr) (es : List (Ptr × ℕ)) (s : Sched W)
      (L : Lists)
      → active ≢ null
      → timeout ≢ null
      → active ≢ timeout
      → IsServing active timeout pool s L
      → L active ≡ []
      → Known s.owner L es
      → s.wheel.start ≤ now
      → now - s.wheel.start + 1 < 2 ^ 31
      → now < 2 ^ 62
      → s.wheel.idx + (now - s.wheel.start) < 2 ^ 62
      → length pool < fuel
      → (z : Sched W) × (M : Lists) × (xs : List Ptr) × (round fuel active timeout es now
            (repeat epoll fds item limit pollfunc clock work)
            s
          ≡ ok z)
        × IsServing active timeout pool z M
        × (M active ≡ [])
        × (resumed z.world ≡ resumed s.world ++ map (reply fds s.owner es) xs)
        × Distinct xs
        × ((q : Ptr)
            → (has q xs ≡ true) ↔ (
                (hit s.owner es q ≡ true)
                ⊎ ((d : ℕ) × (d < s.wheel.size)
                    × (has q (L (slot s.wheel d)) ≡ true)
                    × (s.expire q ≤ now))))
        × ((q : Ptr)
            → (hit s.owner es q ≡ true)
              ⊎ ((d : ℕ) × (d < s.wheel.size) × (has q (L (slot s.wheel d)) ≡ true))
            → OnWheel z.wheel M q)
  round-repeat active timeout fuel now pool es s L na nt apart v none_active known since short small
        idx enough =
      let (resumes, rejoins) =
        repeat-Resumes epoll fds item limit pollfunc clock work resumed adds add_log del_log
          work_log positive in_time active timeout pool in
      let (z, M, xs, run, v', none_left, wheel, log, once, members, others) =
        round-serves active timeout pool na nt apart
          (repeat epoll fds item limit pollfunc clock work) (outcome fds) resumed resumes fuel now
          es s L v known since short small idx enough in
      let inactive : (q k : Ptr) → has q (L k) ≡ true → s.polls q ≡ quiet = λ q k m.
        v.attached k q (λ e. cc (subst (λ (l : Ptr). has q (L l) ≡ true) e m, none_active)) m in
      let waits : (q : Ptr) → has q xs ≡ true → s.polls q ≡ quiet = λ q m. elim ((members q).0 m) [
        | inl here ↦ inactive q active here
        | inr (inl event) ↦ let (k, at) = hit-has s.owner L es q known event in inactive q k at
        | inr (inr (d, lt, at, over)) ↦ inactive q (slot s.wheel d) at
      ] in
      (
        z,
        M,
        xs,
        run,
        v',
        none_left,
        log
            ∙ ap (λ ys. resumed s.world ++ ys)
                (map-agree (seen (outcome fds) (recorded s.owner es s.polls)) (reply fds s.owner es)
                  xs (λ q m. outcome-recorded fds s.owner es s.polls q (waits q m))),
        once,
        λ q. (
          λ m. elim ((members q).0 m) [ inl here ↦ cc (here, none_active) | inr other ↦ other ],
          λ h. (members q).1 (inr h),
        ),
        λ q h.
            round-again active timeout pool na nt apart
              (repeat epoll fds item limit pollfunc clock work) (outcome fds) resumed resumes
              rejoins fuel now es s z L M v known since short small idx enough run v'.view q
              (inr h),
      )
