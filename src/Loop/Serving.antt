-- ===== src/Loop/Serving.antt =====
-- co_eventloop (co_routine.cc, lines 689 to 748) with coroutines that change the timers while they
-- run: they free the timer that has woken them and wait again.
pub mod Pass
pub mod Roused
pub mod Batch
pub mod Front
pub mod Ready
pub mod Turn
pub mod Again
pub mod Rounds
pub mod Ends
pub mod Waking
pub mod Counted
use jkyi_libco.Base.{
  ap, map, refl, ℕ, ◌≡◌, ◌≢◌, ◌≤◌, Bool, true, false, ◌&&◌, List, [], ◌∷◌, ◌++◌, Ptr, has, ltb,
  length, length-within,
}
use jkyi_libco.Base.Run.{Run, ok}
use jkyi_libco.Link.View.{Lists, Represents, allocated}
use jkyi_libco.Timeout.Slots.{IsWheel, IsSlot}
use jkyi_libco.Timeout.Add.{OnTime}
use jkyi_libco.Loop.{Sched, PollState}

-- An stPoll_t without an event.
abbrev pub quiet : PollState
quiet = record { raised = 0; detached = false; revents = λ i. 0 }

-- The lists are `L`; `active` and `timeout` are no slots of the wheel, and `timeout` is empty. Every
-- timer on the wheel stands in the slot of its deadline; what is not active is not marked as timed
-- out and has no event; what is active and marked as timed out has a deadline that is over.
-- The wheel has the size that AllocEpoll gives it, or more, and all items are among those of `pool`.
pub record IsServing {W : Type 0} (active timeout : ℕ) (pool : List Ptr) (s : Sched W) (L : Lists)
    : Type 0 where
  pub view : Represents s.timers L
  pub wheel : IsWheel s.wheel
  pub out_a : ¬ (IsSlot s.wheel active)
  pub out_t : ¬ (IsSlot s.wheel timeout)
  pub idle : L timeout ≡ []
  pub on_time : OnTime s.wheel L s.expire
  pub unmarked : (k x : Ptr) → k ≢ active → has x (L k) ≡ true → s.timed_out x ≡ false
  pub attached : (k x : Ptr) → k ≢ active → has x (L k) ≡ true → s.polls x ≡ quiet
  pub ready :
      (x : Ptr)
      → has x (L active) ≡ true
      → (s.timed_out x && ltb s.wheel.start (s.expire x)) ≡ false
  pub room : 60000 ≤ s.wheel.size
  pub pooled : (k x : Ptr) → has x (L k) ≡ true → has x pool ≡ true

-- `q` may be made active: its item is in use, and it is not marked as timed out before its time.
abbrev pub Fit : {W : Type 0} → List Ptr → Sched W → Ptr → Type 0
Fit pool s q =
    (allocated s.timers q ≡ true)
    × (has q pool ≡ true)
    × ((s.timed_out q && ltb s.wheel.start (s.expire q)) ≡ false)

-- An item, and what its coroutine learns from the events that are recorded for it.
abbrev pub seen : {A : Type 0} → (Ptr → PollState → A) → (Ptr → PollState) → Ptr → Ptr × A
seen report polls q = (q, report q (polls q))

pub map-seen :
    {A : Type 0} (report : Ptr → PollState → A) (f : Ptr → PollState) (xs : List Ptr)
    → map (λ (y : Ptr × A). y.0) (map (seen report f) xs) ≡ xs
map-seen report f [] = refl
map-seen report f (x ∷ xs) = ap (◌∷◌ x) (map-seen report f xs)

module _ {W A : Type 0} (active timeout : ℕ) (pool : List Ptr)
    (process : Ptr → Sched W → Run (Sched W)) (report : Ptr → PollState → A)
    (resumed : W → List (Ptr × A)) where
  -- What the coroutine of `p` may do when it is resumed, in a state where `p` is in no list: it does
  -- not fault, the state is as before again, the active list is the same, and so is the wheel, and
  -- every other item is where it was, with its deadline and with what has been recorded for it.
  -- `resumed` reads off the world which items have been resumed, in order, and what each of them has
  -- learnt, which is `report` of the events recorded for it.
  abbrev pub Resumes : Type 0
  Resumes =
      (p : Ptr) (s : Sched W) (L : Lists)
      → IsServing active timeout pool s L
      → allocated s.timers p ≡ true
      → has p pool ≡ true
      → ((k : Ptr) → has p (L k) ≡ false)
      → (z : Sched W) × (M : Lists) × (process p s ≡ ok z)
        × IsServing active timeout pool z M
        × (M active ≡ L active)
        × (z.wheel ≡ s.wheel)
        × (resumed z.world ≡ resumed s.world ++ seen report s.polls p ∷ [])
        × ((q k : Ptr)
            → q ≢ p
            → has q (L k) ≡ true
            → (has q (M k) ≡ true) × (z.expire q ≡ s.expire q) × (z.polls q ≡ s.polls q))

-- No list is longer than the pool.
pub length-serving :
    {W : Type 0} (active timeout : ℕ) (pool : List Ptr) (s : Sched W) (L : Lists) (k : Ptr)
    → IsServing active timeout pool s L
    → length (L k) ≤ length pool
length-serving active timeout pool s L k x =
    length-within (L k) pool (x.view.distinct k) (x.pooled k)
