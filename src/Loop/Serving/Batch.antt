-- ===== src/Loop/Serving/Batch.antt =====
-- The loop of co_eventloop over the results of epoll (co_routine.cc, lines 703 to 711), any number
-- of events for any coroutines that wait.
use jkyi_libco.Base.{
  ap, ℕ, ◌≡◌, ◌≢◌, refl, ◌∙◌, subst, Bool, true, false, ◌&&◌, ◌||◌, not, Option, none, some, List,
  [], ◌∷◌, inl, inr, eq-cases, Bool-cases, arith, Ptr, null, has, ◌==◌, ltb, ==_refl, if◌then◌else◌,
}
use jkyi_libco.Base.Run.{ok}
use jkyi_libco.Link.{write}
use jkyi_libco.Link.View.{Lists, mem_allocated, allocated}
use jkyi_libco.Link.Move.{moved}
use jkyi_libco.Loop.{Sched, PollState, raise, prepare_all, on_poll_prepare}
use jkyi_libco.Loop.Prepare.{on_poll_prepare_kept}
use jkyi_libco.Loop.Serving.{IsServing}
use jkyi_libco.Loop.Serving.Roused.{Roused, Roused-moved, Roused-again, IsServing-woken}

-- Whether one of the events is for an item of the stPoll_t at `q`.
abbrev pub hit : (Ptr → Option (Ptr × ℕ)) → List (Ptr × ℕ) → Ptr → Bool
hit owner [] q = false
hit owner ((item, mask) ∷ es) q =
    (elim (owner item) as (λ x. Bool) [ none ↦ false | some o ↦ q == o.0 ]) || hit owner es q

-- What the events record, in order.
abbrev pub recorded :
    (Ptr → Option (Ptr × ℕ)) → List (Ptr × ℕ) → (Ptr → PollState) → Ptr → PollState
recorded owner [] f = f
recorded owner ((item, mask) ∷ es) f =
    recorded owner es (elim (owner item) as (λ x. Ptr → PollState) [
      | none ↦ f
      | some o ↦ write f o.0 (raise o.1 mask (f o.0))
    ])

-- Each event is for an item of an stPoll_t that waits, in some list.
abbrev pub Known : (Ptr → Option (Ptr × ℕ)) → Lists → List (Ptr × ℕ) → Type 0
Known owner L [] = Unit {0}
Known owner L ((item, mask) ∷ es) =
    ((p i k : ℕ) × (owner item ≡ some (p, i)) × (has p (L k) ≡ true)) × Known owner L es

Known-kept :
    (active : Ptr) (owner : Ptr → Option (Ptr × ℕ)) (p : Ptr) (L M : Lists) (es : List (Ptr × ℕ))
    → Roused active p L M
    → Known owner L es
    → Known owner M es
Known-kept active owner p L M [] roused h = tt
Known-kept active owner p L M ((item, mask) ∷ es) roused ((q, i, k, o, m), h) =
    let (at_a, off_a) = roused in
    (
      elim (eq-cases q p) [
        | inl e ↦ (q, i, active, o, ground (arith, at_a q, e, ==_refl p))
        | inr ne ↦ elim (eq-cases k active) [
          | inl here ↦ (
            q,
            i,
            active,
            o,
            ground (arith, at_a q, subst (λ (l : Ptr). has q (L l) ≡ true) here m),
          )
          | inr there ↦ (q, i, k, o, ground (arith, off_a k q there, m, ne))
        ]
      ],
      Known-kept active owner p L M es roused h,
    )

module _ {W : Type 0} (active timeout : ℕ) (pool : List Ptr) (apart : active ≢ timeout) where
  module _ (na : active ≢ null) where
    -- One event.
    prepare_one :
        (item mask p i k : Ptr) (s : Sched W) (L : Lists)
        → IsServing active timeout pool s L
        → has p (L k) ≡ true
        → (z : Sched W) × (M : Lists) × (on_poll_prepare active p i mask s ≡ ok z)
          × IsServing active timeout pool z M
          × Roused active p L M
          × (z.wheel ≡ s.wheel)
          × (z.expire ≡ s.expire)
          × (z.world ≡ s.world)
          × (z.owner ≡ s.owner)
          × (z.polls ≡ write s.polls p (raise i mask (s.polls p)))
          × (z.timed_out ≡ s.timed_out)
          × ((q : Ptr) → allocated z.timers q ≡ allocated s.timers q)
    prepare_one item mask p i k s L v m =
        let (n, at, link) = mem_allocated s.timers L p k v.view m in
        let (
          z, run, view, raised, revents, detached, world, same, wheel, expire, marks, polls, owner,
        ) =
          on_poll_prepare_kept active p i mask s L n v.view at na in
        let M : Lists = if (s.polls p).detached then L else moved active p L in
        let fit : (s.timed_out p && ltb s.wheel.start (s.expire p)) ≡ false =
          elim (eq-cases k active) [
            | inl here ↦ v.ready p (subst (λ (l : Ptr). has p (L l) ≡ true) here m)
            | inr there ↦ ground (arith, v.unmarked k p there m)
          ] in
        let roused : Roused active p L M = elim (Bool-cases (s.polls p).detached) [
          | inl again ↦
              let here : k ≡ active = elim (eq-cases k active) [
                | inl e ↦ e
                | inr ne ↦ absurd (cc (ap (λ q. q.detached) (v.attached k p ne m), again))
              ] in
              rw again (
                Roused-again active timeout pool apart s L p v.view
                  (subst (λ (l : Ptr). has p (L l) ≡ true) here m))
          | inr first ↦ rw first (Roused-moved active timeout pool apart s L p v.view)
        ] in
        (
          z,
          M,
          run,
          IsServing-woken active timeout pool apart s z L M p v (v.pooled k p m) fit roused view
              wheel expire marks (λ q ne. ap (λ f. f q) polls ∙ ground (arith, ne)),
          roused,
          wheel,
          expire,
          world,
          owner,
          polls,
          marks,
          same,
        )

    -- All events: the stPoll_ts that have one are active now, in addition to what was; no other
    -- item has moved, and what has been recorded for each is what its events say, in order.
    pub prepare-serves :
        (es : List (Ptr × ℕ)) (s : Sched W) (L : Lists)
        → IsServing active timeout pool s L
        → Known s.owner L es
        → (z : Sched W) × (M : Lists) × (prepare_all active es s ≡ ok z)
          × IsServing active timeout pool z M
          × ((q : Ptr) → has q (M active) ≡ (has q (L active) || hit s.owner es q))
          × ((k q : Ptr) → k ≢ active → has q (M k) ≡ (has q (L k) && not (hit s.owner es q)))
          × (z.wheel ≡ s.wheel)
          × (z.expire ≡ s.expire)
          × (z.world ≡ s.world)
          × (z.owner ≡ s.owner)
          × (z.polls ≡ recorded s.owner es s.polls)
          × (z.timed_out ≡ s.timed_out)
          × ((q : Ptr) → allocated z.timers q ≡ allocated s.timers q)
    unfolding prepare_all
    prepare-serves [] s L v h = (
      s,
      L,
      refl,
      v,
      λ q. ground arith,
      λ k q ne. ground arith,
      refl,
      refl,
      refl,
      refl,
      refl,
      refl,
      λ q. refl,
    )
    prepare-serves ((item, mask) ∷ es) s L v ((p, i, k, o, m), h) =
        let (u, N, run, v₁, roused, wheel, expire, world, owner, polls, marks, same) =
          prepare_one item mask p i k s L v m in
        let known : Known u.owner N es = rw owner (Known-kept active s.owner p L N es roused h) in
        let (z, M, run', v', at_a, off_a, wheel', expire', world', owner', polls', marks', same') =
          prepare-serves es u N v₁ known in
        (
          z,
          M,
          rw (o, run) run',
          v',
          λ q. ground (arith, at_a q, roused.0 q, o, owner),
          λ j q ne. ground (arith, off_a j q ne, roused.1 j q ne, o, owner),
          wheel' ∙ wheel,
          expire' ∙ expire,
          world' ∙ world,
          owner' ∙ owner,
          polls' ∙ rw (owner, polls, o) refl,
          marks' ∙ marks,
          λ q. same' q ∙ same q,
        )
