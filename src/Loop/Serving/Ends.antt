-- ===== src/Loop/Serving/Ends.antt =====
-- co_eventloop (co_routine.cc, lines 689 to 748) goes on until a coroutine that waits has been
-- resumed, also where coroutines wait again.
use jkyi_libco.Base.{
  ℕ, ◌+◌, ◌-◌, ◌^◌, ◌≤◌, ◌<◌, ◌≡◌, ◌≢◌, sym, ap, ◌∙◌, subst, true, false, Bool, List, [], ◌∷◌, map,
  ◌++◌, inl, inr, Bool-cases, arith, Ptr, null, length, has, has-append, last_or,
}
use mathlib.Core.List.{map-append}
use native.Mathlib.Decide.{dec_lt}
use jkyi_libco.Base.Run.{Run, ok}
use jkyi_libco.Link.View.{Lists}
use jkyi_libco.Timeout.{slot}
use jkyi_libco.Timeout.Expiry.{count_due}
use jkyi_libco.Loop.{Sched, PollState, round, co_eventloop}
use jkyi_libco.Loop.Live.{Steady, Steady-last, loop_stops, loop_goes_on}
use jkyi_libco.Loop.Serving.{IsServing, Resumes, seen, map-seen}
use jkyi_libco.Loop.Serving.Turn.{round-serves}
use jkyi_libco.Loop.Serving.Rounds.{place_turned}

module _ {W A : Type 0} (active timeout : ℕ) (pool : List Ptr) (na : active ≢ null)
    (nt : timeout ≢ null) (apart : active ≢ timeout) (process : Ptr → Sched W → Run (Sched W))
    (report : Ptr → PollState → A) (resumed : W → List (Ptr × A))
    (resumes : Resumes active timeout pool process report resumed) (pfn : W → Bool × W)
    (done : W → Bool) (asks : (w : W) → pfn w ≡ (done w, w)) (p : Ptr)
    (wakes : (w : W) → has p (map (λ y. y.0) (resumed w)) ≡ true → done w ≡ true) (fuel : ℕ)
    (enough : length pool < fuel) where
  -- A coroutine that has been resumed is in the log.
  logged :
      (before : List (Ptr × A)) (f : Ptr → PollState) (xs : List Ptr) (w : W)
      → resumed w ≡ before ++ map (seen report f) xs
      → has p xs ≡ true
      → done w ≡ true
  logged before f xs w log m =
      let names : map (λ (y : Ptr × A). y.0) (resumed w) ≡ map (λ (y : Ptr × A). y.0) before ++ xs =
        ap (map (λ (y : Ptr × A). y.0)) log
        ∙ map-append (λ (y : Ptr × A). y.0) before (map (seen report f) xs)
        ∙ ap (λ ys. map (λ (y : Ptr × A). y.0) before ++ ys) (map-seen report f xs) in
      wakes w (rw names (ground (arith, m, has-append p (map (λ (y : Ptr × A). y.0) before) xs)))

  -- The loop ends from `s` on.
  abbrev Ends : List (List (Ptr × ℕ) × ℕ) → Sched W → Type 0
  Ends rounds s =
      (z : Sched W) × (M : Lists) × (co_eventloop fuel active timeout rounds process pfn s ≡ ok z)
      × (done z.world ≡ true)
      × IsServing active timeout pool z M

  -- A round after which the loop goes on.
  Ends-round :
      (now : ℕ) (rounds : List (List (Ptr × ℕ) × ℕ)) (s z : Sched W)
      → round fuel active timeout [] now process s ≡ ok z
      → done z.world ≡ false
      → Ends rounds z
      → Ends (([], now) ∷ rounds) s
  Ends-round now rounds s z run on (u, M, ends, stop, v) = (
    u,
    M,
    loop_goes_on active timeout process pfn done asks fuel now [] rounds s z run on ∙ ends,
    stop,
    v,
  )

  -- Coroutines that are resumed free what they wait with and may wait again. The rounds have no
  -- events, and the caller's function stops the loop as soon as `done` holds, which it does when the
  -- coroutine of `p` has been resumed. The timer `p` stands on the wheel; the times of the rounds do
  -- not go back and advance by less than 2 ^ 31 - 1 milliseconds, and the last of them is not before its
  -- deadline; `fuel` is more than the number of items in use. Then co_eventloop ends without a
  -- fault, `done` holds, and the state is as between two rounds.
  pub co_eventloop-serves :
      (now : ℕ) (times : List ℕ) (s : Sched W) (L : Lists) (d : ℕ)
      → IsServing active timeout pool s L
      → d < s.wheel.size
      → has p (L (slot s.wheel d)) ≡ true
      → Steady s.wheel.start (now ∷ times)
      → s.expire p ≤ last_or times now
      → last_or times now < 2 ^ 62
      → s.wheel.idx + (last_or times now - s.wheel.start) < 2 ^ 62
      → (z : Sched W) × (M : Lists) × (co_eventloop fuel active timeout
            (map (λ t. ([], t)) (now ∷ times))
            process
            pfn
            s
          ≡ ok z)
        × (done z.world ≡ true)
        × IsServing active timeout pool z M
  co_eventloop-serves now [] s L d v lt m steady over small idx =
      let (z, M, xs, run, v', none_left, wheel, log, once, members, others) =
        round-serves active timeout pool na nt apart process report resumed resumes fuel now [] s L
          v tt steady.0 steady.1 small idx enough in
      let stop : done z.world ≡ true =
        logged (resumed s.world) s.polls xs z.world log
          ((members p).1 (inr (inr (d, lt, m, over)))) in
      (z, M, loop_stops active timeout process pfn done asks fuel now [] [] s z run stop, stop, v')
  co_eventloop-serves now (next ∷ times) s L d v lt m steady over small idx =
      let later : now ≤ last_or times next = Steady-last now (next ∷ times) steady.2 in
      let small_now : now < 2 ^ 62 = omega (arith, later, small) in
      let (z, M, xs, run, v', none_left, wheel, log, once, members, others) =
        round-serves active timeout pool na nt apart process report resumed resumes fuel now [] s L
          v tt steady.0 steady.1 small_now (omega (arith, later, idx)) enough in
      let rest : List (List (Ptr × ℕ) × ℕ) = map (λ t. ([], t)) (next ∷ times) in
      elim (Bool-cases (done z.world)) [
        | inl stop ↦ (
          z,
          M,
          loop_stops active timeout process pfn done asks fuel now [] rest s z run stop,
          stop,
          v',
        )
        | inr on ↦
            let out : has p xs ≡ false = elim (Bool-cases (has p xs)) [
              | inl hit ↦ cc (logged (resumed s.world) s.polls xs z.world log hit, on)
              | inr out ↦ out
            ] in
            let early : now < s.expire p = elim (dec_lt now (s.expire p)) [
              | yes h ↦ h
              | no h ↦ cc ((members p).1 (inr (inr (d, lt, m, omega (arith, h)))), out)
            ] in
            let (small_e, place) =
              place_turned active timeout now pool s L p d v steady.0 lt m early in
            let (here, until, poll) = others p d lt out m in
            let e = d - (count_due s.wheel now - 1) in
            Ends-round now (map (λ t. ([], t)) (next ∷ times)) s z run on (
              co_eventloop-serves next times z M e v' (rw wheel small_e) (rw (wheel, place) here)
                (subst (λ w. Steady w.start (next ∷ times)) (sym wheel) steady.2)
                (omega (arith, until, over)) small
                (subst (λ w. w.idx + (last_or times next - w.start) < 2 ^ 62) (sym wheel)
                  (omega (arith, steady.0, later, idx))))
      ]
