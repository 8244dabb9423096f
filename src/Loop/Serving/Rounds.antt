-- ===== src/Loop/Serving/Rounds.antt =====
-- Any number of rounds of co_eventloop (co_routine.cc, lines 689 to 748), with coroutines that wait
-- again and with any events.
use jkyi_libco.Base.{
  ℕ, ◌+◌, ◌-◌, ◌^◌, ◌≤◌, ◌<◌, ◌≡◌, ◌≢◌, ◌⊎◌, refl, sym, ap, ◌∙◌, subst, true, ◌||◌, Option, some,
  List, [], ◌∷◌, map, ◌++◌, append-nil, append_assoc, inl, inr, Bool-cases, arith, Ptr, null,
  length, has, has-append,
}
use mathlib.Core.List.{map-append}
use native.Mathlib.Decide.{dec_lt}
use jkyi_libco.Base.Run.{Run, ok}
use jkyi_libco.Link.{Store, Node}
use jkyi_libco.Link.View.{Lists, Represents}
use jkyi_libco.Timeout.{slot}
use jkyi_libco.Timeout.Slots.{slot_turn}
use jkyi_libco.Timeout.Expiry.{count_due, turned}
use jkyi_libco.Loop.{Sched, PollState, round}
use jkyi_libco.Loop.Serving.{IsServing, Resumes, seen, map-seen}
use jkyi_libco.Loop.Serving.Batch.{Known, recorded}
use jkyi_libco.Loop.Serving.Turn.{round-serves}

-- Each event is for an item of an stPoll_t that waits: it is allocated, and in a list.
abbrev pub Waiting : (Ptr → Option (Ptr × ℕ)) → Store → List (Ptr × ℕ) → Type 0
Waiting owner t [] = Unit {0}
Waiting owner t ((item, mask) ∷ es) =
    ((p i : ℕ) × (n : Node) × (owner item ≡ some (p, i)) × (t.node p ≡ some n) × (n.link ≢ null))
    × Waiting owner t es

Waiting-Known :
    (owner : Ptr → Option (Ptr × ℕ)) (t : Store) (L : Lists) (es : List (Ptr × ℕ))
    → Represents t L
    → Waiting owner t es
    → Known owner L es
Waiting-Known owner t L [] r h = tt
Waiting-Known owner t L ((item, mask) ∷ es) r ((p, i, n, o, at, linked), h) =
    ((p, i, n.link, o, r.member p n at linked), Waiting-Known owner t L es r h)

-- One round after the other, none of which faults. The clock does not go back, and advances by less
-- than 2 ^ 31 - 1 milliseconds from one to the next.
pub data Rounds {W : Type 0} (fuel active timeout : ℕ) (process : Ptr → Sched W → Run (Sched W))
    : Sched W → Sched W → Type 0 where
  rest : {s : Sched W} → Rounds fuel active timeout process s s
  turn :
      {s u z : Sched W} (now : ℕ) (es : List (Ptr × ℕ))
      → Waiting s.owner s.timers es
      → s.wheel.start ≤ now
      → now - s.wheel.start + 1 < 2 ^ 31
      → now < 2 ^ 62
      → s.wheel.idx + (now - s.wheel.start) < 2 ^ 62
      → round fuel active timeout es now process s ≡ ok u
      → Rounds fuel active timeout process u z
      → Rounds fuel active timeout process s z

-- Where an item of the wheel stands after the wheel has turned.
pub place_turned :
    {W : Type 0} (active timeout now : ℕ) (pool : List Ptr) (s : Sched W) (L : Lists) (q d : Ptr)
    → IsServing active timeout pool s L
    → s.wheel.start ≤ now
    → d < s.wheel.size
    → has q (L (slot s.wheel d)) ≡ true
    → now < s.expire q
    → let e = d - (count_due s.wheel now - 1) in
      (e < s.wheel.size) × (slot (turned s.wheel now) e ≡ slot s.wheel d)
place_turned active timeout now pool s L q d v since lt m early =
    let k = count_due s.wheel now - 1 in
    let at : s.wheel.start + d ≡ s.expire q = v.on_time d q lt m in
    let e : k + (d - k) ≡ d = omega (arith, at) in
    (
      omega arith,
      slot_turn s.wheel v.wheel now k (d - k) (omega (arith, e, v.wheel.int_size))
          ∙ ap (slot s.wheel) e,
    )

module _ {W A : Type 0} (active timeout : ℕ) (pool : List Ptr) (na : active ≢ null)
    (nt : timeout ≢ null) (apart : active ≢ timeout) (process : Ptr → Sched W → Run (Sched W))
    (report : Ptr → PollState → A) (resumed : W → List (Ptr × A))
    (resumes : Resumes active timeout pool process report resumed) (fuel : ℕ)
    (enough : length pool < fuel) where
  -- What rounds leave: an item of the wheel has been resumed, or it stands there still.
  abbrev Served : (s z : Sched W) → Lists → Type 0
  Served s z L =
      (M : Lists) × (ys : List (Ptr × A)) × IsServing active timeout pool z M
      × (resumed z.world ≡ resumed s.world ++ ys)
      × ((q d : Ptr)
          → d < s.wheel.size
          → has q (L (slot s.wheel d)) ≡ true
          → (has q (map (λ y. y.0) ys) ≡ true)
            ⊎ ((e : ℕ) × (e < z.wheel.size)
                × (has q (M (slot z.wheel e)) ≡ true)
                × (z.expire q ≡ s.expire q)))

  -- A round that ends in `u` leaves `u` as round-serves says.
  abbrev Turned : (now : ℕ) (es : List (Ptr × ℕ)) (s u : Sched W) → Lists → Type 0
  Turned now es s u L =
      (N : Lists) × (xs : List Ptr) × IsServing active timeout pool u N
      × (u.wheel ≡ turned s.wheel now)
      × (resumed u.world ≡ resumed s.world ++ map (seen report (recorded s.owner es s.polls)) xs)
      × ((q d : Ptr)
          → d < s.wheel.size
          → has q (L (slot s.wheel d)) ≡ true
          → (has q xs ≡ true)
            ⊎ ((now < s.expire q)
                × (has q (N (slot s.wheel d)) ≡ true)
                × (u.expire q ≡ s.expire q)))

  round-Turned :
      (now : ℕ) (es : List (Ptr × ℕ)) (s u : Sched W) (L : Lists)
      → IsServing active timeout pool s L
      → Waiting s.owner s.timers es
      → s.wheel.start ≤ now
      → now - s.wheel.start + 1 < 2 ^ 31
      → now < 2 ^ 62
      → s.wheel.idx + (now - s.wheel.start) < 2 ^ 62
      → round fuel active timeout es now process s ≡ ok u
      → Turned now es s u L
  round-Turned now es s u L v waiting since short small idx run =
      let (u', N, xs, run', v', none_left, wheel, log, once, members, others) =
        round-serves active timeout pool na nt apart process report resumed resumes fuel now es s L
          v (Waiting-Known s.owner s.timers L es v.view waiting) since short small idx enough in
      let same : u' ≡ u = cc (sym run' ∙ run) in
      subst (λ (y : Sched W). Turned now es s y L) same
        (
          N,
          xs,
          v',
          wheel,
          log,
          λ q d lt m. elim (Bool-cases (has q xs)) [
            | inl hit ↦ inl hit
            | inr out ↦ elim (dec_lt now (s.expire q)) [
              | yes early ↦
                  let (here, until, poll) = others q d lt out m in inr (early, here, until)
              | no over ↦ inl ((members q).1 (inr (inr (d, lt, m, omega (arith, over)))))
            ]
          ],
        )

  -- A round and what comes after it.
  round_then :
      (now : ℕ) (es : List (Ptr × ℕ)) (s u z : Sched W) (L : Lists)
      → IsServing active timeout pool s L
      → s.wheel.start ≤ now
      → (t : Turned now es s u L) → Served u z t.0
      → Served s z L
  round_then now es s u z L v since (N, xs, v', wheel, log, first) (M, ys, v₂, log', served) =
      let before = map (seen report (recorded s.owner es s.polls)) xs in
      let both : (q : Ptr)
          → has q (map (λ (y : Ptr × A). y.0) (before ++ ys))
            ≡ (has q xs || has q (map (λ (y : Ptr × A). y.0) ys)) =
        λ q.
          rw
            (
              map-append (λ (y : Ptr × A). y.0) before ys,
              map-seen report (recorded s.owner es s.polls) xs,
            )
            (has-append q xs (map (λ (y : Ptr × A). y.0) ys)) in
      (
        M,
        before ++ ys,
        v₂,
        log' ∙ rw log (append_assoc (resumed s.world) before ys),
        λ q d lt m. elim (first q d lt m) [
          | inl hit ↦ inl (ground (arith, both q, hit))
          | inr (early, here, until) ↦
              let (small, place) =
                place_turned active timeout now pool s L q d v since lt m early in
              let e = d - (count_due s.wheel now - 1) in
              elim (served q e (rw wheel small) (rw (wheel, place) here)) [
                | inl later ↦ inl (ground (arith, both q, later))
                | inr (e', lt', m', until') ↦ inr (e', lt', m', until' ∙ until)
              ]
        ],
      )

  Rounds-Served :
      (s z : Sched W) (L : Lists)
      → IsServing active timeout pool s L
      → Rounds fuel active timeout process s z
      → Served s z L
  Rounds-Served s z L v rest =
      (L, [], v, sym (append-nil (resumed s.world)), λ q d lt m. inr (d, lt, m, refl))
  Rounds-Served s z L v (turn {u = u} now es waiting since short small idx run more) =
      let t = round-Turned now es s u L v waiting since short small idx run in
      round_then now es s u z L v since t (Rounds-Served u z t.0 t.2 more)

  -- The clock does not go back, and advances by less than 2 ^ 31 - 1 milliseconds from one round to
  -- the next; `fuel` is more than the items in use. Whatever events come, and however often
  -- coroutines wait again, after any number of rounds the state of the loop is as before, and every
  -- timer that stood on the wheel and whose deadline the wheel has passed has been resumed.
  pub Rounds-IsServing :
      (s z : Sched W) (L : Lists)
      → IsServing active timeout pool s L
      → Rounds fuel active timeout process s z
      → (M : Lists) × (ys : List (Ptr × A)) × IsServing active timeout pool z M
        × (resumed z.world ≡ resumed s.world ++ ys)
        × ((q d : Ptr)
            → d < s.wheel.size
            → has q (L (slot s.wheel d)) ≡ true
            → s.expire q < z.wheel.start
            → has q (map (λ y. y.0) ys) ≡ true)
  Rounds-IsServing s z L v run =
      let (M, ys, v', log, served) = Rounds-Served s z L v run in
      (
        M,
        ys,
        v',
        log,
        λ q d lt m over. elim (served q d lt m) [
          | inl hit ↦ hit
          | inr (e, lt', here, until) ↦ absurd (omega (arith, v'.on_time e q lt' here, until, over))
        ],
      )
