-- ===== src/Loop/Live.antt =====
-- co_eventloop (co_routine.cc, lines 689 to 748) goes on until a waiting item has been processed.
use jkyi_libco.Base.{
  ℕ, ◌+◌, ◌-◌, ◌*◌, ◌^◌, ◌≤◌, ◌<◌, ◌≡◌, ◌≢◌, ◌⊎◌, refl, sym, ap, true, false, List, [], ◌∷◌, map,
  inl, inr, Bool-cases, arith, Ptr, null, has, subst, Bool, last_or, ◌∙◌, ◌==◌,
}
use jkyi_libco.Base.Run.{Run, ok}
use jkyi_libco.Loop.{Sched, round, co_eventloop}
use jkyi_libco.Loop.Drain.{run_all}
use jkyi_libco.Loop.Wakes.{Waits, round_wakes}

-- Each time is not before the one before it, and less than 2 ^ 31 - 1 milliseconds after it.
abbrev pub Steady : ℕ → List ℕ → Type 0
Steady before [] = Unit {0}
Steady before (now ∷ times) = (before ≤ now) × (now - before + 1 < 2 ^ 31) × Steady now times

pub Steady-last :
    (before : ℕ) (times : List ℕ) → Steady before times → before ≤ last_or times before
Steady-last before [] h = omega arith
Steady-last before (now ∷ times) h = omega (arith, h.0, Steady-last now times h.2)

module _ {W : Type 0} (act : Ptr → W → W) (done : W → Bool) (p : Ptr)
    (wakes : (w : W) → done (act p w) ≡ true)
    (keeps : (q : Ptr) (w : W) → done w ≡ true → done (act q w) ≡ true) where
  done_run : (xs : List Ptr) (w : W) → done w ≡ true → done (run_all act xs w) ≡ true
  done_run [] w h = h
  done_run (x ∷ xs) w h = done_run xs (act x w) (keeps x w h)

  done-run_all : (xs : List Ptr) (w : W) → has p xs ≡ true → done (run_all act xs w) ≡ true
  done-run_all [] w h = cc
  done-run_all (x ∷ xs) w h = elim (Bool-cases (p == x)) [
    | inl e ↦ done_run xs (act x w) (ground (arith, wakes w))
    | inr ne ↦ done-run_all xs (act x w) (ground (arith, ne))
  ]

module _ {W : Type 0} (active timeout : ℕ) (process : Ptr → Sched W → Run (Sched W))
    (pfn : W → Bool × W) (done : W → Bool) (asks : (w : W) → pfn w ≡ (done w, w)) where
  pub loop_stops :
      (fuel now : ℕ) (es : List (Ptr × ℕ)) (rest : List (List (Ptr × ℕ) × ℕ)) (s z : Sched W)
      → round fuel active timeout es now process s ≡ ok z
      → done z.world ≡ true
      → co_eventloop fuel active timeout ((es, now) ∷ rest) process pfn s ≡ ok z
  unfolding co_eventloop
  loop_stops fuel now es rest s z run stop =
      let test : (pfn z.world).0 ≡ true = ap (λ x. x.0) (asks z.world) ∙ stop in
      let same : (pfn z.world).1 ≡ z.world = ap (λ x. x.1) (asks z.world) in
      rw (run, test, same) refl

  pub loop_goes_on :
      (fuel now : ℕ) (es : List (Ptr × ℕ)) (rest : List (List (Ptr × ℕ) × ℕ)) (s z : Sched W)
      → round fuel active timeout es now process s ≡ ok z
      → done z.world ≡ false
      → co_eventloop fuel active timeout ((es, now) ∷ rest) process pfn s
        ≡ co_eventloop fuel active timeout rest process pfn z
  unfolding co_eventloop
  loop_goes_on fuel now es rest s z run on =
      let test : (pfn z.world).0 ≡ false = ap (λ x. x.0) (asks z.world) ∙ on in
      let same : (pfn z.world).1 ≡ z.world = ap (λ x. x.1) (asks z.world) in
      rw (run, test, same) refl

module _ {W : Type 0} (active timeout p most : ℕ) (na : active ≢ null) (nt : timeout ≢ null)
    (apart : active ≢ timeout) (process : Ptr → Sched W → Run (Sched W)) (act : Ptr → W → W)
    (runs : (q : Ptr) (s : Sched W) → process q s ≡ ok (record s { world = act q s.world }))
    (pfn : W → Bool × W) (done : W → Bool) (asks : (w : W) → pfn w ≡ (done w, w))
    (wakes : (w : W) → done (act p w) ≡ true)
    (keeps : (q : Ptr) (w : W) → done w ≡ true → done (act q w) ≡ true) where
  -- The loop ends from `s` on, with `done`.
  abbrev Ends : ℕ → List (List (Ptr × ℕ) × ℕ) → Sched W → Type 0
  Ends fuel rest s =
      (z : Sched W) × (co_eventloop fuel active timeout rest process pfn s ≡ ok z)
      × (done z.world ≡ true)

  -- A round that has processed the item is the last one; else the rest of the loop counts.
  Ends-round :
      (fuel now : ℕ) (rest : List (List (Ptr × ℕ) × ℕ)) (s z : Sched W) (xs : List Ptr)
      → round fuel active timeout [] now process s ≡ ok z
      → z.world ≡ run_all act xs s.world
      → (has p xs ≡ true) ⊎ Ends fuel rest z
      → Ends fuel (([], now) ∷ rest) s
  Ends-round fuel now rest s z xs run world (inl hit) =
      let stop : done z.world ≡ true =
        rw world (done-run_all act done p wakes keeps xs s.world hit) in
      (z, loop_stops active timeout process pfn done asks fuel now [] rest s z run stop, stop)
  Ends-round fuel now rest s z xs run world (inr (u, ends, stop)) =
      elim (Bool-cases (done z.world)) [
        | inl here ↦
            (z, loop_stops active timeout process pfn done asks fuel now [] rest s z run here, here)
        | inr on ↦ (
          u,
          loop_goes_on active timeout process pfn done asks fuel now [] rest s z run on ∙ ends,
          stop,
        )
      ]

  -- The rounds have no events, processing an item leaves the timers and the lists alone, and the
  -- caller's function stops the loop as soon as `done` holds of the world, which processing `p`
  -- brings about and no other item undoes. The item `p` waits on the wheel; the times of the rounds
  -- do not go back and advance by less than 2 ^ 31 - 1 milliseconds, and the last of them is not before
  -- its deadline; `fuel` is more than the items that a round can find. Then co_eventloop ends
  -- without a fault, and `done` holds: whatever else is on the wheel, the item is not left waiting.
  pub co_eventloop_ends :
      (fuel now : ℕ) (times : List ℕ) (s : Sched W)
      → Waits active timeout p most s
      → Steady s.wheel.start (now ∷ times)
      → s.expire p ≤ last_or times now
      → last_or times now < 2 ^ 62
      → s.wheel.idx + (last_or times now - s.wheel.start) < 2 ^ 62
      → most < fuel
      → most + s.wheel.size * most < fuel
      → (z : Sched W) × (co_eventloop fuel active timeout
            (map (λ t. ([], t)) (now ∷ times))
            process
            pfn
            s
          ≡ ok z)
        × (done z.world ≡ true)
  co_eventloop_ends fuel now [] s x steady over small idx enough more =
      let (z, xs, run, world, wheel, expire, rest) =
        round_wakes active timeout p most na nt apart process act runs s now fuel x steady.0
          steady.1 small idx enough more in
      Ends-round fuel now [] s z xs run world
        (elim rest [ inl hit ↦ inl hit | inr (early, left) ↦ absurd (omega (arith, early, over)) ])
  co_eventloop_ends fuel now (next ∷ times) s x steady over small idx enough more =
      let later : now ≤ last_or times next = Steady-last now (next ∷ times) steady.2 in
      let (z, xs, run, world, wheel, expire, rest) =
        round_wakes active timeout p most na nt apart process act runs s now fuel x steady.0
          steady.1 (omega (arith, small)) (omega (arith, steady.0, idx)) enough more in
      Ends-round fuel now (map (λ t. ([], t)) (next ∷ times)) s z xs run world (elim rest [
        | inl hit ↦ inl hit
        | inr (early, left) ↦ inr (
            co_eventloop_ends fuel next times z left
              (subst (λ w. Steady w.start (next ∷ times)) (sym wheel) steady.2)
              (subst (λ (f : Ptr → ℕ). f p ≤ last_or times next) (sym expire) over) small
              (subst (λ w. w.idx + (last_or times next - w.start) < 2 ^ 62) (sym wheel)
                (omega (arith, steady.0, idx, later)))
              enough (subst (λ w. most + w.size * most < fuel) (sym wheel) more))
      ])
