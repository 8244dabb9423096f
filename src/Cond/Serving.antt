-- ===== src/Cond/Serving.antt =====
-- Coroutines that run on in co_cond_timedwait and call co_cond_signal (co_routine.cc, lines 980 to 991
-- and 1024 to 1027) while co_eventloop resumes them (lines 723 to 740).
use jkyi_libco.Base.{
  ℕ, suc, ◌+◌, tail, sym, if◌then◌else◌, has-append, ◌-◌, ◌≤◌, ◌≡◌, ◌≢◌, ◌⊎◌, refl, Bool, true,
  false, List, [], ◌∷◌, ◌++◌, map, inl, inr, eq-cases, Bool-cases, arith, Ptr, null, cons-cases,
  length, length-append, has, ==_refl, subst, ◌∙◌, ap, erase, length-erase, erase_absent, has-erase,
  has-erase_other, some,
}
use jkyi_libco.Base.Run.{Run, ok, ◌>>=◌}
use jkyi_libco.Link.{Store, write}
use jkyi_libco.Link.View.{Lists, Represents, allocated, mem_allocated}
use jkyi_libco.Link.Alloc.{free_of_absent}
use jkyi_libco.Link.Remove.{without}
use jkyi_libco.Cond.{Sync, timeout_of, cond_signal, timedwait_end}
use jkyi_libco.Cond.Signal.{allocated-node, woken, cond_signal-empty, cond_signal-fifo}
use jkyi_libco.Cond.Wait.{timedwait_end-frees}
use jkyi_libco.Loop.{Sched}
use jkyi_libco.Loop.Serving.{IsServing, Fit}
use jkyi_libco.Loop.Serving.Roused.{IsServing-woken, Roused-moved}
use jkyi_libco.Loop.Serving.Waking.{Wakes}

-- The items of the condition variables, and the timers whose coroutines have been resumed.
pub record Queue : Type 0 where
  pub items : Store
  pub resumed : List Ptr

-- What co_cond_signal sees of the loop.
abbrev pub shared : Sched Queue → Sync
shared s = record {
  items = s.world.items;
  timers = s.timers;
  wheel = s.wheel;
  expire = s.expire;
  arg = λ q. q;
}

abbrev pub noted : Ptr → Store → Store → Sched Queue → Sched Queue
noted p items timers s = record s {
  timers = timers;
  world = record { items = items; resumed = s.world.resumed ++ p ∷ [] };
}

-- The coroutine of `p` runs on. If it waits in co_cond_timedwait, its item stands in front of its
-- timer, and it runs the second half of that function. Then it signals the condition variable `si`, if
-- it is one that `speaks`.
unfoldable pub signals : (active si : Ptr) → (Ptr → Bool) → Ptr → Sched Queue → Run (Sched Queue)
signals active si speaks p s = do
  y ← elim (allocated s.world.items (p - 24)) as (λ b. Run Sync) [
    | true ↦ timedwait_end (p - 24) (shared s)
    | false ↦ ok (shared s)
  ]
  y ← elim (speaks p) as (λ b. Run Sync) [ true ↦ cond_signal active si y | false ↦ ok y ]
  ok (noted p y.items y.timers s)

-- What a coroutine that runs on leaves of the queue: it is not in it, and if it signals the first of
-- the others is not either.
abbrev pub leave : (Ptr → Bool) → Ptr → List Ptr → List Ptr
leave speaks p qs = if speaks p then tail (erase p qs) else erase p qs

abbrev pub left_by : (Ptr → Bool) → List Ptr → List Ptr → List Ptr
left_by speaks [] qs = qs
left_by speaks (p ∷ ps) qs = left_by speaks ps (leave speaks p qs)

left_by-append :
    (speaks : Ptr → Bool) (ps qs : List Ptr) (p : Ptr)
    → left_by speaks (ps ++ p ∷ []) qs ≡ leave speaks p (left_by speaks ps qs)
left_by-append speaks [] qs p = refl
left_by-append speaks (x ∷ ps) qs p = left_by-append speaks ps (leave speaks x qs) p

-- The timers of the coroutines that wait for `si`: those of `all` that are left.
abbrev pub WaitsFor : Ptr → (Ptr → Bool) → List Ptr → Queue → List Ptr → Type 0
WaitsFor si speaks all w qs =
    (C : Lists) × Represents w.items C
    × (qs ≡ map timeout_of (C si))
    × (qs ≡ left_by speaks w.resumed all)

has-timeout : (a : Ptr) (xs : List Ptr) → has (timeout_of a) (map timeout_of xs) ≡ has a xs
has-timeout a [] = refl
has-timeout a (x ∷ xs) = ground (arith, has-timeout a xs)

erase-timeout :
    (a : Ptr) (xs : List Ptr)
    → erase (timeout_of a) (map timeout_of xs) ≡ map timeout_of (erase a xs)
erase-timeout a [] = refl
erase-timeout a (x ∷ xs) = ground (arith, erase-timeout a xs)

erase_within : (p q : Ptr) (qs : List Ptr) → has q (erase p qs) ≡ true → has q qs ≡ true
erase_within p q [] h = h
erase_within p q (x ∷ qs) h = ground (arith, erase_within p q qs)

tail_within :
    (speaks : Ptr → Bool) (p q : Ptr) (qs rs : List Ptr)
    → rs ≡ (if speaks p then tail qs else qs)
    → has q rs ≡ true
    → has q qs ≡ true
tail_within speaks p q [] rs e h = ground (arith, e, h)
tail_within speaks p q (x ∷ qs) rs e h = ground (arith, e, h)

item_of_timeout :
    (p : Ptr) (xs : List Ptr) → has p (map timeout_of xs) ≡ true → has (p - 24) xs ≡ true
item_of_timeout p [] h = cc
item_of_timeout p (x ∷ xs) h = ground (arith, item_of_timeout p xs)

IsServing-noted :
    (active timeout : ℕ) (pool : List Ptr) (p : Ptr) (s : Sched Queue) (L : Lists)
    → IsServing active timeout pool s L
    → IsServing active timeout pool (noted p s.world.items s.timers s) L
IsServing-noted active timeout pool p s L v = record {
  view = v.view;
  wheel = v.wheel;
  out_a = v.out_a;
  out_t = v.out_t;
  idle = v.idle;
  on_time = v.on_time;
  unmarked = v.unmarked;
  attached = v.attached;
  ready = v.ready;
  room = v.room;
  pooled = v.pooled;
}

length-woken :
    (active x : Ptr) (L : Lists) → length (woken active x L active) ≤ suc (length (L active))
length-woken active x L =
    let at : woken active x L active ≡ erase (timeout_of x) (L active) ++ timeout_of x ∷ [] =
      ground (arith, ==_refl active) in
    rw (at, length-append) (omega (arith, length-erase (timeout_of x) (L active)))

woken-kept :
    (active timeout : ℕ) (pool : List Ptr) (apart : active ≢ timeout) (x q k : Ptr)
    (s : Sched Queue) (L : Lists)
    → IsServing active timeout pool s L
    → has q (L k) ≡ true
    → (has q (woken active x L active) ≡ true) ⊎ (has q (woken active x L k) ≡ true)
woken-kept active timeout pool apart x q k s L v m =
    let (at_a, off_a) = Roused-moved active timeout pool apart s L (timeout_of x) v.view in
    elim (eq-cases q (timeout_of x)) [
      | inl e ↦ inl (ground (arith, at_a q, e, ==_refl (timeout_of x)))
      | inr ne ↦ elim (eq-cases k active) [
        | inl e ↦ inl (ground (arith, at_a q, subst (λ (l : Ptr). has q (L l) ≡ true) e m))
        | inr off ↦ inr (ground (arith, off_a k q off, m, ne))
      ]
    ]

module _ (active timeout : ℕ) (pool : List Ptr) (na : active ≢ null) (apart : active ≢ timeout)
    (si : Ptr) (speaks : Ptr → Bool) where
  -- Where somebody waits for `si`.
  signals-more :
      (p x : Ptr) (xs : List Ptr) (s : Sched Queue) (L C : Lists)
      → IsServing active timeout pool s L
      → Represents s.world.items C
      → C si ≡ x ∷ xs
      → Fit pool s (timeout_of x)
      → (items timers : Store) × (cond_signal active si (shared s)
          ≡ ok (record (shared s) { items = items; timers = timers }))
        × Represents items (write C si xs)
        × IsServing active timeout pool (noted p items timers s) (woken active x L)
        × ((q : Ptr) → allocated timers q ≡ allocated s.timers q)
  signals-more p x xs s L C v queue waiters (alive, pooled, fit) =
      let (items, timers, run, rest, view, kept, same) =
        cond_signal-fifo active si x xs (shared s) C L queue v.view alive na waiters in
      (
        items,
        timers,
        run,
        rest,
        IsServing-woken active timeout pool apart s (noted p items timers s) L (woken active x L)
            (timeout_of x) v pooled fit
            (Roused-moved active timeout pool apart s L (timeout_of x) v.view) view refl refl refl
            (λ q ne. refl),
        same,
      )

  -- The second half of co_cond_timedwait, if the coroutine waits: its item is in no queue, its timer
  -- is freed, and all else stays.
  ended :
      (p : Ptr) (s : Sched Queue) (L C : Lists)
      → IsServing active timeout pool s L
      → Represents s.world.items C
      → allocated s.timers p ≡ true
      → ((k : Ptr) → has p (L k) ≡ false)
      → (items timers : Store) × (D : Lists) × ((elim (allocated s.world.items (p - 24))
            as (λ b. Run Sync) [ true ↦ timedwait_end (p - 24) (shared s) | false ↦ ok (shared s) ])
          ≡ ok (record (shared s) { items = items; timers = timers }))
        × Represents items D
        × Represents timers L
        × (map timeout_of (D si) ≡ erase p (map timeout_of (C si)))
        × (has p (map timeout_of (D si)) ≡ false)
        × ((q : Ptr) → q ≢ p → allocated timers q ≡ allocated s.timers q)
  ended p s L C v queue alive out = elim (Bool-cases (allocated s.world.items (p - 24))) [
    | inr other ↦
        let absent : has p (map timeout_of (C si)) ≡ false =
          elim (Bool-cases (has p (map timeout_of (C si)))) [
            | inr outside ↦ outside
            | inl inside ↦
                let (n, at, link) =
                  mem_allocated s.world.items C (p - 24) si queue
                    (item_of_timeout p (C si) inside) in
                absurd (ground (arith, at, other))
          ] in
        (
          s.world.items,
          s.timers,
          C,
          rw other refl,
          queue,
          v.view,
          sym (erase_absent p (map timeout_of (C si)) absent),
          absent,
          λ q ne. refl,
        )
    | inl waits ↦
        let psi = p - 24 in
        let (n, at) = allocated-node s.world.items psi waits in
        let nn : psi ≢ null = ground (arith, queue.null_free) in
        let own : timeout_of psi ≡ p = omega (arith, nn) in
        let (m, timer) = allocated-node s.timers p alive in
        let unlinked = free_of_absent s.timers L p m v.view timer out in
        let (z, run, view, view', gone, gone', form, kept) =
          timedwait_end-frees psi (shared s) C L n m queue v.view at
            (subst (λ (q : Ptr). s.timers.node q ≡ some m) (sym own) timer) unlinked in
        let rest : map timeout_of (erase psi (C si)) ≡ erase p (map timeout_of (C si)) =
          sym (erase-timeout psi (C si)) ∙ ap (λ (q : Ptr). erase q (map timeout_of (C si))) own in
        (
          z.items,
          z.timers,
          without psi C,
          rw waits (run ∙ ap ok form),
          view,
          view',
          rest,
          ap (λ (q : Ptr). has q (map timeout_of (erase psi (C si)))) (sym own)
              ∙ has-timeout psi (erase psi (C si))
              ∙ ground (arith, has-erase psi psi (C si) (queue.distinct si)),
          λ q ne. kept q (λ e. ne (e ∙ own)),
        )
  ]

  -- The signal, if the coroutine is one that speaks.
  abbrev say : Ptr → Sync → Run Sync
  say p y = elim (speaks p) as (λ b. Run Sync) [ true ↦ cond_signal active si y | false ↦ ok y ]

  -- The queue has lost its first waiter, if any, which is active now.
  abbrev Told : Ptr → Sched Queue → Lists → Lists → Type 0
  Told p s L C =
      (items timers : Store) × (M D : Lists) × (say p (shared s)
        ≡ ok (record (shared s) { items = items; timers = timers }))
      × Represents items D
      × IsServing active timeout pool (noted p items timers s) M
      × (map timeout_of (D si)
          ≡ (if speaks p then tail (map timeout_of (C si)) else map timeout_of (C si)))
      × ((q : Ptr) → allocated timers q ≡ allocated s.timers q)
      × ((q : Ptr)
          → has q (map timeout_of (C si)) ≡ true
          → (has q (map timeout_of (D si)) ≡ true) ⊎ (has q (M active) ≡ true))
      × (length (M active) + length (map timeout_of (D si))
          ≤ length (L active) + length (map timeout_of (C si)))
      × ((q k : Ptr) → has q (L k) ≡ true → (has q (M active) ≡ true) ⊎ (has q (M k) ≡ true))

  Told-nobody :
      (p : Ptr) (s : Sched Queue) (L C : Lists)
      → IsServing active timeout pool s L
      → Represents s.world.items C
      → say p (shared s) ≡ ok (shared s)
      → map timeout_of (C si)
        ≡ (if speaks p then tail (map timeout_of (C si)) else map timeout_of (C si))
      → Told p s L C
  Told-nobody p s L C v queue e same = (
    s.world.items,
    s.timers,
    L,
    C,
    e,
    queue,
    IsServing-noted active timeout pool p s L v,
    same,
    λ q. refl,
    λ q m. inl m,
    omega arith,
    λ q k m. inr m,
  )

  told :
      (p : Ptr) (s : Sched Queue) (L C : Lists)
      → IsServing active timeout pool s L
      → Represents s.world.items C
      → ((q : Ptr) → has q (map timeout_of (C si)) ≡ true → Fit pool s q)
      → Told p s L C
  told p s L C v queue fit = elim (Bool-cases (speaks p)) [
    | inr silent ↦ Told-nobody p s L C v queue (rw (say, silent) refl) (rw silent refl)
    | inl talks ↦ elim (cons-cases (C si)) [
      | inl nobody ↦
          Told-nobody p s L C v queue
            (rw (say, talks, cond_signal-empty active si (shared s) C queue nobody) refl)
            (rw (talks, nobody) refl)
      | inr (x, xs, waiters) ↦
          let first : map timeout_of (C si) ≡ timeout_of x ∷ map timeout_of xs =
            ap (map timeout_of) waiters in
          let (items, timers, run, rest, v', same) =
            signals-more p x xs s L C v queue waiters
              (fit (timeout_of x) (ground (arith, first, ==_refl (timeout_of x)))) in
          let at_a : has (timeout_of x) (woken active x L active) ≡ true = ground (
            arith,
            ==_refl active,
            has-append (timeout_of x) (erase (timeout_of x) (L active)) (timeout_of x ∷ []),
            ==_refl (timeout_of x),
          ) in
          let now : map timeout_of (write C si xs si) ≡ map timeout_of xs =
            ground (arith, ==_refl si) in
          (
            items,
            timers,
            woken active x L,
            write C si xs,
            rw (say, talks, run) refl,
            rest,
            v',
            rw (talks, now, first) refl,
            same,
            λ q m. elim (eq-cases q (timeout_of x)) [
              | inl e ↦ inr (rw e at_a)
              | inr ne ↦ inl (rw now (ground (arith, first, m, ne)))
            ],
            rw (now, first) (omega (arith, length-woken active x L)),
            λ q k m. woken-kept active timeout pool apart x q k s L v m,
          )
    ]
  ]

  module _ (all : List Ptr) where
    -- They meet the contract of coroutines that make others active, with the timers that wait for
    -- the condition variable as those that may be woken, and what `left_by` says of the queue.
    pub signals-Wakes :
        Wakes active timeout pool
          (signals active si speaks)
          (λ w. w.resumed)
          (WaitsFor si speaks all)
    unfolding signals
    signals-Wakes p qs s L v (C, queue, exact, counted) fit alive pooled out =
        let (items₁, timers₁, C₁, run₁, queue₁, view₁, cut, gone, kept) =
          ended p s L C v queue alive out in
        let s₁ : Sched Queue = record s {
          timers = timers₁;
          world = record { items = items₁; resumed = s.world.resumed };
        } in
        let v₁ : IsServing active timeout pool s₁ L = record {
          view = view₁;
          wheel = v.wheel;
          out_a = v.out_a;
          out_t = v.out_t;
          idle = v.idle;
          on_time = v.on_time;
          unmarked = v.unmarked;
          attached = v.attached;
          ready = v.ready;
          room = v.room;
          pooled = v.pooled;
        } in
        let rest : map timeout_of (C₁ si) ≡ erase p qs = cut ∙ ap (erase p) (sym exact) in
        let inside : (q : Ptr) → has q (map timeout_of (C₁ si)) ≡ true → has q qs ≡ true =
          λ q m. erase_within p q qs (ap (has q) (sym rest) ∙ m) in
        let fit₁ : (q : Ptr) → has q (map timeout_of (C₁ si)) ≡ true → Fit pool s₁ q = λ q m.
          let ne : q ≢ p = λ e. cc (ap (λ (x : Ptr). has x (map timeout_of (C₁ si))) e, m, gone) in
          let (a, b, c) = fit q (inside q m) in (kept q ne ∙ a, b, c) in
        let (items, timers, M, D, run, queue', v', next, same, woken, fewer, others) =
          told p s₁ L C₁ v₁ queue₁ fit₁ in
        let now : map timeout_of (D si) ≡ leave speaks p qs = next ∙ elim (Bool-cases (speaks p)) [
          | inl talks ↦ rw talks (ap tail rest)
          | inr silent ↦ rw silent rest
        ] in
        (
          noted p items timers s,
          M,
          map timeout_of (D si),
          rw (run₁, run) refl,
          v',
          (
            D,
            queue',
            refl,
            now ∙ ap (leave speaks p) counted ∙ sym (left_by-append speaks s.world.resumed all p),
          ),
          λ q m.
              let m₁ : has q (map timeout_of (C₁ si)) ≡ true =
                tail_within speaks p q (map timeout_of (C₁ si)) (map timeout_of (D si)) next m in
              let (a, b, c) = fit₁ q m₁ in (same q ∙ a, b, c),
          λ q ne m. woken q (ap (has q) rest ∙ has-erase_other p q qs ne m),
          omega (arith, fewer, ap length rest, length-erase p qs),
          refl,
          refl,
          λ q k ne m. elim (others q k m) [ inl here ↦ inl here | inr there ↦ inr (there, refl) ],
        )
