-- ===== src/Loop/Serving/Counted.antt =====
-- What the events of a round record for an stPoll_t (OnPollPreparePfn in co_routine.cc, lines 670 to
-- 686): how many there are, and the last mask of each entry.
use jkyi_libco.Base.{
  ℕ, ◌+◌, ◌%◌, ◌<◌, ◌≡◌, refl, ap, ◌∙◌, arith, true, ◌&&◌, Option, none, some, List, [], ◌∷◌, Ptr,
  has, ◌==◌, if◌then◌else◌, inl, inr, Option-cases, ==_refl, eq-cases,
}
use jkyi_libco.Link.{write}
use jkyi_libco.Link.View.{Lists}
use jkyi_libco.Timeout.{u32}
use jkyi_libco.Poll.{epoll_event2poll}
use jkyi_libco.Loop.{PollState, raise}
use jkyi_libco.Loop.Serving.Batch.{hit, recorded, Known}

-- The number of events for the items of the stPoll_t at `q`.
abbrev pub hits : (Ptr → Option (Ptr × ℕ)) → List (Ptr × ℕ) → Ptr → ℕ
hits owner [] q = 0
hits owner ((item, mask) ∷ es) q =
    (elim (owner item) as (λ x. ℕ) [ none ↦ 0 | some o ↦ if q == o.0 then 1 else 0 ])
    + hits owner es q

-- The mask of the last event for entry `i` of the stPoll_t at `q`, or `d` where there is none.
abbrev pub last_mask : (Ptr → Option (Ptr × ℕ)) → List (Ptr × ℕ) → (q i d : ℕ) → ℕ
last_mask owner [] q i d = d
last_mask owner ((item, mask) ∷ es) q i d = last_mask owner es q i (elim (owner item) as (λ x. ℕ) [
  | none ↦ d
  | some o ↦ if (q == o.0) && (i == o.1) then epoll_event2poll mask else d
])

pub recorded-raised :
    (owner : Ptr → Option (Ptr × ℕ)) (es : List (Ptr × ℕ)) (f : Ptr → PollState) (q : Ptr)
    → (f q).raised < u32
    → (recorded owner es f q).raised ≡ ((f q).raised + hits owner es q) % u32
recorded-raised owner [] f q small = omega (arith, small)
recorded-raised owner ((item, mask) ∷ es) f q small = elim (Option-cases (owner item)) [
  | inl nobody ↦ let rest = recorded-raised owner es f q small in rw nobody (ground (arith, rest))
  | inr ((p, i), e) ↦ rw e (elim (eq-cases q p) [
    | inl same ↦
        let rest = recorded-raised owner es (write f p (raise i mask (f p))) q in
        ground (arith, same, rest, ==_refl p)
    | inr ne ↦
        let rest = recorded-raised owner es (write f p (raise i mask (f p))) q in
        ground (arith, ne, rest)
  ])
]

pub recorded-revents :
    (owner : Ptr → Option (Ptr × ℕ)) (es : List (Ptr × ℕ)) (f : Ptr → PollState) (q i : ℕ)
    → (recorded owner es f q).revents i ≡ last_mask owner es q i ((f q).revents i)
recorded-revents owner [] f q i = refl
recorded-revents owner ((item, mask) ∷ es) f q i = elim (Option-cases (owner item)) [
  | inl nobody ↦ let rest = recorded-revents owner es f q i in ground (arith, nobody, rest)
  | inr ((p, j), e) ↦
      let g : Ptr → PollState = write f p (raise j mask (f p)) in
      let step : (g q).revents i
          ≡ (if (q == p) && (i == j) then epoll_event2poll mask else (f q).revents i) =
        elim (eq-cases q p) [
          | inl same ↦ rw same (ground (arith, ==_refl p))
          | inr ne ↦ ground (arith, ne)
        ] in
      let rest = recorded-revents owner es g q i ∙ ap (last_mask owner es q i) step in
      ground (arith, e, rest)
]

-- What has an event is in a list.
pub hit-has :
    (owner : Ptr → Option (Ptr × ℕ)) (L : Lists) (es : List (Ptr × ℕ)) (q : Ptr)
    → Known owner L es
    → hit owner es q ≡ true
    → (k : Ptr) × (has q (L k) ≡ true)
hit-has owner L [] q h m = cc
hit-has owner L ((item, mask) ∷ es) q ((p, i, k, o, at), h) m = elim (eq-cases q p) [
  | inl e ↦ (k, rw e at)
  | inr ne ↦ hit-has owner L es q h (ground (arith, m, o, ne))
]
