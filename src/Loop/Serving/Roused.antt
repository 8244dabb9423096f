-- ===== src/Loop/Serving/Roused.antt =====
-- One item comes to the active list, by an event or because it is woken (co_routine.cc, lines 703 to
-- 711 and 980 to 991).
use jkyi_libco.Base.{
  ℕ, ◌≡◌, ◌≢◌, refl, sym, ◌∙◌, subst, true, false, ◌&&◌, ◌||◌, not, List, [], ◌∷◌, inl, inr,
  eq-cases, Bool-cases, arith, Ptr, has, has-append, has-erase, erase, ◌==◌, ltb, ==_refl,
}
use jkyi_libco.Link.View.{Lists, Represents, list_unique}
use jkyi_libco.Link.Move.{moved}
use jkyi_libco.Timeout.{slot}
use jkyi_libco.Timeout.Slots.{slot-IsSlot, IsSlot}
use jkyi_libco.Loop.{Sched}
use jkyi_libco.Loop.Serving.{IsServing}

no_members : (xs : List Ptr) → ((q : Ptr) → has q xs ≡ false) → xs ≡ []
no_members [] h = refl
no_members (x ∷ xs) h = absurd (ground (arith, h x, ==_refl x))

-- `p` has come to the active list, and left the list that it was in.
abbrev pub Roused : Ptr → Ptr → Lists → Lists → Type 0
Roused active p L M =
    ((q : Ptr) → has q (M active) ≡ (has q (L active) || (q == p)))
    × ((k q : Ptr) → k ≢ active → has q (M k) ≡ (has q (L k) && not (q == p)))

module _ {W : Type 0} (active timeout : ℕ) (pool : List Ptr) (apart : active ≢ timeout) where
  pub Roused-moved :
      (s : Sched W) (L : Lists) (p : Ptr)
      → Represents s.timers L
      → Roused active p L (moved active p L)
  Roused-moved s L p r = (
    λ q. ground (
      arith,
      ==_refl active,
      has-append q (erase p (L active)) (p ∷ []),
      has-erase p q (L active) (r.distinct active),
    ),
    λ k q ne. ground (arith, ne, has-erase p q (L k) (r.distinct k)),
  )

  pub Roused-again :
      (s : Sched W) (L : Lists) (p : Ptr)
      → Represents s.timers L
      → has p (L active) ≡ true
      → Roused active p L L
  Roused-again s L p r here = (
    λ q. elim (eq-cases q p) [ inl e ↦ rw e (ground (arith, here)) | inr ne ↦ ground (arith, ne) ],
    λ k q ne. elim (eq-cases q p) [
      | inl e ↦ elim (Bool-cases (has p (L k))) [
        | inl too ↦ absurd (ne (list_unique s.timers L p k active r too here))
        | inr out ↦ rw e (ground (arith, out))
      ]
      | inr other ↦ ground (arith, other)
    ],
  )

  pub IsServing-woken :
      (s z : Sched W) (L M : Lists) (p : Ptr)
      → IsServing active timeout pool s L
      → has p pool ≡ true
      → (s.timed_out p && ltb s.wheel.start (s.expire p)) ≡ false
      → Roused active p L M
      → Represents z.timers M
      → z.wheel ≡ s.wheel
      → z.expire ≡ s.expire
      → z.timed_out ≡ s.timed_out
      → ((q : Ptr) → q ≢ p → z.polls q ≡ s.polls q)
      → IsServing active timeout pool z M
  IsServing-woken s z L M p v pooled fit (at_a, off_a) view wheel expire marks polls =
      let slot_off : (d : ℕ) → slot s.wheel d ≢ active =
        λ d e. v.out_a (subst (IsSlot s.wheel) e (slot-IsSlot s.wheel v.wheel d)) in
      record {
        view = view;
        wheel = rw wheel v.wheel;
        room = rw wheel v.room;
        out_a = rw wheel v.out_a;
        out_t = rw wheel v.out_t;
        idle =
            no_members (M timeout)
              (λ q. ground (arith, v.idle, off_a timeout q (λ e. apart (sym e))));
        on_time =
            rw (wheel, expire)
              (λ d q lt h.
                v.on_time d q lt (ground (arith, h, off_a (slot s.wheel d) q (slot_off d))));
        unmarked = rw marks (λ j q ne h. v.unmarked j q ne (ground (arith, h, off_a j q ne)));
        attached = λ j q ne h.
            polls q (λ e. ground (arith, h, off_a j q ne, e, ==_refl p))
            ∙ v.attached j q ne (ground (arith, h, off_a j q ne));
        ready =
            rw (wheel, expire, marks)
              (λ q h. elim (eq-cases q p) [
                | inl e ↦ rw e fit
                | inr ne ↦ v.ready q (ground (arith, h, ne, at_a q))
              ]);
        pooled = λ j q h. elim (eq-cases q p) [
          | inl e ↦ rw e pooled
          | inr ne ↦ elim (eq-cases j active) [
            | inl here ↦
                v.pooled active q
                  (ground (arith, subst (λ (l : Ptr). has q (M l) ≡ true) here h, ne, at_a q))
            | inr there ↦ v.pooled j q (ground (arith, h, off_a j q there))
          ]
        ];
      }
