-- ===== src/Routine/Kept.antt =====
-- The stack content that a switch between coroutines keeps, coroutine by coroutine.
use jkyi_libco.Base.{
  ℕ, ◌+◌, ◌-◌, ◌≤◌, ◌<◌, ◌≡◌, ◌≢◌, ◌⊎◌, refl, sym, inl, inr, true, Bool-cases, some, List, [], ◌∷◌,
  arith, Ptr, null, length, ◌==◌, if◌then◌else◌, ap, ==_refl, eq-cases, subst, ◌∙◌,
}
use jkyi_libco.Routine.{Co, StackMem, Thread, load_bytes, store_bytes}
use jkyi_libco.Routine.Stack.{
  length-load_bytes, load_bytes-same, store_bytes-outside, load_bytes-store_bytes,
}
use jkyi_libco.Routine.Entered.{Holds, entered, saved, noted_at, back}

module _ (curr next sp : Ptr) (t : Thread) (c n : Co) (s : StackMem) (at : t.co curr ≡ some c) where
  abbrev noted : Thread
  noted = noted_at curr sp c t

  module _ (there : noted.co next ≡ some n) (shared : n.is_share ≡ true)
      (on : t.stack n.stack ≡ some s) where
    -- Nothing is copied in the first case: the coroutine is still on the stack.
    pub kept-same :
        (p : Ptr) (bs : List ℕ)
        → s.occupy ≡ next
        → Holds noted p bs
        → Holds (entered next n s noted) p bs
    kept-same p bs e h = elim (eq-cases h.co.stack n.stack) [
      | inl same ↦ record {
        co = h.co;
        stack = record s { occupy = next };
        at = h.at;
        on = ground (arith, same);
        content =
            let there' : h.stack ≡ s = ground (arith, h.on, on, same) in
            ground (arith, h.content, there', e);
      }
      | inr other ↦ record {
        co = h.co;
        stack = h.stack;
        at = h.at;
        on = ground (arith, other, h.on);
        content = h.content;
      }
    ]

    module _ (oc : Co) (some_one : s.occupy ≢ null) (ne : s.occupy ≢ next)
        (o_at : noted.co s.occupy ≡ some oc) (o_on : oc.stack ≡ n.stack) where
      abbrev final : Thread
      final = back n (saved (entered next n s noted) s.occupy oc s)

      -- The coroutine that is switched to was saved.
      next-saved :
          (bs : List ℕ)
          → Holds noted next bs
          → (n.save_buffer ≡ some bs) × (n.save_size ≡ length bs) × (n.sp + length bs ≡ s.bp)
      next-saved bs h =
          let is_n : h.co ≡ n = ground (arith, h.at, there) in
          let is_s : h.stack ≡ s = ground (arith, h.on, on, is_n) in
          ground (arith, h.content, is_n, is_s)

      final-mem :
          (bs : List ℕ)
          → n.save_buffer ≡ some bs
          → n.save_size ≡ length bs
          → final.mem ≡ (if length bs == 0 then t.mem else store_bytes t.mem n.sp bs)
      final-mem bs e f = ground (arith, e, f)

      final-loaded :
          (bs : List ℕ)
          → n.save_buffer ≡ some bs
          → n.save_size ≡ length bs
          → load_bytes final.mem n.sp (length bs) ≡ bs
      final-loaded [] e f = refl
      final-loaded (b ∷ bs) e f =
          ground (arith, final-mem (b ∷ bs) e f, load_bytes-store_bytes t.mem n.sp (b ∷ bs))

      final-outside :
          (bs : List ℕ) (q : ℕ)
          → n.save_buffer ≡ some bs
          → n.save_size ≡ length bs
          → (q < n.sp) ⊎ (n.sp + length bs ≤ q)
          → final.mem q ≡ t.mem q
      final-outside bs q e f out = elim (Bool-cases (length bs == 0)) [
        | inl empty ↦ ground (arith, final-mem bs e f, empty)
        | inr full ↦ ground (arith, final-mem bs e f, full, store_bytes-outside t.mem n.sp bs q out)
      ]

      kept-occupant : (bs : List ℕ) → Holds noted s.occupy bs → Holds final s.occupy bs
      kept-occupant bs h =
          let is_o : h.co ≡ oc = ground (arith, h.at, o_at) in
          let is_s : h.stack ≡ s = ground (arith, h.on, on, is_o, o_on) in
          record {
            co = record oc {
              save_size = s.bp - oc.sp;
              save_buffer = some (load_bytes t.mem oc.sp (s.bp - oc.sp));
            };
            stack = record s { occupy = next };
            at = ground (arith, ==_refl s.occupy);
            on = ground (arith, o_on);
            content =
                ground (arith, h.content, is_o, is_s, length-load_bytes t.mem oc.sp (s.bp - oc.sp));
          }

      kept-next : (bs : List ℕ) → Holds noted next bs → Holds final next bs
      kept-next bs h =
          let (e, f, fits) = next-saved bs h in
          let size : s.bp - n.sp ≡ length bs = omega arith in
          record {
            co = n;
            stack = record s { occupy = next };
            at = ground (arith, there);
            on = ground arith;
            content =
                inl (refl, omega arith, ap (load_bytes final.mem n.sp) size ∙ final-loaded bs e f);
          }

      kept-other :
          (p : Ptr) (bs ns : List ℕ)
          → p ≢ s.occupy
          → p ≢ next
          → Holds noted next ns
          → (h : Holds noted p bs) → (h.co.stack ≢ n.stack → (h.stack.bp ≤ n.sp) ⊎ (s.bp ≤ h.co.sp))
          → Holds final p bs
      kept-other p bs ns po pn hn h apart =
          let (e, f, fits) = next-saved ns hn in
          elim (eq-cases h.co.stack n.stack) [
            | inl same ↦
                let is_s : h.stack ≡ s = ground (arith, h.on, on, same) in
                record {
                  co = h.co;
                  stack = record s { occupy = next };
                  at = ground (arith, h.at);
                  on = ground (arith, same);
                  content = ground (arith, h.content, is_s);
                }
            | inr other ↦ record {
              co = h.co;
              stack = h.stack;
              at = ground (arith, h.at);
              on = ground (arith, h.on, other);
              content = elim h.content [
                | inr out ↦ inr out
                | inl (mine, low, bytes) ↦ inl (
                  mine,
                  low,
                  load_bytes-same t.mem final.mem h.co.sp (h.stack.bp - h.co.sp)
                        (λ q a b. final-outside ns q e f (ground (arith, apart other)))
                      ∙ bytes,
                )
              ];
            }
          ]

      -- The coroutine at `p` keeps its bytes, whichever it is.
      pub kept :
          (p : Ptr) (bs ns : List ℕ)
          → Holds noted next ns
          → (h : Holds noted p bs) → (h.co.stack ≢ n.stack → (h.stack.bp ≤ n.sp) ⊎ (s.bp ≤ h.co.sp))
          → Holds final p bs
      kept p bs ns hn h apart = elim (eq-cases p s.occupy) [
        | inl occupant ↦
            subst (λ (q : Ptr). Holds final q bs) (sym occupant)
              (kept-occupant bs (subst (λ (q : Ptr). Holds noted q bs) occupant h))
        | inr po ↦ elim (eq-cases p next) [
          | inl entering ↦
              subst (λ (q : Ptr). Holds final q bs) (sym entering)
                (kept-next bs (subst (λ (q : Ptr). Holds noted q bs) entering h))
          | inr pn ↦ kept-other p bs ns po pn hn h apart
        ]
      ]
