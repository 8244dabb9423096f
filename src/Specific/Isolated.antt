-- ===== src/Specific/Isolated.antt =====
-- What a coroutine stores under a key it finds again, and nobody else does.
use jkyi_libco.Base.{ℕ, ◌≡◌, ◌≢◌, ◌<◌, refl, arith, sym, ◌⊎◌, ◌∙◌, false, some, Ptr, null}
use jkyi_libco.Base.Run.{ok}
use jkyi_libco.Link.{write}
use jkyi_libco.Routine.{Co, Thread}
use jkyi_libco.Routine.Current.{get_curr_thread_co}
use jkyi_libco.Specific.{Pthread, Specs, max_keys, co_getspecific, co_setspecific}

-- The coroutine at `p` runs in the thread, and is not its main coroutine.
abbrev pub Runs : Ptr → Thread → Type 0
Runs p t =
    (get_curr_thread_co (some t) ≡ ok p)
    × (p ≢ null)
    × (c : Co) × (t.co p ≡ some c)
    × (c.is_main ≡ false)

-- Where `p` runs, its own slots are read and written.
pub getspecific-Runs :
    {W : Type 0} (sys : Pthread W) (p : Ptr) (t : Thread) (key : ℕ) (s : Specs W)
    → Runs p t
    → key < max_keys
    → co_getspecific sys key (record s { thread = some t }) ≡ ok (s.spec p key)
unfolding co_getspecific
getspecific-Runs sys p t key s (curr, nn, c, at, side) low = ground (arith, curr, at, side)

pub setspecific-Runs :
    {W : Type 0} (sys : Pthread W) (p : Ptr) (t : Thread) (key : ℕ) (v : Ptr) (s : Specs W)
    → s.thread ≡ some t
    → Runs p t
    → key < max_keys
    → co_setspecific sys key v s
      ≡ ok (0, record s { spec = write s.spec p (write (s.spec p) key v) })
unfolding co_setspecific
setspecific-Runs sys p t key v s h (curr, nn, c, at, side) low = ground (arith, h, curr, at, side)

-- A coroutine that stores a value under a key succeeds and reads it back; the thread's own data do
-- not change, and whatever coroutine runs later, in whatever state of the thread, reads under every
-- other key, and if it is another coroutine under every key, what it would have read before.
pub co_getspecific-co_setspecific :
    {W : Type 0} (sys : Pthread W) (p : Ptr) (t : Thread) (key : ℕ) (v : Ptr) (s : Specs W)
    → s.thread ≡ some t
    → Runs p t
    → key < max_keys
    → (q : Ptr) (u : Thread) (k : ℕ) → Runs q u
    → k < max_keys
    → (q ≢ p) ⊎ (k ≢ key)
    → (z : Specs W) × (co_setspecific sys key v s ≡ ok (0, z))
      × (co_getspecific sys key z ≡ ok v)
      × (z.world ≡ s.world)
      × (co_getspecific sys k (record z { thread = some u })
          ≡ co_getspecific sys k (record s { thread = some u }))
co_getspecific-co_setspecific sys p t key v s h runs low q u k runs' low' other =
    let z = record s { spec = write s.spec p (write (s.spec p) key v) } in
    (
      z,
      setspecific-Runs sys p t key v s h runs low,
      ground (arith, h, getspecific-Runs sys p t key z runs low),
      refl,
      getspecific-Runs sys q u k z runs' low'
          ∙ ground (arith, other)
          ∙ sym (getspecific-Runs sys q u k s runs' low'),
    )
