-- ===== src/Specific.antt =====
-- Data of each coroutine, co_routine.cc: co_getspecific and co_setspecific (lines 924 to 938), and
-- the class of the macro CO_ROUTINE_SPECIFIC in co_routine_specific.h (lines 12 to 39).
pub mod Isolated
pub mod Stable
use jkyi_libco.Base.{
  ℕ, ◌-◌, Bool, true, false, not, ◌||◌, Option, none, some, Ptr, null, ◌==◌, ltb, leb,
  if◌then◌else◌, not_null,
}
use jkyi_libco.Base.Run.{Run, ok, fault, ◌>>=◌}
use jkyi_libco.Link.{write}
use jkyi_libco.Routine.{Co, Thread, load_co}
use jkyi_libco.Routine.Current.{get_curr_thread_co}

-- The functions of the system that work on the thread's own data, and pthread_key_create.
pub record Pthread (W : Type 0) : Type 0 where
  pub get : (key : ℕ) → W → Ptr
  pub set : (key : ℕ) → (value : Ptr) → W → ℕ × W
  pub key_create : W → ℕ × W

-- `thread` is gCoEnvPerThread, and `spec` holds aSpec of each coroutine.
pub record Specs (W : Type 0) : Type 0 where
  pub thread : Option Thread
  pub spec : Ptr → ℕ → Ptr
  pub world : W

-- The length of aSpec.
abbrev pub max_keys : ℕ
max_keys = 1024

-- The statics of the macro.
pub record Wrapper : Type 0 where
  -- _routine_once_ has been used.
  pub once : Bool
  pub key : ℕ
  -- _routine_init_
  pub init : Bool

module _ {W : Type 0} (sys : Pthread W) where
  -- `!co || co->cIsMain`
  abbrev pub on_thread : Ptr → Specs W → Run Bool
  on_thread co s =
      if co == null
      then ok true
      else elim s.thread [ none ↦ fault | some t ↦ (do c ← load_co t co; ok c.is_main) ]

  -- co_getspecific. A key behind aSpec is a fault.
  unfoldable pub co_getspecific : ℕ → Specs W → Run Ptr
  co_getspecific key s = do
    co ← get_curr_thread_co s.thread
    own ← on_thread co s
    if own then ok (sys.get key s.world) else if leb max_keys key then fault else ok (s.spec co key)

  -- co_setspecific
  unfoldable pub co_setspecific : ℕ → Ptr → Specs W → Run (ℕ × Specs W)
  co_setspecific key value s = do
    co ← get_curr_thread_co s.thread
    own ← on_thread co s
    if own
        then (let (ret, w) = sys.set key value s.world in ok (ret, record s { world = w }))
        else if leb max_keys key
        then fault
        else ok (0, record s { spec = write s.spec co (write (s.spec co) key value) })

  -- `if(!_routine_init_) { pthread_once(...); _routine_init_ = 1; }`
  unfoldable pub make_key : Wrapper → Specs W → Wrapper × Specs W
  make_key r s =
      if r.init
      then (r, s)
      else if r.once
      then (record r { init = true }, s)
      else (let (key, w) = sys.key_create s.world in
          (record { once = true; key = key; init = true }, record s { world = w }))

  -- operator->. `fresh` is what calloc returns.
  unfoldable pub arrow : (fresh : Ptr) → Wrapper → Specs W → Run (Ptr × Wrapper × Specs W)
  unfolding co_getspecific co_setspecific make_key
  arrow fresh r s = do
    let (r, s) = make_key r s
    p ← co_getspecific r.key s
    if not_null p then ok (p, r, s) else (do
      (ret, s) ← co_setspecific r.key fresh s
      ok (if ret == 0 then fresh else null, r, s))

  -- __res_state of co_hook_sys_call.cc (lines 779 to 785): `state` is at the start of res_state_wrap.
  unfoldable pub res_state :
      (hooked : Bool)
      → (system : W → Ptr × W) → (fresh : Ptr) → Wrapper
      → Specs W
      → Run (Ptr × Wrapper × Specs W)
  unfolding arrow
  res_state hooked system fresh r s =
      if not hooked
      then (let (p, w) = system s.world in ok (p, r, record s { world = w }))
      else arrow fresh r s
