-- ===== src/Vars.antt =====
-- The environment variables of a coroutine, co_hook_sys_call.cc: dup_co_sysenv_arr, setenv,
-- unsetenv and getenv (lines 607 to 625 and 660 to 729).
pub mod Own
pub mod Names
pub mod Listed
pub mod Ascending
use jkyi_libco.Base.{
  get_elem?, ℕ, zero, suc, Bool, true, false, ◌||◌, Option, none, some, List, [], ◌∷◌, Ptr,
  if◌then◌else◌,
}
use jkyi_libco.Link.{write}

-- stCoSysEnv_t. A string is its bytes, and `none` is NULL.
pub record Variable : Type 0 where
  pub name : List ℕ
  pub value : Option (List ℕ)

-- The list of the process, g_co_sysenv, and the copy of each coroutine, pvEnv.
pub record Vars (W : Type 0) : Type 0 where
  pub global : List Variable
  pub own : Ptr → Option (List Variable)
  pub world : W

-- `e->value = value` for the entry at an index.
abbrev pub set_value : ℕ → Option (List ℕ) → List Variable → List Variable
set_value j v [] = []
set_value zero v (e ∷ es) = record e { value = v } ∷ es
set_value (suc j) v (e ∷ es) = e ∷ set_value j v es

-- The functions of the system. bsearch gives the index of the entry with a name.
pub record Library (W : Type 0) : Type 0 where
  pub search : List ℕ → List Variable → Option ℕ
  pub sys_setenv : List ℕ → Option (List ℕ) → Bool → W → ℕ × W
  pub sys_unsetenv : List ℕ → W → ℕ × W
  pub sys_getenv : List ℕ → W → Option (List ℕ)

abbrev pub has_value : Variable → Bool
has_value e = elim e.value [ none ↦ false | some v ↦ true ]

module _ {W : Type 0} (lib : Library W) where
  -- dup_co_sysenv_arr, where the coroutine has no copy yet. The values of g_co_sysenv are NULL.
  abbrev pub copy_of : Ptr → Vars W → List Variable
  copy_of self s = elim (s.own self) [ none ↦ s.global | some arr ↦ arr ]

  abbrev pub set_own : Ptr → List Variable → Vars W → Vars W
  set_own self arr s = record s { own = write s.own self (some arr) }

  -- setenv. `hooked` is co_is_enable_sys_hook() of the coroutine `self`.
  unfoldable pub setenv :
      Bool → Ptr → List ℕ → Option (List ℕ) → (overwrite : Bool) → Vars W → ℕ × Vars W
  setenv hooked self n value overwrite s =
      let direct : Vars W → ℕ × Vars W = λ s.
        let (ret, w) = lib.sys_setenv n value overwrite s.world in (ret, record s { world = w }) in
      if hooked
      then (let arr = copy_of self s in
          elim (lib.search n arr) [
            | none ↦ direct (set_own self arr s)
            | some j ↦ elim (get_elem? arr j) [
              | none ↦ direct (set_own self arr s)
              | some e ↦ (
                0,
                set_own self
                    (if overwrite || (if has_value e then false else true)
                      then set_value j value arr
                      else arr)
                    s,
              )
            ]
          ])
      else direct s

  -- unsetenv
  unfoldable pub unsetenv : Bool → Ptr → List ℕ → Vars W → ℕ × Vars W
  unsetenv hooked self n s =
      let direct : Vars W → ℕ × Vars W =
        λ s. let (ret, w) = lib.sys_unsetenv n s.world in (ret, record s { world = w }) in
      if hooked
      then (let arr = copy_of self s in
          elim (lib.search n arr) [
            | none ↦ direct (set_own self arr s)
            | some j ↦ (0, set_own self (set_value j none arr) s)
          ])
      else direct s

  -- getenv: the value, which may be NULL, and the state with the copy.
  unfoldable pub getenv : Bool → Ptr → List ℕ → Vars W → Option (List ℕ) × Vars W
  getenv hooked self n s =
      if hooked
      then (let arr = copy_of self s in
          (
            elim (lib.search n arr) as (λ x. Option (List ℕ)) [
              | none ↦ lib.sys_getenv n s.world
              | some j ↦ elim (get_elem? arr j) as (λ x. Option (List ℕ)) [
                | none ↦ none
                | some e ↦ e.value
              ]
            ],
            set_own self arr s,
          ))
      else (lib.sys_getenv n s.world, s)
