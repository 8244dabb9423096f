-- ===== src/Fd/Flags.antt =====
-- fcntl with F_SETFL and F_GETFL on a hooked socket: the kernel's descriptor does not block, and
-- the program sees the flags that it has set.
use jkyi_libco.Base.{
  ℕ, ◌<◌, ◌≡◌, true, none, some, arith, bit, land, lor, lnot, bit-land, bit-lor, bit-pow, bit-lnot,
  ltb, if◌then◌else◌, ◌==◌, ◌||◌, Bool, Bool-cases, inl, inr, refl, ◌∙◌, eq-cases, ◌≢◌, ==_ne,
}
use jkyi_libco.Fd.{
  store, Rpc, Table, System, get_by_fd, o_nonblock, f_getfl, f_setfl, fcntl, set_flags, get_flags,
  is_fd, entries,
}

-- What F_GETFL shows: the kernel's word, which has O_NONBLOCK, without that bit where the call has
-- not set it.
shown_bits :
    (k param word : ℕ)
    → k < 32
    → bit 11 word ≡ true
    → bit k (if bit 11 param then word else land 32 word (lnot 32 o_nonblock))
      ≡ (if k == 11 then bit 11 param else bit k word)
shown_bits k param word h on =
    ground (
      arith,
      on,
      bit-land 32 k word (lnot 32 o_nonblock) h,
      bit-lnot 32 k o_nonblock h,
      bit-pow k 11,
    )

-- The bits that F_SETFL can change on Linux: O_APPEND, O_NONBLOCK, O_ASYNC, O_DIRECT and O_NOATIME.
abbrev pub settable : ℕ → Bool
settable k = k == 10 || (k == 11 || (k == 13 || (k == 14 || k == 18)))

other_bits : (k param : ℕ) → k < 32 → k ≢ 11 → bit k (lor 32 param o_nonblock) ≡ bit k param
other_bits k param h ne = ground (arith, bit-lor 32 k param o_nonblock h, bit-pow k 11)

shown_settable :
    (k param word : ℕ)
    → (settable k ≡ true → k ≢ 11 → bit k word ≡ bit k param)
    → (if k == 11 then bit 11 param else bit k word)
      ≡ (if settable k then bit k param else bit k word)
shown_settable k param word keeps = elim (eq-cases k 11) [
  | inl e ↦ rw e refl
  | inr ne ↦ elim (Bool-cases (settable k)) [
    | inl can ↦ rw (can, ==_ne k 11 ne) (keeps can ne)
    | inr cannot ↦ rw (cannot, ==_ne k 11 ne) refl
  ]
]

get_by_fd-cases :
    (fd : ℕ) (t : Table) (r : Rpc)
    → get_by_fd fd t ≡ some r
    → (is_fd fd ≡ true) × (ltb fd entries ≡ true) × (t fd ≡ some r)
unfolding get_by_fd
get_by_fd-cases fd t r h = ground arith

get_by_fd-store :
    (fd : ℕ) (t : Table) (r r' : Rpc)
    → get_by_fd fd t ≡ some r
    → get_by_fd fd (store t fd (some r')) ≡ some r'
unfolding get_by_fd
get_by_fd-store fd t r r' h = ground arith

module _ {W : Type 0} (sys : System W) (fd param : ℕ) (w w₁ : W) (t : Table) (r : Rpc) where
  -- The kernel keeps those bits that a successful F_SETFL can change, and may ignore all others, as
  -- those of the access mode. Then after a successful F_SETFL of a hooked coroutine, on a socket
  -- that the library knows, the kernel's flags hold O_NONBLOCK, and F_GETFL of the coroutine shows
  -- the flags of the call in all bits that can be changed, O_NONBLOCK as the call has it, and the
  -- kernel's flags in all other bits.
  pub get_flags-set_flags :
      ((w w' : W) (v : ℕ)
        → sys.sys_fcntl fd f_setfl (some v) w ≡ (0, w')
        → (k : ℕ) → settable k ≡ true
        → bit k (sys.sys_fcntl fd f_getfl none w').0 ≡ bit k v)
      → get_by_fd fd t ≡ some r
      → sys.sys_fcntl fd f_setfl (some (lor 32 param o_nonblock)) w ≡ (0, w₁)
      → (t₁ : Table) × (fcntl sys true fd f_setfl param w t ≡ (0, w₁, t₁))
        × (bit 11 (sys.sys_fcntl fd f_getfl none w₁).0 ≡ true)
        × ((k : ℕ)
            → k < 32
            → bit k (fcntl sys true fd f_getfl 0 w₁ t₁).0
              ≡ (if settable k then bit k param else bit k (sys.sys_fcntl fd f_getfl none w₁).0))
  unfolding fcntl set_flags get_flags
  get_flags-set_flags keeps there done =
      let (valid, low, known) = get_by_fd-cases fd t r there in
      let r₁ : Rpc = record r { user_flag = param } in
      let there₁ = get_by_fd-store fd t r r₁ there in
      let word = (sys.sys_fcntl fd f_getfl none w₁).0 in
      let kept = keeps w w₁ (lor 32 param o_nonblock) done in
      let on : bit 11 word ≡ true =
        kept 11 refl
        ∙ bit-lor 32 11 param o_nonblock (omega arith)
        ∙ ground (arith, bit-pow 11 11) in
      (
        store t fd (some r₁),
        ground (arith, valid, there, done),
        on,
        λ k h.
            ground (arith, valid, there₁, shown_bits k param word h on)
            ∙ shown_settable k param word λ can ne. kept k can ∙ other_bits k param h ne,
      )
