-- ===== src/Dns/Buffer.antt =====
-- The buffer of co_gethostbyname grows until the answer fits.
use jkyi_libco.Base.{
  ℕ, zero, suc, ◌+◌, ◌*◌, ◌%◌, ◌<◌, ◌≤◌, ◌≡◌, ◌≢◌, ◌⊎◌, inl, inr, refl, arith, Bool, none, some,
  List,
}
use jkyi_libco.Base.Run.{ok}
use jkyi_libco.Timeout.{u64}
use jkyi_libco.Dns.{erange, netdb_internal, Reply, HostBuf, resolve, first_buffer, co_gethostbyname}

-- The number that the code keeps is the size of the block that the buffer points to.
abbrev pub IsBuf : HostBuf → Type 0
IsBuf b = (b.block ≡ none) ⊎ ((b.block ≡ some b.size) × (1024 ≤ b.size))

-- The lookup asks for more room until the buffer has `need` bytes.
abbrev pub Needs : {W : Type 0} → (ℕ → W → Reply × W) → ℕ → Type 0
Needs {W} lookup need =
    (n : ℕ) (w : W)
    → ((n < need) × ((lookup n w).0.ret ≡ erange) × ((lookup n w).0.host_errno ≡ netdb_internal))
      ⊎ ((need ≤ n) × ((lookup n w).0.ret ≢ erange))

-- The loop ends with the answer of a last lookup, in a buffer that is large enough, and not twice
-- as large as it has to be.
abbrev Ends :
    {W : Type 0} (lookup : ℕ → W → Reply × W) (need fuel : ℕ) (b : HostBuf) (w : W) → Type 0
Ends {W} lookup need fuel b w =
    (found : Bool) × (z : HostBuf) × (v v' : W) × (resolve fuel lookup b w ≡ ok (0, found, z, v'))
    × (lookup z.size v
        ≡ (record { ret = (lookup z.size v).0.ret; found = found; host_errno = z.host_errno }, v'))
    × (z.block ≡ some z.size)
    × (need ≤ z.size)
    × ((z.size ≡ b.size) ⊎ ((b.size < z.size) × (z.size < 2 * need)))

grown : HostBuf → ℕ → HostBuf
grown b errno = record {
  block = some (b.size * 2 % u64);
  size = b.size * 2 % u64;
  host_errno = errno;
}

-- The first lookup answers.
Ends-fits :
    {W : Type 0} (lookup : ℕ → W → Reply × W) (need fuel : ℕ) (b : HostBuf) (w : W)
    → need ≤ b.size
    → (lookup b.size w).0.ret ≢ erange
    → b.block ≡ some b.size
    → Ends lookup need (suc fuel) b w
unfolding resolve
Ends-fits lookup need fuel b w fits answers block = (
  (lookup b.size w).0.found,
  record b { host_errno = (lookup b.size w).0.host_errno },
  w,
  (lookup b.size w).1,
  ground (arith, answers),
  refl,
  block,
  fits,
  inl refl,
)

-- The first lookup asks for more.
Ends-grows :
    {W : Type 0} (lookup : ℕ → W → Reply × W) (need fuel : ℕ) (b : HostBuf) (w : W)
    → b.size < need
    → need * 2 ≤ u64
    → 1024 ≤ b.size
    → (lookup b.size w).0.ret ≡ erange
    → (lookup b.size w).0.host_errno ≡ netdb_internal
    → Ends lookup need fuel (grown b netdb_internal) (lookup b.size w).1
    → Ends lookup need (suc fuel) b w
unfolding resolve grown
Ends-grows lookup need fuel b w small fits least ret errno
      (found, z, v, v', run, last, block, large, size) =
    let doubled : b.size * 2 % u64 ≡ b.size * 2 = omega arith in
    (
      found,
      z,
      v,
      v',
      ground (arith, ret, errno, run),
      last,
      block,
      large,
      inr (ground (arith, size, doubled, least, small), omega (arith, size, doubled, small)),
    )

-- A round for each byte is enough.
Ends-resolve :
    {W : Type 0} (lookup : ℕ → W → Reply × W) (need : ℕ) (fuel : ℕ) (b : HostBuf) (w : W)
    → Needs lookup need
    → need * 2 ≤ u64
    → need ≤ b.size + fuel
    → b.block ≡ some b.size
    → 1024 ≤ b.size
    → Ends lookup need (suc fuel) b w
unfolding grown
Ends-resolve lookup need zero b w answers fits enough block large = elim (answers b.size w) [
  | inl h ↦ absurd (omega (arith, enough, h.0))
  | inr h ↦ Ends-fits lookup need zero b w h.0 h.1 block
]
Ends-resolve lookup need (suc fuel) b w answers fits enough block large = elim (answers b.size w) [
  | inl h ↦
      let doubled : b.size * 2 % u64 ≡ b.size * 2 = omega (arith, h.0) in
      Ends-grows lookup need (suc fuel) b w h.0 fits large h.1 h.2 (
        Ends-resolve lookup need fuel (grown b netdb_internal) (lookup b.size w).1 answers fits
          (omega (arith, enough, large, doubled)) refl (omega (arith, large, doubled)))
  | inr h ↦ Ends-fits lookup need (suc fuel) b w h.0 h.1 block
]

first_buffer-IsBuf :
    (b : HostBuf) → IsBuf b → ((first_buffer b).block ≡ some 1024) × ((first_buffer b).size ≡ 1024)
unfolding first_buffer
first_buffer-IsBuf b h = elim h [
  | inl none_yet ↦ (ground (arith, none_yet), ground (arith, none_yet))
  | inr large ↦ (ground (arith, large), ground (arith, large))
]

-- A lookup that wants `need` bytes, up to 2 ^ 63. The call of co_gethostbyname ends after at most
-- one round for each byte and one more; it returns a host exactly where its last lookup found one,
-- and keeps the error number of that lookup, for which the buffer was large enough. The buffer has
-- the size that is kept for it, also for the next call, and is of 1024 bytes or of less than twice
-- those wanted.
pub co_gethostbyname_ends :
    {W : Type 0} (lookup : List ℕ → ℕ → W → Reply × W) (name : List ℕ) (need : ℕ) (b : HostBuf)
    (w : W)
    → Needs (lookup name) need
    → need * 2 ≤ u64
    → IsBuf b
    → (found : Bool) × (z : HostBuf) × (v v' : W) × (co_gethostbyname
          (suc need)
          lookup
          (some name)
          b
          w
        ≡ ok (found, z, v'))
      × (lookup name z.size v ≡ (
        record { ret = (lookup name z.size v).0.ret; found = found; host_errno = z.host_errno },
        v',
      ))
      × IsBuf z
      × (need ≤ z.size)
      × ((z.size ≡ 1024) ⊎ (z.size < 2 * need))
unfolding co_gethostbyname
co_gethostbyname_ends lookup name need b w answers fits is_buf =
    let (block, size) = first_buffer-IsBuf b is_buf in
    let (found, z, v, v', run, last, own, large, bound) =
      Ends-resolve (lookup name) need need (first_buffer b) w answers fits (omega arith)
        (rw size block) (omega (arith, size)) in
    (
      found,
      z,
      v,
      v',
      ground (arith, run),
      last,
      inr (own, omega (arith, bound, size, large)),
      large,
      ground (arith, bound, size),
    )
