-- ===== src/Tests/Hooks.antt =====
-- The hooked calls at the systems of the tests.
use jkyi_libco.Base.{
  ℕ, ◌^◌, eq-cases, bit-lor, bit-land, false, inl, inr, ◌<◌, ◌≤◌, ◌≡◌, ◌≢◌, refl, ◌⊎◌, true, none,
  some, List, [], ◌∷◌, ◌++◌, arith, take, bit, lor, land, ap, ◌∙◌, ◌==◌, if◌then◌else◌,
}
use jkyi_libco.Base.Run.{ok, fault}
use jkyi_libco.Fd.Entries.{close-co_accept}
use jkyi_libco.Fd.{System, co_accept, close, Table, new_rpc, fcntl, f_setfl, f_getfl, get_by_fd}
use jkyi_libco.Fd.Flags.{get_flags-set_flags, settable}
use jkyi_libco.Io.{Ret, done, failed, write, send, entry}
use jkyi_libco.Io.Write.{write-Sent}
use jkyi_libco.Io.Send.{send-resends}
use jkyi_libco.Poll.{Pollfd}
use jkyi_libco.Tests.Calls.{slow, table, kernel}

abbrev buf : List ℕ
buf = 7 ∷ 8 ∷ 9 ∷ []

known_3 : entry true 3 table ≡ some new_rpc
unfolding entry get_by_fd
known_3 = refl

there_3 : get_by_fd 3 table ≡ some new_rpc
unfolding get_by_fd
there_3 = refl

write_example :
    (r : Ret) × (w : List ℕ) × (write slow 4 true 3 buf table [] ≡ ok (r, w))
    × (((n : ℕ) × (r ≡ done n) × (n ≤ 3) × (w ≡ take n buf))
        ⊎ ((e : ℕ) × (r ≡ failed e) × (w ≡ [])))
write_example =
    write-Sent slow 3 (λ w. w) (λ b w n h. ground arith) (λ b w e h. cc) (λ e t w. refl) buf 4 true
      table [] (omega arith)

resends_example :
    (w : List ℕ) × (send slow 2 true 3 buf 3 0 table [] ≡ ok (4, w))
    × (w ≡ take 2 buf ++ take 2 buf)
resends_example =
    send-resends slow 3 0 3 (λ w. w) (λ b w n h. ground arith) (λ e t w. refl) buf table new_rpc
      known_3 (omega arith) [] 2 2 refl refl (omega arith) (omega arith) (omega arith)

-- A kernel that keeps the access mode of the descriptor, 2 for O_RDWR.
abbrev modes : System (ℕ → ℕ)
modes = record kernel {
  sys_fcntl = λ fd cmd arg w. elim arg [
    | none ↦ (w fd, w)
    | some v ↦ (0, λ k. if k == fd then lor 32 (land 32 v 289792) 2 else w k)
  ];
}

settable_bits : (k : ℕ) → settable k ≡ true → (k < 32) × (bit k 289792 ≡ true) × (bit k 2 ≡ false)
settable_bits k can = elim (eq-cases k 10) [
  | inl e ↦ rw e (omega arith, refl, refl)
  | inr a ↦ elim (eq-cases k 11) [
    | inl e ↦ rw e (omega arith, refl, refl)
    | inr b ↦ elim (eq-cases k 13) [
      | inl e ↦ rw e (omega arith, refl, refl)
      | inr c ↦ elim (eq-cases k 14) [
        | inl e ↦ rw e (omega arith, refl, refl)
        | inr d ↦ elim (eq-cases k 18) [
          | inl e ↦ rw e (omega arith, refl, refl)
          | inr e ↦ absurd (ground (arith, can))
        ]
      ]
    ]
  ]
]

settable_kept : (k v : ℕ) → settable k ≡ true → bit k (lor 32 (land 32 v 289792) 2) ≡ bit k v
settable_kept k v can =
    let (h, inside, outside) = settable_bits k can in
    bit-lor 32 k (land 32 v 289792) 2 h ∙ ground (arith, bit-land 32 k v 289792 h, inside, outside)

modes_keep :
    (w w' : ℕ → ℕ) (v : ℕ)
    → modes.sys_fcntl 3 f_setfl (some v) w ≡ (0, w')
    → (k : ℕ) → settable k ≡ true
    → bit k (modes.sys_fcntl 3 f_getfl none w').0 ≡ bit k v
modes_keep w w' v h k can =
    let at : w' 3 ≡ lor 32 (land 32 v 289792) 2 = ground (arith, h) in
    ap (bit k) at ∙ settable_kept k v can

flags_example :
    (t : Table) × (fcntl modes true 3 f_setfl 1029 (λ k. 2) table
      ≡ (0, (λ k. if k == 3 then 3074 else 2), t))
    × (bit 11 3074 ≡ true)
    × ((k : ℕ)
        → k < 32
        → bit k (fcntl modes true 3 f_getfl 0 (λ k. if k == 3 then 3074 else 2) t).0
          ≡ (if settable k then bit k 1029 else bit k 3074))
flags_example =
    get_flags-set_flags modes 3 1029 (λ k. 2) (λ k. if k == 3 then 3074 else 2) table new_rpc
      modes_keep there_3 refl

abbrev twice : List Pollfd
twice = record { fd = 3; events = 1; revents = 0 } ∷ record { fd = 3; events = 4; revents = 0 } ∷ []

accept_example :
    ((2 ^ 31 ≤ 4) × (co_accept kernel 3 (λ k. 0) table ≡ ok (4, (λ k. 0), table)))
    ⊎ (((4 < 102400)
          × (u v : Table) × (co_accept kernel 3 (λ k. 0) table ≡ ok (4, (λ k. 0), u))
          × (get_by_fd 4 u ≡ some new_rpc)
          × (close kernel true 4 (λ k. 0) u ≡ ok (0, (λ k. 0), v))
          × (get_by_fd 4 v ≡ none)
          × ((other : ℕ) → other ≢ 4 → get_by_fd other v ≡ get_by_fd other table))
        ⊎ ((102400 ≤ 4)
            × (4 < 2 ^ 31)
            × (co_accept kernel 3 (λ k. 0) table ≡ fault)
            × (close kernel true 4 (λ k. 0) table ≡ fault)
            × (get_by_fd 4 table ≡ none)))
accept_example = close-co_accept kernel 3 4 (λ k. 0) (λ k. 0) table refl
