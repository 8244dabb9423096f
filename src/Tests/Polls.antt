-- ===== src/Tests/Polls.antt =====
-- The hooked poll where descriptor 3 occurs twice, and the system has an answer for each descriptor.
use jkyi_libco.Base.{ℕ, ◌+◌, ◌≡◌, refl, List, [], ◌∷◌, map, arith, true, length}
use jkyi_libco.Poll.{Pollfd, merge, poll}
use jkyi_libco.Poll.Spread.{answered, poll-merge}

abbrev entry : ℕ → ℕ → Pollfd
entry fd events = record { fd = fd; events = events; revents = 0 }

-- Three entries for two descriptors.
abbrev twice : List Pollfd
twice = entry 3 1 ∷ entry 5 1 ∷ entry 3 4 ∷ []

-- Input and output at every descriptor.
abbrev ready : ℕ → ℕ
ready fd = 5

abbrev system : List Pollfd → ℕ → ℕ → ℕ × List Pollfd × ℕ
system fds timeout calls = (length fds, map (answered ready) fds, calls + 1)

answers_example : poll system system true twice 100 0 ≡ (
  2,
  record { fd = 3; events = 1; revents = 1 }
      ∷ record { fd = 5; events = 1; revents = 1 }
      ∷ record { fd = 3; events = 4; revents = 4 }
      ∷ [],
  1,
)
unfolding merge
answers_example = poll-merge system system twice 100 0 ready refl (omega arith) (omega arith) refl
