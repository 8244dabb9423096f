-- ===== src/Poll/Events.antt =====
-- The translation of event masks between poll and epoll.
use jkyi_libco.Base.{
  ℕ, ◌^◌, ◌<◌, ◌≡◌, Bool, Bool-cases, inl, inr, ◌&&◌, ◌||◌, arith, ◌==◌, bit, bit-lor, bit-pow,
  bit-zero,
}
use jkyi_libco.Poll.{copy_flag, poll_event2epoll, epoll_event2poll}

bit-copy_flag :
    (w k events j e : ℕ)
    → k < w
    → bit k (copy_flag w events j j e) ≡ (bit k e || (bit k events && (k == j)))
unfolding copy_flag
bit-copy_flag w k events j e h = elim (Bool-cases (k == j)) [
  | inl same ↦ ground (arith, bit-lor w k e (2 ^ j) h, bit-pow k j)
  | inr other ↦ ground (arith, bit-lor w k e (2 ^ j) h, bit-pow k j)
]

-- The bits that both masks know.
abbrev pub known : ℕ → Bool
known k = (k == 0) || (k == 2) || (k == 4) || (k == 3) || (k == 6) || (k == 8)

-- Bit for bit, the mask for epoll is the part of the mask for poll that both know.
bit-poll_event2epoll : (k e : ℕ) → k < 32 → bit k (poll_event2epoll e) ≡ (bit k e && known k)
unfolding poll_event2epoll
bit-poll_event2epoll k e h =
    rw
      (
        bit-copy_flag 32 k e 8,
        bit-copy_flag 32 k e 6,
        bit-copy_flag 32 k e 3,
        bit-copy_flag 32 k e 4,
        bit-copy_flag 32 k e 2,
        bit-copy_flag 32 k e 0,
        bit-zero k,
      )
      (ground arith)

bit-epoll_event2poll : (k e : ℕ) → k < 16 → bit k (epoll_event2poll e) ≡ (bit k e && known k)
unfolding epoll_event2poll
bit-epoll_event2poll k e h =
    rw
      (
        bit-copy_flag 16 k e 8,
        bit-copy_flag 16 k e 6,
        bit-copy_flag 16 k e 3,
        bit-copy_flag 16 k e 4,
        bit-copy_flag 16 k e 2,
        bit-copy_flag 16 k e 0,
        bit-zero k,
      )
      (ground arith)

-- There and back, each bit of a 16-bit mask is kept if it is one of IN, OUT, ERR, HUP, RDNORM and
-- WRNORM, and is cleared otherwise.
epoll_event2poll-poll_event2epoll :
    (k e : ℕ) → k < 16 → bit k (epoll_event2poll (poll_event2epoll e)) ≡ (bit k e && known k)
epoll_event2poll-poll_event2epoll k e h =
    ground
      (arith, bit-epoll_event2poll k (poll_event2epoll e) h, bit-poll_event2epoll k e (omega arith))
