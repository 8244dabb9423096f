-- ===== src/Poll.antt =====
-- The hooked poll of co_hook_sys_call.cc (lines 456 to 499), which joins the entries of one
-- descriptor, and the two event masks of co_routine.cc (614 to 636).
pub mod Events
pub mod Merge
pub mod Spread
use jkyi_libco.Base.{
  get_elem?, ℕ, zero, suc, ◌+◌, ◌^◌, Bool, true, false, ◌&&◌, ◌||◌, not, Option, none, some, List,
  [], ◌∷◌, ◌++◌, length, ◌==◌, ltb, if◌then◌else◌, bit, land, lor,
}

-- struct pollfd: the words of an `int` and of two `short`s.
pub record Pollfd : Type 0 where
  pub fd : ℕ
  pub events : ℕ
  pub revents : ℕ

-- `if(events & A){ e |= B; }` for flags that are the bits `a` and `b` of their masks of `w` bits.
unfoldable pub copy_flag : (w events a b : ℕ) → ℕ → ℕ
copy_flag w events a b e = if bit a events then lor w e (2 ^ b) else e

-- PollEvent2Epoll: IN, OUT, HUP, ERR, RDNORM and WRNORM, the same bits in both masks on Linux.
unfoldable pub poll_event2epoll : ℕ → ℕ
unfolding copy_flag
poll_event2epoll events = copy_flag 32 events 8 8 (
    copy_flag 32 events 6 6 (
      copy_flag 32 events 3 3
        (copy_flag 32 events 4 4 (copy_flag 32 events 2 2 (copy_flag 32 events 0 0 0)))))

-- EpollEvent2Poll, where `e` is a `short`.
unfoldable pub epoll_event2poll : ℕ → ℕ
unfolding copy_flag
epoll_event2poll events = copy_flag 16 events 8 8 (
    copy_flag 16 events 6 6 (
      copy_flag 16 events 3 3
        (copy_flag 16 events 4 4 (copy_flag 16 events 2 2 (copy_flag 16 events 0 0 0)))))

-- `std::map<int,int>`, of which only find and the insertion of an absent key are used.
abbrev pub Index : Type 0
Index = List (ℕ × ℕ)

abbrev pub find : ℕ → Index → Option ℕ
find fd [] = none
find fd ((k, j) ∷ m) = if fd == k then some j else find fd m

-- `fds_merge[j].events |= events`
abbrev pub or_events : ℕ → ℕ → List Pollfd → List Pollfd
or_events j events [] = []
or_events zero events (q ∷ qs) = record q { events = lor 16 q.events events } ∷ qs
or_events (suc j) events (q ∷ qs) = q ∷ or_events j events qs

-- The loop that fills `fds_merge` and the map.
unfoldable pub merge : List Pollfd → List Pollfd → Index → List Pollfd × Index
merge [] merged m = (merged, m)
merge (p ∷ ps) merged m = elim (find p.fd m) [
  | none ↦ merge ps (merged ++ p ∷ []) ((p.fd, length merged) ∷ m)
  | some j ↦ merge ps (or_events j p.events merged) m
]

-- The loop that gives the results back.
unfoldable pub spread : List Pollfd → Index → List Pollfd → List Pollfd
spread merged m [] = []
spread merged m (p ∷ ps) =
    let rest = spread merged m ps in
    elim (find p.fd m) [
      | none ↦ p ∷ rest
      | some j ↦ elim (get_elem? merged j) [
        | none ↦ p ∷ rest
        | some q ↦ record p { revents = land 16 q.revents p.events } ∷ rest
      ]
    ]

-- `ret > 0` of an `int`.
abbrev pub is_positive : ℕ → Bool
is_positive n = ltb 0 n && ltb n (2 ^ 31)

-- poll, with the poll of the system and with co_poll_inner on the scheduler of the thread: both
-- give the result, the entries with their `revents`, and the world.
unfoldable pub poll :
    {W : Type 0}
    → (sys inner : List Pollfd → (timeout : ℕ) → W → ℕ × List Pollfd × W) → Bool
    → List Pollfd
    → (timeout : ℕ) → W
    → ℕ × List Pollfd × W
unfolding merge spread
poll sys inner hooked fds timeout w =
    if not hooked || timeout == 0
    then sys fds timeout w
    else (let (merged, m) : List Pollfd × Index =
          if ltb 1 (length fds) then merge fds [] [] else ([], []) in
        if (length merged == length fds) || (length fds == 1)
        then inner fds timeout w
        else (let (ret, merged, w) = inner merged timeout w in
            (ret, if is_positive ret then spread merged m fds else fds, w)))
