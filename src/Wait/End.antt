-- ===== src/Wait/End.antt =====
-- The second half of co_poll_inner (co_routine.cc, lines 876 to 896): what poll returns, and what is
-- left of the stPoll_t.
use jkyi_libco.Base.{
  ℕ, zero, suc, ◌+◌, ◌≡◌, refl, ap, subst, arith, some, none, List, [], ◌∷◌, Ptr, length, get_elem?,
  ==_refl, if◌then◌else◌, has-erase,
}
use jkyi_libco.Base.Run.{ok}
use jkyi_libco.Link.{Node, Store, free}
use jkyi_libco.Link.View.{Lists, Represents}
use jkyi_libco.Link.Remove.{without, remove_from_link-Updates}
use jkyi_libco.Link.Alloc.{free_of_absent, node_of_allocated, free-Represents}
use jkyi_libco.Fd.{is_fd}
use jkyi_libco.Poll.{Pollfd}
use jkyi_libco.Loop.{Sched}
use jkyi_libco.Wait.{Epoll, unregister_all, poll_end}

-- The results of poll, from what has been recorded: the mask of each entry.
abbrev pub answers : ℕ → (ℕ → ℕ) → List Pollfd → List Pollfd
answers i revents [] = []
answers i revents (f ∷ fs) = record f { revents = revents i } ∷ answers (i + 1) revents fs

length-answers :
    (i : ℕ) (revents : ℕ → ℕ) (fs : List Pollfd) → length (answers i revents fs) ≡ length fs
length-answers i revents [] = refl
length-answers i revents (f ∷ fs) = ap suc (length-answers (i + 1) revents fs)

get_elem?-answers :
    (revents : ℕ → ℕ) (i : ℕ) (fs : List Pollfd) (j : ℕ) (f : Pollfd)
    → get_elem? fs j ≡ some f
    → get_elem? (answers i revents fs) j ≡ some (record f { revents = revents (i + j) })
get_elem?-answers revents i [] j f h = cc
get_elem?-answers revents i (g ∷ fs) zero f h =
    let at : i + 0 ≡ i = omega arith in rw at (ground (arith, h))
get_elem?-answers revents i (g ∷ fs) (suc j) f h =
    let at : i + suc j ≡ i + 1 + j = omega arith in
    rw at (get_elem?-answers revents (i + 1) fs j f h)

module _ {W : Type 0} (epoll : Epoll W) where
  -- The descriptors of the entries, taken out of epoll one after the other.
  abbrev pub deleted : List Pollfd → W → W
  deleted [] w = w
  deleted (f ∷ fs) w = deleted fs (if is_fd f.fd then epoll.del f.fd w else w)

  unregister_lem :
      (revents : ℕ → ℕ) (i : ℕ) (fs : List Pollfd) (w : W)
      → unregister_all epoll revents i fs w ≡ (answers i revents fs, deleted fs w)
  unfolding unregister_all
  unregister_lem revents i [] w = refl
  unregister_lem revents i (f ∷ fs) w =
      rw (unregister_lem revents (i + 1) fs (if is_fd f.fd then epoll.del f.fd w else w)) refl

  -- The second half, with what it leaves alone.
  pub poll_end_kept :
      (p : Ptr) (fds : List Pollfd) (z : Sched W) (L : Lists) (n : Node)
      → Represents z.timers L
      → z.timers.node p ≡ some n
      → (t : Store) × (poll_end epoll p fds z
          ≡ ok (
            (z.polls p).raised,
            answers 0 (z.polls p).revents fds,
            record z { timers = t; world = deleted fds z.world },
          ))
        × Represents t (without p L)
        × (t.node p ≡ none)
  unfolding poll_end
  poll_end_kept p fds z L n r at =
      let (t, run, r', same) = remove_from_link-Updates z.timers L p n r at in
      let (m, at') = node_of_allocated z.timers t p n (same p) at in
      let unlinked =
        free_of_absent t (without p L) p m r' at'
          (λ k. ground (arith, has-erase p p (L k) (r.distinct k))) in
      (
        free p t,
        ground (arith, run, unregister_lem (z.polls p).revents 0 fds z.world),
        free-Represents t (without p L) p r' m at' unlinked,
        ground (arith, ==_refl p),
      )

  -- In a store of well-formed lists, where the stPoll_t at `p` is allocated, the second half does
  -- not fault. It returns the number of events; the entry at `j` has the events that were stored
  -- for it, its descriptor and what it asked for as they were, and there are as many entries; the
  -- descriptors have been taken out of epoll in order; and the stPoll_t is freed, in no list.
  pub poll_end-frees :
      (p : Ptr) (fds : List Pollfd) (z : Sched W) (L : Lists) (n : Node) (j : ℕ) (f : Pollfd)
      → Represents z.timers L
      → z.timers.node p ≡ some n
      → get_elem? fds j ≡ some f
      → (gs : List Pollfd) × (u : Sched W) × (poll_end epoll p fds z
          ≡ ok ((z.polls p).raised, gs, u))
        × (length gs ≡ length fds)
        × (get_elem? gs j ≡ some (record f { revents = (z.polls p).revents j }))
        × (u.world ≡ deleted fds z.world)
        × (u.timers.node p ≡ none)
        × Represents u.timers (without p L)
  poll_end-frees p fds z L n j f r at entry =
      let (t, run, view, freed) = poll_end_kept p fds z L n r at in
      let first : 0 + j ≡ j = omega arith in
      (
        answers 0 (z.polls p).revents fds,
        record z { timers = t; world = deleted fds z.world },
        run,
        length-answers 0 (z.polls p).revents fds,
        subst
            (λ k.
              get_elem? (answers 0 (z.polls p).revents fds) j
              ≡ some (record f { revents = (z.polls p).revents k }))
            first (get_elem?-answers (z.polls p).revents 0 fds j f entry),
        refl,
        freed,
        view,
      )
