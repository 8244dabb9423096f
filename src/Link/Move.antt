-- ===== src/Link/Move.antt =====
-- RemoveFromLink and then AddTail: an item changes its list.
use jkyi_libco.Base.{◌≡◌, ◌≢◌, false, some, [], ◌∷◌, ◌++◌, arith, Ptr, null, has, erase, has-erase}
use jkyi_libco.Base.Run.{◌>>=◌}
use jkyi_libco.Link.{Node, Store, write, remove_from_link, add_tail}
use jkyi_libco.Link.View.{Lists, Represents, Updates}
use jkyi_libco.Link.AddTail.{add_tail-free}
use jkyi_libco.Link.Remove.{without, remove_from_link-Updates}
use jkyi_libco.Link.Alloc.{free_of_absent, node_of_allocated}

-- The item `p` is nowhere but at the end of the list `l`.
abbrev pub moved : Ptr → Ptr → Lists → Lists
moved l p L = write (without p L) l (erase p (L l) ++ p ∷ [])

without-absent :
    (s : Store) (L : Lists) (p k : Ptr) → Represents s L → has p (without p L k) ≡ false
without-absent s L p k r = ground (arith, has-erase p p (L k) (r.distinct k))

pub moved-Updates :
    (s : Store) (L : Lists) (l p : Ptr) (n : Node)
    → Represents s L
    → s.node p ≡ some n
    → l ≢ null
    → Updates s (remove_from_link p s >>= add_tail l p) (moved l p L)
moved-Updates s L l p n r e nn =
    let (t, run, r', same) = remove_from_link-Updates s L p n r e in
    let (m, e') = node_of_allocated s t p n (same p) e in
    let unlinked = free_of_absent t (without p L) p m r' e' (λ k. without-absent s L p k r) in
    let (u, run', r'', same') = add_tail-free t (without p L) l p m r' e' unlinked nn in
    (u, ground (arith, run, run'), r'', λ q. ground (arith, same q, same' q))
