-- ===== src/Link.antt =====
-- The intrusive doubly linked lists of co_routine.cc (lines 122 to 217). The templates serve
-- stTimeoutItem_t in stTimeoutItemLink_t and stCoCondItem_t in stCoCond_t: of the item they use
-- the three pointers below, of the list its two ends.
pub mod Chain
pub mod View
pub mod AddTail
pub mod Unlink
pub mod Remove
pub mod PopHead
pub mod Joined
pub mod Join
pub mod Alloc
pub mod Move
use jkyi_libco.Base.{
  ℕ, zero, suc, true, false, ◌||◌, Option, none, some, Ptr, null, ◌==◌, if◌then◌else◌, not_null,
}
use jkyi_libco.Base.Run.{Run, ok, fault, out_of_fuel, ◌>>=◌}

pub record Node : Type 0 where
  pub prev : Ptr
  pub next : Ptr
  pub link : Ptr

-- A node that calloc or memset has cleared, and that is in no list.
abbrev pub detached : Node
detached = record { prev = null; next = null; link = null }

pub record Ends : Type 0 where
  pub head : Ptr
  pub tail : Ptr

abbrev pub no_ends : Ends
no_ends = record { head = null; tail = null }

-- `none` at an address: no item is allocated there. The list heads are never given back while
-- items use them, so `ends` is total.
pub record Store : Type 0 where
  pub node : Ptr → Option Node
  pub ends : Ptr → Ends

abbrev pub write {ℓ} : {A : Type ℓ} → (Ptr → A) → Ptr → A → Ptr → A
write f p a q = if q == p then a else f q

abbrev pub load : Store → Ptr → Run Node
load s p = elim (s.node p) [ none ↦ fault | some n ↦ ok n ]

-- `p->field = …` reads the item for its other fields, and faults where there is none.
abbrev pub set_node : Store → Ptr → (Node → Node) → Run Store
set_node s p f = elim (s.node p) [
  | none ↦ fault
  | some n ↦ ok (record s { node = write s.node p (some (f n)) })
]

abbrev pub set_prev : Ptr → Ptr → Store → Run Store
set_prev p v s = set_node s p λ n. record n { prev = v }

abbrev pub set_next : Ptr → Ptr → Store → Run Store
set_next p v s = set_node s p λ n. record n { next = v }

abbrev pub set_link : Ptr → Ptr → Store → Run Store
set_link p v s = set_node s p λ n. record n { link = v }

abbrev pub set_head : Ptr → Ptr → Store → Store
set_head l v s = record s { ends = write s.ends l (record { head = v; tail = (s.ends l).tail }) }

abbrev pub set_tail : Ptr → Ptr → Store → Store
set_tail l v s = record s { ends = write s.ends l (record { head = (s.ends l).head; tail = v }) }

-- `if(p) p->field = …`
abbrev pub when_set : Ptr → Run Store → Store → Run Store
when_set p r s = if p == null then ok s else r

-- Unlinking on the side of the head, lines 133 to 143.
unfoldable pub unlink_head : Ptr → Ptr → Store → Run Store
unlink_head l ap s = do
  n ← load s ap
  if ap == (s.ends l).head
      then (let s' = set_head l n.next s in
          when_set (s'.ends l).head (set_prev (s'.ends l).head null s') s')
      else when_set n.prev (set_next n.prev n.next s) s

-- Unlinking on the side of the tail, lines 145 to 152.
unfoldable pub unlink_tail : Ptr → Ptr → Store → Run Store
unlink_tail l ap s = do
  n ← load s ap
  if ap == (s.ends l).tail
      then (let s' = set_tail l n.prev s in when_set n.prev (set_next n.prev null s') s')
      else set_prev n.next n.prev s

-- RemoveFromLink. The assertion of line 131 is a fault.
unfoldable pub remove_from_link : Ptr → Store → Run Store
unfolding unlink_head unlink_tail
remove_from_link ap s = do
  n ← load s ap
  if n.link == null
      then ok s
      else (if (s.ends n.link).head == null || (s.ends n.link).tail == null then fault else (do
        s ← unlink_head n.link ap s
        s ← unlink_tail n.link ap s
        set_node s ap λ _. detached))

-- AddTail: an item that is in a list already stays where it is.
unfoldable pub add_tail : Ptr → Ptr → Store → Run Store
add_tail l ap s = do
  n ← load s ap
  if not_null n.link
      then ok s
      else (if not_null (s.ends l).tail
          then (do
            s ← set_next (s.ends l).tail ap s
            s ← set_prev ap (s.ends l).tail s
            s ← set_next ap null s
            set_link ap l (set_tail l ap s))
          else (do
            let s' = set_head l ap (set_tail l ap s)
            s ← set_prev ap null s'
            s ← set_next ap null s
            set_link ap l s))

-- PopHead. The popped item is the head before the call.
unfoldable pub pop_head : Ptr → Store → Run Store
pop_head l s =
    if (s.ends l).head == null
    then ok s
    else (let ap = (s.ends l).head in
        do
          n ← load s ap
          let s' =
              if ap == (s.ends l).tail
              then set_tail l null (set_head l null s)
              else set_head l n.next s
          s ← set_node s' ap λ _. detached
          when_set (s.ends l).head (set_prev (s.ends l).head null s) s)

-- The loop of Join that turns `pLink` of each item from `p` on.
unfoldable pub relink : ℕ → Ptr → Ptr → Store → Run Store
relink zero l p s = out_of_fuel
relink (suc fuel) l p s = elim (p == null) [
  | true ↦ ok s
  | false ↦ elim (s.node p) [
    | none ↦ fault
    | some n ↦
        relink fuel l n.next (record s { node = write s.node p (some (record n { link = l })) })
  ]
]

-- Join: the items of `other` go to the end of `l`.
unfoldable pub join : ℕ → Ptr → Ptr → Store → Run Store
unfolding relink
join fuel l other s = if (s.ends other).head == null then ok s else (do
  s ← relink fuel l (s.ends other).head s
  let ap = (s.ends other).head
  s ←
      if not_null (s.ends l).tail
      then (do
        s ← set_next (s.ends l).tail ap s
        s ← set_prev ap (s.ends l).tail s
        ok (set_tail l (s.ends other).tail s))
      else ok (set_head l (s.ends other).head (set_tail l (s.ends other).tail s))
  ok (set_tail other null (set_head other null s)))

-- calloc of an item at the address `p`, and free.
abbrev pub calloc : Ptr → Store → Store
calloc p s = record s { node = write s.node p (some detached) }

abbrev pub free : Ptr → Store → Store
free p s = record s { node = write s.node p none }
