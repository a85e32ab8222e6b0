-- ===== src/Gossip/Seen.antt =====
-- The bounded set of seen identifiers, `SeenMessages` of l1-chain/node/src/gossip.rs.
use bina_blockchain_l.Prelude.{
  ℕ, zero, suc, ◌+◌, ◌/◌, ◌≤◌, ◌≡◌, refl, inl, inr, true, false, not, List, [], ◌∷◌, arith, leb,
  leb→le, Bool-cases, length, take, length-append, All, Bytes, bytes_key, nat_key, same_refl,
  member, set_insert, set_remove, member-set_insert,
}
use bina_blockchain_l.Gossip.{SeenMessages, Runtime, remove_each, make_room, mark_seen}

-- The order in which the set is walked visits members only, and as many as it has.
pub record IsWalk (rt : Runtime) : Type 0 where
  pub walks_members : (ids : List Bytes) → All (λ id. member id ids ≡ true) (rt.set_order ids)
  pub walks_all : (ids : List Bytes) → length (rt.set_order ids) ≡ length ids

pub mark_seen-member :
    (rt : Runtime) (m : SeenMessages) (id : Bytes) → member id (mark_seen rt m id).1.seen ≡ true
unfolding mark_seen
mark_seen-member rt m id = elim (Bool-cases (member id m.seen)) [
  | inl here ↦ rw here here
  | inr absent ↦ rw absent (rw (member-set_insert id id (make_room rt m), same_refl id) refl)
]

pub mark_seen-fresh :
    (rt : Runtime) (m : SeenMessages) (id : Bytes) → (mark_seen rt m id).0 ≡ not (member id m.seen)
unfolding mark_seen
mark_seen-fresh rt m id = ground arith

-- After a message was marked, it is known: marking its identifier again answers false.
pub mark_seen-known :
    (rt : Runtime) (m : SeenMessages) (id : Bytes)
    → mark_seen rt (mark_seen rt m id).1 id ≡ (false, (mark_seen rt m id).1)
unfolding mark_seen
mark_seen-known rt m id = let m' = (mark_seen rt m id).1 in rw (mark_seen-member rt m id) refl

length-set_remove : (id : Bytes) (ids : List Bytes) → length (set_remove id ids) ≤ length ids
length-set_remove id [] = omega arith
length-set_remove id (i ∷ ids) = ground (arith, length-set_remove id ids)

length-set_remove-member :
    (id : Bytes) (ids : List Bytes)
    → member id ids ≡ true
    → length (set_remove id ids) + 1 ≤ length ids
length-set_remove-member id [] h = ground arith
length-set_remove-member id (i ∷ ids) h =
    ground (arith, length-set_remove id ids, length-set_remove-member id ids)

length-remove_each : (gone ids : List Bytes) → length (remove_each gone ids) ≤ length ids
length-remove_each [] ids = omega arith
length-remove_each (id ∷ gone) ids =
    omega (arith, length-remove_each gone (set_remove id ids), length-set_remove id ids)

length-set_insert : (id : Bytes) (ids : List Bytes) → length (set_insert id ids) ≤ length ids + 1
length-set_insert id ids = ground (arith, length-append ids (id ∷ []))

-- A walk of a set that is not empty, cut after at least one step, removes something.
length-remove_walk :
    (walk ids : List Bytes) (n : ℕ)
    → All (λ id. member id ids ≡ true) walk
    → 1 ≤ length walk
    → 1 ≤ n
    → length (remove_each (take n walk) ids) + 1 ≤ length ids
length-remove_walk [] ids n inside long some_step = omega arith
length-remove_walk (id ∷ walk) ids zero inside long some_step = omega arith
length-remove_walk (id ∷ walk) ids (suc n) inside long some_step = omega (
  arith,
  length-remove_each (take n walk) (set_remove id ids),
  length-set_remove-member id ids inside.0,
)

length-make_room :
    (rt : Runtime) (m : SeenMessages)
    → IsWalk rt
    → 2 ≤ m.max_size
    → length m.seen ≤ m.max_size
    → length (make_room rt m) + 1 ≤ m.max_size
unfolding make_room
length-make_room rt m walk two h =
    let some_step : 1 ≤ m.max_size / 2 = omega arith in
    elim (Bool-cases (leb m.max_size (length m.seen))) [
      | inl full ↦
          let long : 1 ≤ length (rt.set_order m.seen) =
            omega (arith, walk.walks_all m.seen, leb→le m.max_size (length m.seen) full) in
          rw full (
            omega (
              arith,
              length-remove_walk (rt.set_order m.seen) m.seen (m.max_size / 2)
                  (walk.walks_members m.seen) long some_step,
            ))
      | inr space ↦ rw space (ground arith)
    ]

-- A set of seen identifiers within its bound of at least two stays within it, whatever is marked.
pub mark_seen-bounded :
    (rt : Runtime) (m : SeenMessages) (id : Bytes)
    → IsWalk rt
    → 2 ≤ m.max_size
    → length m.seen ≤ m.max_size
    → length (mark_seen rt m id).1.seen ≤ m.max_size
unfolding mark_seen
mark_seen-bounded rt m id walk two h = elim (Bool-cases (member id m.seen)) [
  | inl here ↦ rw here h
  | inr absent ↦
      rw absent
        (omega (arith, length-set_insert id (make_room rt m), length-make_room rt m walk two h))
]
