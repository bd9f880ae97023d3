-- ===== src/State/Invariant.antt =====
-- The well-formed states of src/state.rs, and the operations that the store makes on them.
use woodshed.Base.{
  ℕ, Bool, true, false, ◌≡◌, refl, ◌⊎◌, List, [], ◌∷◌, Option, none, some, arith, ok, ok-injective,
  >>=-eq-ok, subst,
}
use woodshed.Base.Dict.{
  lookup, contains, add, lookup-remove, lookup-insert, contains-add, contains-erase,
}
use woodshed.State.{
  SegmentId, SegmentEntry, SealInfo, StoreState, Meta, Op, ManifestOp, empty, create_segment,
  roll_segment, truncate_start, truncate_end, segment_deleted, record_orphan, metadata, is_live,
  is_active, is_empty, kill_all, apply_create, apply_roll, apply_truncate_start, apply_truncate_end,
  apply_deleted, apply_op, apply,
}
use woodshed.State.View.{
  is_live-append, is_live-kill_all, contains-kill_all, lookup-kill_all, active-kill_all,
}

abbrev pub is_some {ℓ} : {A : Type ℓ} → Option A → Bool
is_some none = false
is_some (some a) = true

-- What a well-formed state says of one segment id.
pub record WellFormedAt (s : StoreState) (j : SegmentId) : Type 0 where
  pub active_live : is_active s.active_segment_id j ≡ true → is_live j s.segments ≡ true
  pub active_unsealed : is_active s.active_segment_id j ≡ true → lookup j s.seals ≡ none
  pub live_sealed :
      is_live j s.segments ≡ true
      → is_active s.active_segment_id j ≡ false
      → is_some (lookup j s.seals) ≡ true
  pub seal_live : is_live j s.segments ≡ false → lookup j s.seals ≡ none
  pub dead_apart : contains j s.dead ≡ true → is_live j s.segments ≡ false
  pub some_active : is_live j s.segments ≡ true → is_some s.active_segment_id ≡ true

-- The active segment is live and has no seal, every other live segment has one, no other segment has one,
-- no dead segment is live, and where a segment is live one is active.
abbrev pub IsWellFormed : StoreState → Type 0
IsWellFormed s = (j : SegmentId) → WellFormedAt s j

-- What the store sees to before it writes an operation.
abbrev pub IsValid : StoreState → Op → Type 0
IsValid s (create_segment id first) = contains id s.dead ≡ false
IsValid s (roll_segment sealed_id first last count size new_id new_first) =
    (is_live new_id s.segments ≡ false) × (contains new_id s.dead ≡ false)
IsValid s (truncate_start first drop) =
    (j : SegmentId) → is_active s.active_segment_id j ≡ true → contains j drop ≡ false
IsValid s (truncate_end new_active offset drop) =
    (contains new_active drop ≡ false)
    × ((j : SegmentId)
        → is_active s.active_segment_id j ≡ true
        → (contains j drop ≡ true) ⊎ (j ≡ new_active))
IsValid s (record_orphan id) = is_live id s.segments ≡ false
IsValid s _ = Unit

pub empty-IsWellFormed : IsWellFormed empty
unfolding is_live is_active lookup contains
empty-IsWellFormed j = ground arith

is_empty_lem : (es : List SegmentEntry) (j : SegmentId) → is_empty es ≡ true → is_live j es ≡ false
unfolding is_empty is_live
is_empty_lem [] j h = refl
is_empty_lem (e ∷ es) j h = ground arith

-- Each operation, at each id.
module _ (s t : StoreState) (w : IsWellFormed s) (j : SegmentId) where
  create-WellFormedAt :
      (id first : ℕ)
      → contains id s.dead ≡ false
      → apply_create s id first ≡ ok t
      → WellFormedAt t j
  unfolding apply_create is_active is_live
  create-WellFormedAt id first v e = ground (
    arith,
    w j,
    w id,
    is_empty_lem s.segments j,
    is_empty_lem s.segments id,
    is_live-append j s.segments (record { id = id; first_entry = first } ∷ []),
  )

  roll-WellFormedAt :
      (sealed_id : ℕ) (info : SealInfo) (new_id first : ℕ)
      → is_live new_id s.segments ≡ false
      → contains new_id s.dead ≡ false
      → apply_roll s sealed_id info new_id first ≡ ok t
      → WellFormedAt t j
  unfolding apply_roll is_active is_live
  roll-WellFormedAt sealed_id info new_id first v v' e = ground (
    arith,
    w j,
    w new_id,
    w sealed_id,
    lookup-insert sealed_id j info s.seals,
    is_live-append j s.segments (record { id = new_id; first_entry = first } ∷ []),
  )

  truncate_start-WellFormedAt :
      (first : ℕ) (drop : List SegmentId)
      → (is_active s.active_segment_id j ≡ true → contains j drop ≡ false)
      → apply_truncate_start s first drop ≡ ok t
      → WellFormedAt t j
  unfolding apply_truncate_start
  truncate_start-WellFormedAt first drop v e = ground (
    arith,
    w j,
    is_live-kill_all j s drop,
    contains-kill_all j s drop,
    lookup-kill_all j s drop,
    active-kill_all s drop,
  )

  truncate_end-WellFormedAt :
      (new_active : ℕ) (drop : List SegmentId)
      → contains new_active drop ≡ false
      → (is_active s.active_segment_id j ≡ true → (contains j drop ≡ true) ⊎ (j ≡ new_active))
      → apply_truncate_end s new_active drop ≡ ok t
      → WellFormedAt t j
  unfolding apply_truncate_end is_active
  truncate_end-WellFormedAt new_active drop v v' e = ground (
    arith,
    w j,
    w new_active,
    is_live-kill_all j s drop,
    contains-kill_all j s drop,
    lookup-kill_all j s drop,
    lookup-remove new_active j (kill_all s drop).seals,
    active-kill_all s drop,
  )

  deleted-WellFormedAt : (id : ℕ) → apply_deleted s id ≡ ok t → WellFormedAt t j
  unfolding apply_deleted
  deleted-WellFormedAt id e = ground (arith, w j, contains-erase id j s.dead)

orphan-WellFormedAt :
    (s : StoreState) (id : SegmentId)
    → is_live id s.segments ≡ false
    → IsWellFormed s
    → (j : SegmentId) → WellFormedAt (record s { dead = add id s.dead }) j
orphan-WellFormedAt s id v w j = ground (arith, w j, contains-add id j s.dead)

apply_op-IsWellFormed :
    (s t : StoreState) (op : Op)
    → IsWellFormed s
    → IsValid s op
    → apply_op s op ≡ ok t
    → IsWellFormed t
unfolding apply_op
apply_op-IsWellFormed s t (create_segment id first) w v e j =
    create-WellFormedAt s t w j id first v e
apply_op-IsWellFormed s t (roll_segment sealed_id first last count size new_id new_first) w v e j =
    roll-WellFormedAt s t w j sealed_id _ new_id new_first v.0 v.1 e
apply_op-IsWellFormed s t (truncate_start first drop) w v e j =
    truncate_start-WellFormedAt s t w j first drop (v j) e
apply_op-IsWellFormed s t (truncate_end new_active offset drop) w v e j =
    truncate_end-WellFormedAt s t w j new_active drop v.0 (v.1 j) e
apply_op-IsWellFormed s t (segment_deleted id) w v e j = deleted-WellFormedAt s t w j id e
apply_op-IsWellFormed s t (record_orphan id) w v e j =
    subst IsWellFormed (ok-injective e) (orphan-WellFormedAt s id v w) j
apply_op-IsWellFormed s t metadata w v e j = subst IsWellFormed (ok-injective e) w j

meta-IsWellFormed :
    (s : StoreState) (m : Meta) → IsWellFormed s → IsWellFormed (record s { meta = m })
meta-IsWellFormed s m w j = ground (arith, w j)

-- An operation that the store sees to be valid, and that applies to a well-formed state, leaves a
-- well-formed state.
pub apply-IsWellFormed :
    (s t : StoreState) (entry : ManifestOp)
    → IsWellFormed s
    → IsValid s entry.op
    → apply s entry ≡ ok t
    → IsWellFormed t
unfolding apply
apply-IsWellFormed s t entry w v e =
    let (s', rest, applied) = >>=-eq-ok t (apply_op s entry.op) e in
    subst IsWellFormed (ok-injective rest)
      (meta-IsWellFormed s' _ (apply_op-IsWellFormed s s' entry.op w v applied))
