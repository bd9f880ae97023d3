-- ===== src/State.antt =====
-- src/state.rs: the state that the manifest describes, and the operations that change it.
-- Where `apply` fails it has changed nothing, so an error carries no state.
pub mod View
pub mod Invariant
pub mod Codec
use woodshed.Base.{
  ℕ, ◌+◌, Bool, true, false, not, ◌&&◌, ◌||◌, List, [], ◌∷◌, ◌++◌, Option, none, some, Result, ok,
  err, ◌>>=◌, ltb, ◌==◌, if◌then◌else◌,
}
use woodshed.Base.Dict.{lookup, insert, remove, contains, erase, add}

abbrev pub SegmentId : Type 0
SegmentId = ℕ

abbrev pub EntryId : Type 0
EntryId = ℕ

-- Metadata pairs, by key.
abbrev pub Meta : Type 0
Meta = List (ℕ × List ℕ)

pub record SegmentEntry : Type 0 where
  pub id : SegmentId
  pub first_entry : EntryId

pub record SealInfo : Type 0 where
  pub first_entry : EntryId
  pub last_entry : EntryId
  pub entry_count : ℕ
  pub final_size : ℕ

pub record StoreState : Type 0 where
  pub segments : List SegmentEntry
  pub seals : List (SegmentId × SealInfo)
  pub active_segment_id : Option SegmentId
  pub dead : List SegmentId
  pub first_entry : EntryId
  pub meta : Meta

abbrev pub empty : StoreState
empty = record {
  segments = [];
  seals = [];
  active_segment_id = none;
  dead = [];
  first_entry = 0;
  meta = [];
}

pub data Op : Type 0 where
  create_segment : SegmentId → EntryId → Op
  -- the sealed id, its first and last entry, their number, its size; the new id and its first entry
  roll_segment : SegmentId → EntryId → EntryId → ℕ → ℕ → SegmentId → EntryId → Op
  truncate_start : EntryId → List SegmentId → Op
  -- the segment that is active again, its size, the segments behind it
  truncate_end : SegmentId → ℕ → List SegmentId → Op
  segment_deleted : SegmentId → Op
  record_orphan : SegmentId → Op
  metadata : Op

pub record ManifestOp : Type 0 where
  pub op : Op
  pub meta : Meta

abbrev pub bare : Op → ManifestOp
bare op = record { op = op; meta = [] }

abbrev pub with_meta : Op → Meta → ManifestOp
with_meta op meta = record { op = op; meta = meta }

pub data ApplyError : Type 0 where
  store_not_empty : ApplyError
  not_active_segment : SegmentId → ApplyError
  truncate_start_before_first : EntryId → ApplyError
  segment_not_found : SegmentId → ApplyError
  segment_not_dead : SegmentId → ApplyError

unfoldable pub is_empty : List SegmentEntry → Bool
is_empty [] = true
is_empty (e ∷ es) = false

-- `segments.iter().any(|s| s.id == id)`
unfoldable pub is_live : SegmentId → List SegmentEntry → Bool
is_live id [] = false
is_live id (e ∷ es) = e.id == id || is_live id es

-- `segments.iter().find(|s| s.id == id)`
unfoldable pub find_segment : SegmentId → List SegmentEntry → Option SegmentEntry
find_segment id [] = none
find_segment id (e ∷ es) = if e.id == id then some e else find_segment id es

unfoldable pub active_segment : StoreState → Option SegmentEntry
unfolding find_segment
active_segment s = elim s.active_segment_id [ none ↦ none | some id ↦ find_segment id s.segments ]

unfoldable pub seal : StoreState → SegmentId → Option SealInfo
unfolding lookup
seal s id = lookup id s.seals

-- `segments.retain(|s| s.id != id)`
unfoldable pub without : SegmentId → List SegmentEntry → List SegmentEntry
without id [] = []
without id (e ∷ es) = let rest = without id es in if e.id == id then rest else e ∷ rest

unfoldable pub kill_segment : StoreState → SegmentId → StoreState
unfolding without remove add
kill_segment s id = record s {
  segments = without id s.segments;
  seals = remove id s.seals;
  dead = add id s.dead;
}

-- `for id in drop { self.kill_segment(id); }`
unfoldable pub kill_all : StoreState → List SegmentId → StoreState
unfolding kill_segment
kill_all s [] = s
kill_all s (id ∷ ids) = kill_all (kill_segment s id) ids

unfoldable pub apply_create : StoreState → SegmentId → EntryId → Result ApplyError StoreState
unfolding is_empty
apply_create s id first =
    if is_empty s.segments
    then ok (record s {
      first_entry = first;
      segments = s.segments ++ (record { id = id; first_entry = first } ∷ []);
      active_segment_id = some id;
    })
    else err store_not_empty

-- `self.active_segment_id != Some(id)`, negated
unfoldable pub is_active : Option SegmentId → SegmentId → Bool
is_active none id = false
is_active (some a) id = a == id

unfoldable pub apply_roll :
    StoreState → SegmentId → SealInfo → SegmentId → EntryId → Result ApplyError StoreState
unfolding is_active insert
apply_roll s sealed_id info new_id new_first =
    if is_active s.active_segment_id sealed_id
    then ok (record s {
      seals = insert sealed_id info s.seals;
      segments = s.segments ++ (record { id = new_id; first_entry = new_first } ∷ []);
      active_segment_id = some new_id;
    })
    else err (not_active_segment sealed_id)

unfoldable pub apply_truncate_start :
    StoreState → EntryId → List SegmentId → Result ApplyError StoreState
unfolding kill_all
apply_truncate_start s first drop =
    if ltb first s.first_entry
    then err (truncate_start_before_first first)
    else ok (record (kill_all s drop) { first_entry = first })

-- The first of the ids that is no live segment.
unfoldable pub first_unknown : List SegmentId → List SegmentEntry → Option SegmentId
unfolding is_live
first_unknown [] es = none
first_unknown (id ∷ ids) es = if is_live id es then first_unknown ids es else some id

unfoldable pub apply_truncate_end :
    StoreState → SegmentId → List SegmentId → Result ApplyError StoreState
unfolding first_unknown kill_all
apply_truncate_end s new_active drop =
    let s' = kill_all s drop in
    elim (first_unknown drop s.segments) [
      | some id ↦ err (segment_not_found id)
      | none ↦
          if is_live new_active s.segments
          then ok (record s' {
            seals = remove new_active s'.seals;
            active_segment_id = some new_active;
          })
          else err (segment_not_found new_active)
    ]

unfoldable pub apply_deleted : StoreState → SegmentId → Result ApplyError StoreState
unfolding contains erase
apply_deleted s id =
    if contains id s.dead
    then ok (record s { dead = erase id s.dead })
    else err (segment_not_dead id)

unfoldable pub apply_op : StoreState → Op → Result ApplyError StoreState
unfolding apply_create apply_roll apply_truncate_start apply_truncate_end apply_deleted
apply_op s (create_segment id first) = apply_create s id first
apply_op s (roll_segment sealed_id first last count size new_id new_first) =
    apply_roll s sealed_id
      (record { first_entry = first; last_entry = last; entry_count = count; final_size = size })
      new_id new_first
apply_op s (truncate_start first drop) = apply_truncate_start s first drop
apply_op s (truncate_end new_active _ drop) = apply_truncate_end s new_active drop
apply_op s (segment_deleted id) = apply_deleted s id
apply_op s (record_orphan id) = ok (record s { dead = add id s.dead })
apply_op s metadata = ok s

-- A pair overwrites the value of its key where it stands, or is added behind.
unfoldable pub set_meta : Meta → ℕ → List ℕ → Meta
set_meta [] key value = (key, value) ∷ []
set_meta ((k, v) ∷ m) key value = if k == key then (k, value) ∷ m else (k, v) ∷ set_meta m key value

unfoldable pub set_all : Meta → Meta → Meta
unfolding set_meta
set_all m [] = m
set_all m ((key, value) ∷ pairs) = set_all (set_meta m key value) pairs

-- `StoreState::apply`
unfoldable pub apply : StoreState → ManifestOp → Result ApplyError StoreState
unfolding apply_op set_all
apply s entry = do s' ← apply_op s entry.op; ok (record s' { meta = set_all s'.meta entry.meta })
