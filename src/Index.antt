-- ===== src/Index.antt =====
-- src/index.rs: where to start reading to reach an entry, from checkpoints at a stride.
pub mod Floor
pub mod Cut
pub mod Truncated
use woodshed.Base.{
  ℕ, zero, suc, ◌-◌, Bool, true, false, List, [], ◌∷◌, ◌++◌, Option, none, some, get_elem?, take,
  drop, ltb, leb, ◌==◌, if◌then◌else◌,
}
use woodshed.State.{SegmentId, EntryId}

-- `partition_point` of a slice that is partitioned by the test, as it is where the ids ascend: the
-- number of the leading elements that pass. On other slices Rust leaves the result open.
unfoldable pub partition_point {ℓ} : {A : Type ℓ} → (A → Bool) → List A → ℕ
partition_point test [] = 0
partition_point test (x ∷ xs) = let rest = partition_point test xs in if test x then suc rest else 0

-- An entry id, and the offset of its frame.
abbrev pub Checkpoint : Type 0
Checkpoint = EntryId × ℕ

pub record SegmentIndex : Type 0 where
  pub checkpoints : List Checkpoint

unfoldable pub first_id : SegmentIndex → Option EntryId
first_id index = elim index.checkpoints [ [] ↦ none | c ∷ _ ↦ some c.0 ]

-- The element before position `pos`.
unfoldable pub before {ℓ} : {A : Type ℓ} → List A → ℕ → Option A
before xs zero = none
before xs (suc pos) = get_elem? xs pos

-- `SegmentIndex::find`
unfoldable pub find_checkpoint : SegmentIndex → EntryId → Option Checkpoint
unfolding partition_point before
find_checkpoint index target =
    before index.checkpoints (partition_point (λ c. leb c.0 target) index.checkpoints)

-- `SegmentIndex::truncate_start`
unfoldable pub truncate_start_checkpoints : SegmentIndex → EntryId → SegmentIndex
unfolding partition_point
truncate_start_checkpoints index first_entry = record index {
  checkpoints =
      drop (partition_point (λ c. ltb c.0 first_entry) index.checkpoints) index.checkpoints;
}

-- `SegmentIndex::truncate_end`
unfoldable pub truncate_end_checkpoints : SegmentIndex → EntryId → SegmentIndex
unfolding partition_point
truncate_end_checkpoints index last_valid = record index {
  checkpoints =
      take (partition_point (λ c. leb c.0 last_valid) index.checkpoints) index.checkpoints;
}

pub record IndexPosition : Type 0 where
  pub segment : SegmentId
  pub checkpoint : EntryId
  pub byte_offset : ℕ

pub record EntryIndex : Type 0 where
  pub segments : List (SegmentId × SegmentIndex)

abbrev pub new : EntryIndex
new = record { segments = [] }

-- `EntryIndex::add_segment`
unfoldable pub add_segment : EntryIndex → SegmentId → SegmentIndex → EntryIndex
add_segment index id segment = record index { segments = index.segments ++ ((id, segment) ∷ []) }

-- `idx.first_id().is_some_and(|id| id.0 <= target.0)`
unfoldable pub starts_by : EntryId → SegmentId × SegmentIndex → Bool
unfolding first_id
starts_by target entry = elim (first_id entry.1) [ none ↦ false | some id ↦ leb id target ]

unfoldable pub position_in : EntryId → Option (SegmentId × SegmentIndex) → Option IndexPosition
unfolding find_checkpoint
position_in target none = none
position_in target (some (id, index)) = elim (find_checkpoint index target) [
  | none ↦ none
  | some c ↦ some (record { segment = id; checkpoint = c.0; byte_offset = c.1 })
]

-- `EntryIndex::find`
unfoldable pub find : EntryIndex → EntryId → Option IndexPosition
unfolding starts_by position_in partition_point before
find index target =
    position_in target (before index.segments (partition_point (starts_by target) index.segments))

unfoldable pub trim_first :
    EntryId → List (SegmentId × SegmentIndex) → List (SegmentId × SegmentIndex)
unfolding truncate_start_checkpoints
trim_first first_entry [] = []
trim_first first_entry ((id, index) ∷ rest) =
    (id, truncate_start_checkpoints index first_entry) ∷ rest

-- `EntryIndex::truncate_start`
unfoldable pub truncate_start : EntryIndex → EntryId → EntryIndex
unfolding starts_by partition_point trim_first
truncate_start index first_entry =
    let pos = partition_point (starts_by first_entry) index.segments in
    if pos == 0
    then index
    else record index { segments = trim_first first_entry (drop (pos - 1) index.segments) }

unfoldable pub trim_last :
    EntryId → List (SegmentId × SegmentIndex) → List (SegmentId × SegmentIndex)
unfolding truncate_end_checkpoints
trim_last last_valid [] = []
trim_last last_valid ((id, index) ∷ []) = (id, truncate_end_checkpoints index last_valid) ∷ []
trim_last last_valid (entry ∷ next ∷ rest) = entry ∷ trim_last last_valid (next ∷ rest)

-- `EntryIndex::truncate_end`
unfoldable pub truncate_end : EntryIndex → EntryId → EntryIndex
unfolding starts_by partition_point trim_last
truncate_end index last_valid = record index {
  segments =
      trim_last last_valid
        (take (partition_point (starts_by last_valid) index.segments) index.segments);
}
