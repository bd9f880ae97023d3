-- ===== src/Index/Floor.antt =====
-- `find` (src/index.rs) gives the last checkpoint whose id is at most the target.
use woodshed.Base.{
  ℕ, zero, suc, ◌≤◌, ◌<◌, ◌≡◌, refl, Bool, true, false, List, [], ◌∷◌, Option, none, some, All,
  arith, leb, if◌then◌else◌,
}
use woodshed.State.{SegmentId, EntryId}
use woodshed.Index.{
  Checkpoint, SegmentIndex, EntryIndex, IndexPosition, partition_point, before, find_checkpoint,
  starts_by, position_in, find,
}

-- The first of two results that is there.
abbrev pub or_else {ℓ} : {A : Type ℓ} → Option A → Option A → Option A
or_else none o = o
or_else (some a) o = some a

-- The last checkpoint of a list whose id is at most the target, whatever the order.
abbrev pub last_upto : EntryId → List Checkpoint → Option Checkpoint
last_upto target [] = none
last_upto target (c ∷ cs) = or_else (last_upto target cs) (if leb c.0 target then some c else none)

-- The ids ascend.
abbrev pub Ascending : List Checkpoint → Type 0
Ascending [] = Unit
Ascending (c ∷ cs) = All (λ d. c.0 ≤ d.0) cs × Ascending cs

pub last_upto_above :
    (target lo : EntryId) (cs : List Checkpoint)
    → target < lo
    → All (λ d. lo ≤ d.0) cs
    → last_upto target cs ≡ none
last_upto_above target lo [] h a = refl
last_upto_above target lo (c ∷ cs) h (le, a) = ground (arith, last_upto_above target lo cs h a)

find_checkpoints :
    (target : EntryId) (cs : List Checkpoint)
    → Ascending cs
    → before cs (partition_point (λ c. leb c.0 target) cs) ≡ last_upto target cs
unfolding partition_point before
find_checkpoints target [] a = refl
find_checkpoints target (c ∷ []) (low, a) = ground arith
find_checkpoints target (c ∷ d ∷ cs) (low, a) =
    ground (arith, find_checkpoints target (d ∷ cs) a, last_upto_above target c.0 (d ∷ cs))

-- On ascending ids, the checkpoint that `SegmentIndex::find` gives is the last one up to the target.
pub find_checkpoint-last_upto :
    (index : SegmentIndex) (target : EntryId)
    → Ascending index.checkpoints
    → find_checkpoint index target ≡ last_upto target index.checkpoints
unfolding find_checkpoint
find_checkpoint-last_upto index target a = find_checkpoints target index.checkpoints a

-- There is a checkpoint, or no segment behind.
abbrev pub Reached : List Checkpoint → List (SegmentId × SegmentIndex) → Type 0
Reached [] [] = Unit
Reached [] (e ∷ rest) = ⊥
Reached (c ∷ cs) rest = Unit

-- Every checkpoint of the segments has an id of at least `lo`.
abbrev pub Above : EntryId → List (SegmentId × SegmentIndex) → Type 0
Above lo = All (λ e. All (λ d. lo ≤ d.0) e.1.checkpoints)

-- Every segment but the last has a checkpoint, and the ids ascend in the segments and from one to the next.
abbrev pub Ordered : List (SegmentId × SegmentIndex) → Type 0
Ordered [] = Unit
Ordered ((id, index) ∷ rest) =
    Reached index.checkpoints rest
    × Ascending index.checkpoints
    × All (λ c. Above c.0 rest) index.checkpoints
    × Ordered rest

abbrev pub position_of : SegmentId → Option Checkpoint → Option IndexPosition
position_of id none = none
position_of id (some c) = some (record { segment = id; checkpoint = c.0; byte_offset = c.1 })

-- The last position of all segments whose id is at most the target.
abbrev pub last_position : EntryId → List (SegmentId × SegmentIndex) → Option IndexPosition
last_position target [] = none
last_position target ((id, index) ∷ rest) =
    or_else (last_position target rest) (position_of id (last_upto target index.checkpoints))

pub last_position-Above :
    (target lo : EntryId) (segs : List (SegmentId × SegmentIndex))
    → target < lo
    → Above lo segs
    → last_position target segs ≡ none
last_position-Above target lo [] h a = refl
last_position-Above target lo ((id, index) ∷ rest) h (low, a) = ground (
  arith,
  last_upto_above target lo index.checkpoints h low,
  last_position-Above target lo rest h a,
)

position_in-none : (target : EntryId) → position_in target none ≡ none
unfolding position_in
position_in-none target = refl

-- A search in one segment, whose checkpoints are given.
position_in-some :
    (target id : ℕ) (cs : List Checkpoint)
    → Ascending cs
    → position_in target (some (id, record { checkpoints = cs }))
      ≡ position_of id (last_upto target cs)
unfolding position_in
position_in-some target id cs a =
    ground (arith, find_checkpoint-last_upto (record { checkpoints = cs }) target a)

abbrev pub is_some {ℓ} : {A : Type ℓ} → Option A → Bool
is_some none = false
is_some (some a) = true

-- Where the first segment starts by the target, some position is up to it.
last_position-some :
    (target id : ℕ) (cs : List Checkpoint) (rest : List (SegmentId × SegmentIndex))
    → starts_by target (id, record { checkpoints = cs }) ≡ true
    → is_some (last_position target ((id, record { checkpoints = cs }) ∷ rest)) ≡ true
unfolding starts_by
last_position-some target id [] rest h = cc
last_position-some target id (c ∷ cs) rest h = ground arith

pub last_position-reached :
    (target : EntryId) (segs : List (SegmentId × SegmentIndex)) (k : ℕ)
    → partition_point (starts_by target) segs ≡ suc k
    → is_some (last_position target segs) ≡ true
unfolding partition_point
last_position-reached target [] k h = ground arith
last_position-reached target ((id, index) ∷ rest) k h =
    last_position-some target id index.checkpoints rest (ground arith)

-- One more segment in front.
find_positions_step :
    (target id : ℕ) (c : Checkpoint) (cs : List Checkpoint) (rest : List (SegmentId × SegmentIndex))
    → Ascending (c ∷ cs)
    → Above c.0 rest
    → (k : ℕ) → partition_point (starts_by target) rest ≡ k
    → position_in target (before rest k) ≡ last_position target rest
    → position_in target (
        before
          ((id, record { checkpoints = c ∷ cs }) ∷ rest)
          (partition_point (starts_by target) ((id, record { checkpoints = c ∷ cs }) ∷ rest)))
      ≡ last_position target ((id, record { checkpoints = c ∷ cs }) ∷ rest)
unfolding partition_point before starts_by
find_positions_step target id c cs rest (low, a) above zero e ih = ground (
  arith,
  ih,
  position_in-none target,
  position_in-some target id (c ∷ cs) (low, a),
  last_upto_above target c.0 cs,
  last_position-Above target c.0 rest,
)
find_positions_step target id c cs rest (low, a) above (suc k) e ih = ground (
  arith,
  ih,
  position_in-none target,
  last_position-reached target rest k e,
  last_upto_above target c.0 cs,
  last_position-Above target c.0 rest,
)

-- A last segment without a checkpoint.
find_nothing :
    (target : EntryId) (id : SegmentId)
    → position_in target (
        before
          ((id, record { checkpoints = [] }) ∷ [])
          (partition_point (starts_by target) ((id, record { checkpoints = [] }) ∷ [])))
      ≡ none
unfolding partition_point before starts_by position_in
find_nothing target id = refl

find_positions :
    (target : EntryId) (segs : List (SegmentId × SegmentIndex))
    → Ordered segs
    → position_in target (before segs (partition_point (starts_by target) segs))
      ≡ last_position target segs
find_positions target [] o = unfold partition_point before position_in in refl
find_positions target ((id, index) ∷ rest) (n, a, l, o) =
    front index.checkpoints rest n a l (find_positions target rest o)
  where
    front :
        (cs : List Checkpoint) (rest : List (SegmentId × SegmentIndex))
        → Reached cs rest
        → Ascending cs
        → All (λ c. Above c.0 rest) cs
        → position_in target (before rest (partition_point (starts_by target) rest))
          ≡ last_position target rest
        → position_in target (
            before
              ((id, record { checkpoints = cs }) ∷ rest)
              (partition_point (starts_by target) ((id, record { checkpoints = cs }) ∷ rest)))
          ≡ last_position target ((id, record { checkpoints = cs }) ∷ rest)
    front [] [] n a l ih = find_nothing target id
    front [] (e ∷ rest) n a l ih = absurd n
    front (c ∷ cs) rest n a l ih = find_positions_step target id c cs rest a l.0 _ refl ih

-- On an index whose ids ascend and whose segments but the last have checkpoints, `EntryIndex::find`
-- gives the last position of all whose id is at most the target.
pub find-last_position :
    (index : EntryIndex) (target : EntryId)
    → Ordered index.segments
    → find index target ≡ last_position target index.segments
unfolding find
find-last_position index target o = find_positions target index.segments o
