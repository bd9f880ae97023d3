-- ===== src/Index/Cut.antt =====
-- What `truncate_end` (src/index.rs) leaves of ascending checkpoints.
use woodshed.Base.{ℕ, zero, suc, ◌≤◌, ◌≡◌, refl, min, take, List, [], ◌∷◌, All-take, arith, leb}
use woodshed.State.{SegmentId, EntryId}
use woodshed.Index.{
  Checkpoint, SegmentIndex, partition_point, starts_by, trim_last, truncate_end_checkpoints,
}
use woodshed.Index.Floor.{last_upto, Ascending, last_upto_above, Above}

abbrev pub upto : EntryId → List Checkpoint → List Checkpoint
upto last_valid cs = take (partition_point (λ c. leb c.0 last_valid) cs) cs

pub last_upto-upto :
    (target last_valid : EntryId) (cs : List Checkpoint)
    → Ascending cs
    → last_upto target (upto last_valid cs) ≡ last_upto (min target last_valid) cs
unfolding partition_point
last_upto-upto target last_valid [] a = refl
last_upto-upto target last_valid (c ∷ cs) (low, a) =
    ground
      (arith, last_upto-upto target last_valid cs a, last_upto_above (min target last_valid) c.0 cs)

pub Ascending-take : (n : ℕ) (cs : List Checkpoint) → Ascending cs → Ascending (take n cs)
Ascending-take zero cs a = tt
Ascending-take (suc n) [] a = tt
Ascending-take (suc n) (c ∷ cs) (low, a) =
    (All-take (λ d. c.0 ≤ d.0) n cs low, Ascending-take n cs a)

-- The segments that `truncate_end` leaves.
abbrev pub cut : EntryId → List (SegmentId × SegmentIndex) → List (SegmentId × SegmentIndex)
cut last_valid segs = trim_last last_valid (take (partition_point (starts_by last_valid) segs) segs)

Above-trim_last :
    (lo last_valid : EntryId) (segs : List (SegmentId × SegmentIndex))
    → Above lo segs
    → Above lo (trim_last last_valid segs)
unfolding trim_last truncate_end_checkpoints
Above-trim_last lo last_valid [] a = tt
Above-trim_last lo last_valid ((id, index) ∷ []) (low, a) =
    (All-take (λ d. lo ≤ d.0) _ index.checkpoints low, tt)
Above-trim_last lo last_valid (entry ∷ next ∷ rest) (low, a) =
    (low, Above-trim_last lo last_valid (next ∷ rest) a)

pub Above-cut :
    (lo last_valid : EntryId) (segs : List (SegmentId × SegmentIndex))
    → Above lo segs
    → Above lo (cut last_valid segs)
Above-cut lo last_valid segs a =
    Above-trim_last lo last_valid (take (partition_point (starts_by last_valid) segs) segs)
      (All-take _ (partition_point (starts_by last_valid) segs) segs a)
