-- ===== src/Recovery.antt =====
-- src/recovery.rs: the fix-ups for the issues of a scan. Logging is not modelled.
pub mod Policy
pub mod Torn
pub mod Single
use woodshed.Base.{
  ℕ, Bool, true, false, not, ◌&&◌, List, [], ◌∷◌, ◌++◌, Option, none, some, Result, ok, err, leb,
  map_err, length, if◌then◌else◌,
}
use woodshed.Hash.{Hasher}
use woodshed.Yatlv.{Yatlv}
use woodshed.File.{set_len}
use woodshed.Frame.Cursor
use woodshed.Issue.{
  FileRef, directory, manifest, segment, FileIssue, Issue, IssueReport, directory_not_found,
  directory_not_readable, manifest_not_found, manifest_not_readable, manifest_checksum_corrupt,
  manifest_empty, sealed_segment_missing, sealed_segment_size_mismatch, active_segment_missing,
  sealed_segment_checksum_corrupt, dead_segment_not_found, orphan_segment_found, manifest_torn_tail,
  active_segment_torn_tail,
}
use woodshed.Files.{
  Disk, IoError, Io, ◌>>=◌, ◌>>◌, pure, lift, open_manifest, open_segment, create_segment,
  put_manifest, put_segment,
}
use woodshed.State.{SegmentId, Op, bare, segment_deleted, record_orphan}
use woodshed.Manifest.{write_op}

pub data RecoveryError : Type 0 where
  not_possible approval_required : RecoveryError
  remaining_issues : IssueReport → RecoveryError
  io_error : IoError → RecoveryError

-- The phases, in their order.
pub data FixUpPhase : Type 0 where
  manifest_file_clean manifest_appends segment_file_clean : FixUpPhase

abbrev pub rank : FixUpPhase → ℕ
rank manifest_file_clean = 0
rank manifest_appends = 1
rank segment_file_clean = 2

pub data FixUpAction : Type 0 where
  orphan_found dead_segment_missing : SegmentId → FixUpAction
  truncate_manifest : ℕ → FixUpAction
  truncate_segment : SegmentId → ℕ → FixUpAction
  create_active_segment : SegmentId → FixUpAction

pub record FixUp : Type 0 where
  pub phase : FixUpPhase
  pub approval_required : Bool
  pub action : FixUpAction

abbrev pub Fix : Type 0 → Type 0
Fix A = Io RecoveryError A

abbrev pub io_result : {A : Type 0} → Io IoError A → Fix A
io_result m d = let (r, d') = m d in (map_err io_error r, d')

-- `truncate_manifest`
unfoldable pub cut_manifest : ℕ → Fix (Unit {0})
unfolding open_manifest set_len put_manifest
cut_manifest offset d =
    (do
      (file, _) ← lift (map_err io_error (open_manifest d))
      io_result (put_manifest (set_len file.content offset)))
      d

-- `truncate_segment`
unfoldable pub cut_segment : SegmentId → ℕ → Fix (Unit {0})
unfolding open_segment set_len put_segment
cut_segment id offset d =
    (do
      (file, _) ← lift (map_err io_error (open_segment d id))
      io_result (put_segment id (set_len file.content offset)))
      d

-- `create_active_segment`
unfoldable pub make_segment : SegmentId → Fix (Unit {0})
unfolding create_segment
make_segment id = do _ ← io_result (create_segment id); pure tt

module _ ⦃h : Hasher⦄ ⦃y : Yatlv⦄ where
  -- `append_manifest_op`: at the end of the file.
  unfoldable pub append_manifest_op : Op → Fix (Unit {0})
  unfolding open_manifest write_op put_manifest
  append_manifest_op op d =
      (do
        (file, _) ← lift (map_err io_error (open_manifest d))
        io_result
            (put_manifest (write_op (Cursor.new (length file.content)) file.content (bare op)).0))
        d

  -- `FixUpAction::apply`
  unfoldable pub apply : FixUpAction → Fix (Unit {0})
  unfolding cut_manifest cut_segment make_segment append_manifest_op
  apply (truncate_manifest offset) = cut_manifest offset
  apply (truncate_segment id offset) = cut_segment id offset
  apply (create_active_segment id) = make_segment id
  apply (dead_segment_missing id) = append_manifest_op (segment_deleted id)
  apply (orphan_found id) = append_manifest_op (record_orphan id)

  unfoldable pub apply_all : List FixUp → Fix (Unit {0})
  unfolding apply
  apply_all [] = pure tt
  apply_all (f ∷ fs) = do apply f.action; apply_all fs

unfoldable pub segment_id : FileRef → Option SegmentId
segment_id (segment id) = some id
segment_id _ = none

abbrev pub auto : FixUpPhase → FixUpAction → Option FixUp
auto phase action = some (record { phase = phase; approval_required = false; action = action })

abbrev pub approval : FixUpPhase → FixUpAction → Option FixUp
approval phase action = some (record { phase = phase; approval_required = true; action = action })

-- `segment_id(issue).and_then(...)`
abbrev pub for_segment : Option SegmentId → (SegmentId → Option FixUp) → Option FixUp
for_segment none f = none
for_segment (some id) f = f id

unfoldable pub fix_up_for : FileRef → Issue → Option FixUp
unfolding segment_id
fix_up_for file active_segment_missing =
    for_segment (segment_id file) λ id. approval segment_file_clean (create_active_segment id)
fix_up_for file (sealed_segment_checksum_corrupt corrupt_at) =
    for_segment (segment_id file) λ id. approval segment_file_clean (truncate_segment id corrupt_at)
fix_up_for file dead_segment_not_found =
    for_segment (segment_id file) λ id. auto manifest_appends (dead_segment_missing id)
fix_up_for file orphan_segment_found =
    for_segment (segment_id file) λ id. auto manifest_appends (orphan_found id)
fix_up_for file (manifest_torn_tail truncate_to) =
    auto manifest_file_clean (truncate_manifest truncate_to)
fix_up_for file (active_segment_torn_tail truncate_to) =
    for_segment (segment_id file) λ id. auto segment_file_clean (truncate_segment id truncate_to)
fix_up_for file _ = none

unfoldable pub create_fix_up : FileIssue → Option FixUp
unfolding fix_up_for
create_fix_up i = fix_up_for i.file i.issue

-- The fix-ups of the issues in turn, or the first refusal.
unfoldable pub collect : Bool → IssueReport → Result RecoveryError (List FixUp)
unfolding create_fix_up
collect approved [] = ok []
collect approved (i ∷ is) =
    let rest = collect approved is in
    elim (create_fix_up i) [
      | none ↦ err not_possible
      | some f ↦
          if f.approval_required && not approved
          then err approval_required
          else elim rest [ ok fs ↦ ok (f ∷ fs) | err e ↦ err e ]
    ]

-- A stable sort by phase.
unfoldable pub insert_fix_up : FixUp → List FixUp → List FixUp
insert_fix_up f [] = f ∷ []
insert_fix_up f (g ∷ gs) =
    if leb (rank f.phase) (rank g.phase) then f ∷ g ∷ gs else g ∷ insert_fix_up f gs

unfoldable pub sort_by_phase : List FixUp → List FixUp
unfolding insert_fix_up
sort_by_phase [] = []
sort_by_phase (f ∷ fs) = insert_fix_up f (sort_by_phase fs)

-- `attempt_recovery`
unfoldable pub attempt_recovery : ⦃h : Hasher⦄ ⦃y : Yatlv⦄ → IssueReport → Bool → Fix (Unit {0})
unfolding collect sort_by_phase apply_all
attempt_recovery issues approved = do
  fix_ups ← lift (collect approved issues)
  apply_all (sort_by_phase fix_ups)
