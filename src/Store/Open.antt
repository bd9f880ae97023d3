-- ===== src/Store/Open.antt =====
-- Opening, creating and recovering a store (src/store.rs).
use woodshed.Base.{
  ℕ, true, false, List, [], ◌∷◌, ◌++◌, Option, none, some, Result, ok, err, map, max, drop, ◌==◌,
  if◌then◌else◌, map_err,
}
use mathlib.Core.List.{reverse}
use woodshed.Hash.{Hasher}
use woodshed.Yatlv.{Yatlv}
use woodshed.Issue.{IssueReport, is_empty}
use woodshed.Index
use woodshed.Index.{EntryIndex, add_segment}
use woodshed.Frame.Cursor
use woodshed.Files.{
  Disk, IoError, Io, ◌>>=◌, manifest_exists, create_manifest, create_segment, put_manifest,
  manifest_bytes,
}
use woodshed.State.{
  StoreState, SegmentEntry, SegmentId, EntryId, bare, create_segment as create_op, active_segment,
  seal,
}
use woodshed.State.Codec.{encode}
use woodshed.Scan.{SegmentReport, ScanReport, scan}
use woodshed.Recovery.{
  RecoveryError, Fix, not_possible, approval_required, remaining_issues, io_error, attempt_recovery,
}
use woodshed.Store.{Store, next_id}

pub data OpenError : Type 0 where
  approved_recovered_required : IssueReport → OpenError
  recovery_not_possible : IssueReport → OpenError
  recovery_failed : RecoveryError → OpenError
  -- a panic by `expect`
  panicked : OpenError

unfoldable pub find_report : SegmentId → List SegmentReport → Option SegmentReport
find_report id [] = none
find_report id (r ∷ rs) = if r.id == id then some r else find_report id rs

-- The last entry of the first of the segments that has a seal.
unfoldable pub first_seal : StoreState → List SegmentEntry → Option EntryId
unfolding seal
first_seal state [] = none
first_seal state (e ∷ es) = elim (seal state e.id) [
  | some info ↦ some info.last_entry
  | none ↦ first_seal state es
]

abbrev pub or_else : Option EntryId → Option EntryId → Option EntryId
or_else (some a) o = some a
or_else none o = o

unfoldable pub max_of : List ℕ → ℕ
max_of [] = 0
max_of (n ∷ ns) = max n (max_of ns)

-- One more than the largest id, live or dead.
unfoldable pub fresh_id : StoreState → SegmentId
unfolding max_of
fresh_id state = next_id (max_of (map (λ e. e.id) state.segments ++ state.dead))

unfoldable pub index_of : EntryIndex → List SegmentReport → EntryIndex
unfolding add_segment
index_of index [] = index
index_of index (r ∷ rs) = index_of (add_segment index r.id r.index) rs

unfoldable pub opened_store :
    ℕ → ScanReport → Option SegmentEntry → Option SegmentReport → Result OpenError Store
unfolding first_seal fresh_id index_of
opened_store trigger report (some active) (some active_report) = ok (record {
  rollover_trigger_bytes = trigger;
  state = report.state;
  index = index_of Index.new report.segments;
  manifest_cursor = Cursor.new report.manifest_next_offset;
  segments = [];
  active_id = active.id;
  active_cursor = Cursor.new active_report.write_offset;
  active_first_entry = active.first_entry;
  active_entry_count = active_report.num_entries;
  last_entry_id =
      or_else active_report.last_entry_id
        (first_seal report.state (drop 1 (reverse report.state.segments)));
  next_seg_id = fresh_id report.state;
  rollover_pending = false;
})
opened_store trigger report _ _ = err panicked

abbrev pub report_of : Option SegmentEntry → List SegmentReport → Option SegmentReport
report_of none reports = none
report_of (some e) reports = find_report e.id reports

-- `from_scan_report`
unfoldable pub from_scan_report : ℕ → ScanReport → Result OpenError Store
unfolding is_empty opened_store active_segment find_report
from_scan_report trigger report =
    if is_empty report.issues
    then opened_store trigger report (active_segment report.state)
        (report_of (active_segment report.state) report.segments)
    else err (recovery_not_possible report.issues)

abbrev pub refused : IssueReport → RecoveryError → OpenError
refused issues not_possible = recovery_not_possible issues
refused issues approval_required = approved_recovered_required issues
refused issues e = recovery_failed e

abbrev pub after_recovery : OpenError → OpenError
after_recovery (recovery_not_possible issues) = recovery_failed (remaining_issues issues)
after_recovery e = e

module _ ⦃h : Hasher⦄ ⦃y : Yatlv⦄ where
  unfoldable pub rescan :
      ℕ → IssueReport → Result RecoveryError (Unit {0}) × Disk → Result OpenError Store × Disk
  unfolding scan from_scan_report
  rescan trigger issues (err e, d) = (err (refused issues e), d)
  rescan trigger issues (ok _, d) = (map_err after_recovery (from_scan_report trigger (scan d)), d)

  -- `Store::open`
  unfoldable pub open_store : ℕ → Disk → Result OpenError Store × Disk
  unfolding scan from_scan_report rescan attempt_recovery
  open_store trigger d =
      let report = scan d in
      if is_empty report.issues
      then (from_scan_report trigger report, d)
      else rescan trigger report.issues (attempt_recovery report.issues false d)

  -- `Store::recover`
  unfoldable pub recover : Fix (Unit {0})
  unfolding scan attempt_recovery
  recover d = attempt_recovery (scan d).issues true d

  -- The first manifest entry goes to the cursor's offset behind the magic.
  unfoldable pub create_store : Io IoError (Unit {0})
  unfolding create_manifest create_segment put_manifest
  create_store = do
    offset ← create_manifest
    _ ← create_segment 1
    λ d.
        put_manifest
          (Cursor.flush (Cursor.write (Cursor.new offset) 0 (encode (bare (create_op 1 0))))
            (manifest_bytes d)).0
          d

  unfoldable pub opened_after : ℕ → Result IoError (Unit {0}) × Disk → Result OpenError Store × Disk
  unfolding open_store
  opened_after trigger (err e, d) = (err (recovery_failed (io_error e)), d)
  opened_after trigger (ok _, d) = open_store trigger d

  -- `Store::open_or_create`
  unfoldable pub open_or_create : ℕ → Disk → Result OpenError Store × Disk
  unfolding manifest_exists create_store opened_after
  open_or_create trigger d =
      if manifest_exists d then open_store trigger d else opened_after trigger (create_store d)
