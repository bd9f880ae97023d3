-- ===== src/Scan.antt =====
-- src/scan.rs: the read-only scan of a store's directory. A scan that ends early has the empty state.
pub mod Segments
pub mod Clean
pub mod Torn
pub mod TornStore
pub mod Stray
pub mod Damaged
pub mod Lost
use woodshed.Base.{
  ℕ, List, [], ◌∷◌, Option, none, some, Result, ok, err, ◌>>=◌, ◌==◌, ◌||◌, if◌then◌else◌,
}
use woodshed.Base.Dict.{contains}
use woodshed.Hash.{Hasher}
use woodshed.Yatlv.{Yatlv}
use woodshed.File.{File}
use woodshed.Frame.Scanner
use woodshed.Frame.Summary.{ScanStatus, ScanSummary, scan_all}
use woodshed.Index.{SegmentIndex}
use woodshed.Issue.{
  FileRef, directory, manifest, segment, Issue, IssueReport, directory_not_found,
  directory_not_readable, manifest_not_found, manifest_not_readable, manifest_checksum_corrupt,
  manifest_empty, sealed_segment_missing, sealed_segment_size_mismatch, active_segment_missing,
  sealed_segment_checksum_corrupt, dead_segment_not_found, orphan_segment_found, manifest_torn_tail,
  active_segment_torn_tail, push,
}
use woodshed.Files.{Disk, not_found, open_manifest, open_segment, segment_size, collect_segment_ids}
use woodshed.State
use woodshed.State.{StoreState, SegmentEntry, SealInfo, SegmentId, EntryId, seal, is_live}
use woodshed.Manifest.{ReplayResult, ReplayError, invalid_op, apply_failed, io, replay}

abbrev pub index_stride : ℕ
index_stride = 64

pub record SegmentReport : Type 0 where
  pub id : SegmentId
  pub num_entries : ℕ
  pub write_offset : ℕ
  pub last_entry_id : Option EntryId
  pub index : SegmentIndex

pub record ScanReport : Type 0 where
  pub state : StoreState
  pub manifest_next_offset : ℕ
  pub segments : List SegmentReport
  pub issues : IssueReport

-- The closure `empty` of `scan_segment`.
unfoldable pub no_report : SegmentId → Issue → IssueReport → SegmentReport × IssueReport
unfolding push
no_report id issue issues = (
  record {
    id = id;
    num_entries = 0;
    write_offset = 0;
    last_entry_id = none;
    index = record { checkpoints = [] };
  },
  push issues (segment id) issue,
)

abbrev pub missing : Option ℕ → Issue
missing none = active_segment_missing
missing (some _) = sealed_segment_missing

abbrev pub torn : Option ℕ → ℕ → Issue
torn none offset = active_segment_torn_tail offset
torn (some _) offset = sealed_segment_checksum_corrupt offset

-- The size of a sealed segment's file, checked first.
unfoldable pub size_issue : Disk → SegmentId → Option ℕ → Option Issue
unfolding segment_size
size_issue d id none = none
size_issue d id (some expected) = elim (segment_size d id) [
  | err _ ↦ some sealed_segment_missing
  | ok actual ↦
      if actual == expected then none else some (sealed_segment_size_mismatch expected actual)
]

-- The report for a summary.
unfoldable pub summary_report :
    SegmentId → Option ℕ → IssueReport → ScanSummary → SegmentReport × IssueReport
unfolding push
summary_report id expected_len issues s =
    let index : SegmentIndex = record { checkpoints = s.checkpoints } in
    let bad : SegmentReport × IssueReport = (
      record {
        id = id;
        num_entries = s.count;
        write_offset = 0;
        last_entry_id = s.last_id;
        index = index;
      },
      push issues (segment id) (torn expected_len s.next_offset),
    ) in
    elim s.status [
      | ScanStatus.clean ↦ (
        record {
          id = id;
          num_entries = s.count;
          write_offset = s.next_offset;
          last_entry_id = s.last_id;
          index = index;
        },
        issues,
      )
      | ScanStatus.torn_tail ↦ bad
      | ScanStatus.checksum_corrupt ↦ bad
    ]

unfoldable pub file_report :
    ⦃h : Hasher⦄ → SegmentId → Option ℕ → IssueReport → File × ℕ → SegmentReport × IssueReport
unfolding no_report summary_report
file_report id expected_len issues (file, offset) =
    elim (scan_all index_stride (Scanner.new file offset)) [
      | none ↦ no_report id (missing expected_len) issues
      | some summary ↦ summary_report id expected_len issues summary
    ]

-- `scan_segment`
unfoldable pub scan_segment :
    ⦃h : Hasher⦄ → Disk → SegmentId → Option ℕ → IssueReport → SegmentReport × IssueReport
unfolding size_issue no_report file_report open_segment
scan_segment d id expected_len issues = elim (size_issue d id expected_len) [
  | some issue ↦ no_report id issue issues
  | none ↦ elim (open_segment d id) [
    | err _ ↦ no_report id (missing expected_len) issues
    | ok opened ↦ file_report id expected_len issues opened
  ]
]

-- The segments in turn, with the issues that have come together.
unfoldable pub scan_segments :
    ⦃h : Hasher⦄
    → Disk
    → StoreState
    → List SegmentEntry
    → IssueReport
    → List SegmentReport × IssueReport
unfolding scan_segment seal
scan_segments d state [] issues = ([], issues)
scan_segments d state (e ∷ es) issues =
    let (report, issues') =
      scan_segment d e.id
        (elim (seal state e.id) [ none ↦ none | some info ↦ some info.final_size ]) issues in
    let (reports, issues'') = scan_segments d state es issues' in (report ∷ reports, issues'')

abbrev pub empty_report : IssueReport → ScanReport
empty_report issues = record {
  state = State.empty;
  manifest_next_offset = 0;
  segments = [];
  issues = issues;
}

-- An early return carries the issues.
abbrev pub Phase : Type 0 → Type 0
Phase A = Result IssueReport A

abbrev pub stop : {A : Type 0} → IssueReport → FileRef → Issue → Phase A
stop issues file issue = err (push issues file issue)

unfoldable pub find_missing_dead : List SegmentId → List SegmentId → IssueReport → IssueReport
unfolding contains push
find_missing_dead [] disk_ids issues = issues
find_missing_dead (id ∷ dead) disk_ids issues =
    find_missing_dead dead disk_ids
      (if contains id disk_ids then issues else push issues (segment id) dead_segment_not_found)

unfoldable pub find_orphans : StoreState → List SegmentId → IssueReport → IssueReport
unfolding contains push is_live
find_orphans state [] issues = issues
find_orphans state (id ∷ ids) issues = find_orphans state ids (
    if is_live id state.segments || contains id state.dead
    then issues
    else push issues (segment id) orphan_segment_found)

-- Phase 1: the manifest is opened.
unfoldable pub open_phase : Disk → Phase (File × ℕ)
unfolding open_manifest push
open_phase d = elim (open_manifest d) [
  | ok opened ↦ ok opened
  | err not_found ↦ stop [] manifest manifest_not_found
  | err _ ↦ stop [] manifest manifest_not_readable
]

module _ ⦃h : Hasher⦄ ⦃y : Yatlv⦄ where
  -- Phase 1: its frames are checked; a torn tail is an issue, a corrupt frame ends the scan.
  unfoldable pub integrity_phase : File × ℕ → Phase IssueReport
  unfolding push
  integrity_phase (file, offset) = elim (scan_all 1 (Scanner.new file offset)) [
    | none ↦ stop [] manifest manifest_not_readable
    | some s ↦ elim s.status [
      | ScanStatus.clean ↦ ok []
      | ScanStatus.torn_tail ↦ ok (push [] manifest (manifest_torn_tail s.next_offset))
      | ScanStatus.checksum_corrupt ↦ stop [] manifest (manifest_checksum_corrupt s.next_offset)
    ]
  ]

  unfoldable pub replayed : IssueReport → Result ReplayError ReplayResult → Phase ReplayResult
  unfolding push
  replayed issues (ok r) = ok r
  replayed issues (err (invalid_op offset _)) =
      stop issues manifest (manifest_checksum_corrupt offset)
  replayed issues (err (apply_failed offset _)) =
      stop issues manifest (manifest_checksum_corrupt offset)
  replayed issues (err io) = stop issues manifest manifest_not_readable

  -- Phase 2: the operations are replayed; there must be a segment.
  unfoldable pub replay_phase : IssueReport → File × ℕ → Phase ReplayResult
  unfolding replayed push State.is_empty
  replay_phase issues (file, offset) = do
    r ← elim (replay file offset) [
      | none ↦ stop issues manifest manifest_not_readable
      | some result ↦ replayed issues result
    ]
    if State.is_empty r.state.segments then stop issues manifest manifest_empty else ok r

  unfoldable pub disk_phase : Disk → IssueReport → Phase (List SegmentId)
  unfolding collect_segment_ids push
  disk_phase d issues = elim (collect_segment_ids d) [
    | ok ids ↦ ok ids
    | err not_found ↦ stop issues directory directory_not_found
    | err _ ↦ stop issues directory directory_not_readable
  ]

  -- Phase 3: the segment files.
  unfoldable pub segments_phase : Disk → ReplayResult → List SegmentId → IssueReport → ScanReport
  unfolding find_orphans find_missing_dead scan_segments
  segments_phase d r ids issues =
      let known = find_missing_dead r.state.dead ids (find_orphans r.state ids issues) in
      let (segments, found) = scan_segments d r.state r.state.segments known in
      record {
        state = r.state;
        manifest_next_offset = r.next_offset;
        segments = segments;
        issues = found;
      }

  unfoldable pub scan_phases : Disk → Phase ScanReport
  unfolding open_phase integrity_phase replay_phase disk_phase segments_phase
  scan_phases d = do
    opened ← open_phase d
    issues ← integrity_phase opened
    r ← replay_phase issues opened
    ids ← disk_phase d issues
    ok (segments_phase d r ids issues)

  -- `scan`
  unfoldable pub scan : Disk → ScanReport
  unfolding scan_phases push
  scan d =
      if d.exists
      then elim (scan_phases d) [ ok report ↦ report | err issues ↦ empty_report issues ]
      else empty_report (push [] directory directory_not_found)
