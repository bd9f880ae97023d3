-- ===== src/Issue.antt =====
-- src/issue.rs: what a scan can find wrong. The texts of `Display` are not modelled.
use woodshed.Base.{ℕ, Bool, true, false, List, [], ◌∷◌, ◌++◌}
use woodshed.State.{SegmentId}

pub data FileRef : Type 0 where
  directory manifest : FileRef
  segment : SegmentId → FileRef

pub data Issue : Type 0 where
  directory_not_found directory_not_readable manifest_not_found manifest_not_readable : Issue
  manifest_checksum_corrupt : ℕ → Issue
  manifest_empty sealed_segment_missing : Issue
  -- expected and actual size
  sealed_segment_size_mismatch : ℕ → ℕ → Issue
  active_segment_missing : Issue
  sealed_segment_checksum_corrupt : ℕ → Issue
  dead_segment_not_found orphan_segment_found : Issue
  manifest_torn_tail active_segment_torn_tail : ℕ → Issue

pub record FileIssue : Type 0 where
  pub file : FileRef
  pub issue : Issue

abbrev pub IssueReport : Type 0
IssueReport = List FileIssue

-- `IssueReport::push`
unfoldable pub push : IssueReport → FileRef → Issue → IssueReport
push issues file issue = issues ++ (record { file = file; issue = issue } ∷ [])

unfoldable pub is_empty : IssueReport → Bool
is_empty [] = true
is_empty (i ∷ is) = false
