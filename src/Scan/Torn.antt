-- ===== src/Scan/Torn.antt =====
-- The scan (src/scan.rs) of a store whose active segment ends inside a frame or in a frame of a wrong checksum.
use woodshed.Base.{
  ℕ, ◌+◌, ◌≡◌, refl, ap, ◌∙◌, true, List, [], ◌∷◌, ◌++◌, All, none, some, ok, arith, ==_refl,
}
use woodshed.Base.Dict.{lookup, insert, lookup-insert}
use woodshed.Hash.{Hasher}
use woodshed.File
use woodshed.Files
use woodshed.Files.{Disk, magic_len, segment_magic, open_segment, is_there}
use woodshed.Frame.Format.{Fits}
use woodshed.Frame.Frames.{Frame, frames_size}
use woodshed.Frame.Scanner
use woodshed.Frame.Summary.{ScanStatus, scan_all}
use woodshed.Frame.Summary.Verdict.{Ends, summary, scan_all-Ends}
use woodshed.Issue
use woodshed.Issue.{FileRef, segment, IssueReport, active_segment_torn_tail}
use woodshed.State.{StoreState, SegmentId, is_live}
use woodshed.Scan
use woodshed.Scan.{
  SegmentReport, index_stride, scan_segment, scan_segments, file_report, summary_report,
}
use woodshed.Scan.Segments.{Content, Held, segment_content, size_of}
use woodshed.Scan.Damaged.{Damage}

-- The frames of the file are not all.
abbrev pub IsBroken : ScanStatus → Type 0
IsBroken ScanStatus.clean = ⊥
IsBroken _ = Unit

-- The issue of a segment whose frames end at the offset.
abbrev pub torn_issue : SegmentId → List Frame → IssueReport
torn_issue id fs =
    record { file = segment id; issue = active_segment_torn_tail (magic_len + frames_size fs) } ∷ []

module _ ⦃h : Hasher⦄ (d : Disk) (id : SegmentId) (fs : List Frame) (tail : List ℕ)
    (file : lookup id d.segments ≡ some (segment_content fs ++ tail)) (fits : All Fits fs)
    {status : ScanStatus} (ends : Ends tail status) (broken : IsBroken status) where
  pub open_segment-torn :
      open_segment d id
      ≡ ok (record { content = segment_content fs ++ tail; cursor = magic_len }, magic_len)
  unfolding open_segment Files.check_magic Files.same_bytes
  open_segment-torn = ground arith

  scan_all-torn :
      scan_all index_stride (
        Scanner.new (record { content = segment_content fs ++ tail; cursor = magic_len }) magic_len)
      ≡ some (summary index_stride magic_len fs status)
  unfolding Scanner.new File.unread
  scan_all-torn = scan_all-Ends index_stride fs magic_len fits ends

  summary_report-torn :
      (verdict : ScanStatus) (issues : IssueReport)
      → IsBroken verdict
      → (summary_report id none issues (summary index_stride magic_len fs verdict)).1
        ≡ issues ++ torn_issue id fs
  unfolding summary_report Issue.push
  summary_report-torn ScanStatus.clean issues b = absurd b
  summary_report-torn ScanStatus.torn_tail issues b = refl
  summary_report-torn ScanStatus.checksum_corrupt issues b = refl

  scan_segment-torn :
      (issues : IssueReport) → (scan_segment d id none issues).1 ≡ issues ++ torn_issue id fs
  unfolding scan_segment Scan.size_issue file_report
  scan_segment-torn issues =
      ground (arith, open_segment-torn, scan_all-torn, summary_report-torn status issues broken)

module _ ⦃h : Hasher⦄ (s : StoreState) (d : Disk) (content : Content)
    (held : Held s d.segments content) (id : SegmentId) (tail : List ℕ) {status : ScanStatus}
    (ends : Ends tail status) (broken : IsBroken status) (live : is_live id s.segments ≡ true)
    (unsealed : lookup id s.seals ≡ none) where
  -- The disk where the segment's file has the bytes behind its frames.
  abbrev pub torn_disk : Disk
  torn_disk = record d { segments = insert id (segment_content (content id) ++ tail) d.segments }

  scan_torn :
      (issues : IssueReport)
      → (scan_segment torn_disk id (size_of s d content held (lookup id s.seals)) issues).1
        ≡ issues ++ torn_issue id (content id)
  unfolding size_of
  scan_torn issues =
      ap (λ o. (scan_segment torn_disk id (size_of s d content held o) issues).1) unsealed
      ∙ scan_segment-torn torn_disk id (content id) tail
          (ground (
            arith,
            ==_refl id,
            lookup-insert id id (segment_content (content id) ++ tail) d.segments,
          ))
          (held.fits id live) ends broken issues

  -- Only that segment is not as it was written.
  pub torn-Damage : Damage s d content held id torn_disk (torn_issue id (content id))
  torn-Damage = record {
    live = live;
    others = λ j other.
        ground (arith, lookup-insert id j (segment_content (content id) ++ tail) d.segments);
    dead_there = λ j c. ground (
      arith,
      lookup-insert id j (segment_content (content id) ++ tail) d.segments,
      held.dead_there j c,
    );
    found = scan_torn;
  }
