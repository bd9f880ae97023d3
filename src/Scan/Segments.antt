-- ===== src/Scan/Segments.antt =====
-- Segment files that hold whole frames, and what `scan_segment` (src/scan.rs) says of them.
use woodshed.Base.{
  ℕ, ◌+◌, ◌≡◌, refl, sym, ap, ◌∙◌, true, ◌||◌, List, [], ◌∷◌, ◌++◌, append-nil, length, map, All,
  Option, none, some, ok, arith, inl, inr, Option-cases,
}
use woodshed.Base.Dict.{lookup, contains}
use woodshed.Hash.{Hasher}
use woodshed.File
use woodshed.File.{File}
use woodshed.Files
use woodshed.Files.{
  Disk, magic_len, segment_magic, open_segment, segment_size, sort, insert_sorted, is_there,
}
use woodshed.Frame.Format.{Fits}
use woodshed.Frame.Frames.{Frame, frames_size, frames_bytes, length-frames_bytes}
use woodshed.Frame.Scanner
use woodshed.Frame.Scanner.Step.{at}
use woodshed.Frame.Summary.{ScanStatus, scan_all}
use woodshed.Frame.Summary.Loop.{marks, last_id_or}
use woodshed.Frame.Summary.Verdict.{at_end, summary, scan_all-Ends}
use woodshed.Issue.{IssueReport}
use woodshed.State.{StoreState, SegmentEntry, SealInfo, SegmentId, is_live}
use woodshed.Scan
use woodshed.Scan.{
  SegmentReport, index_stride, summary_report, size_issue, scan_segment, scan_segments,
  find_missing_dead, find_orphans,
}

-- The frames of each segment.
abbrev pub Content : Type 0
Content = SegmentId → List Frame

-- A segment's file of whole frames.
abbrev pub segment_content : ⦃h : Hasher⦄ → List Frame → List ℕ
segment_content fs = segment_magic ++ frames_bytes fs

-- The report of a segment that holds the frames.
abbrev pub clean_report : SegmentId → List Frame → SegmentReport
clean_report id fs = record {
  id = id;
  num_entries = length fs;
  write_offset = magic_len + frames_size fs;
  last_entry_id = last_id_or none fs;
  index = record { checkpoints = marks index_stride 0 magic_len fs };
}

module _ ⦃h : Hasher⦄ (d : Disk) (id : SegmentId) (fs : List Frame) where
  pub open_segment-content :
      lookup id d.segments ≡ some (segment_content fs)
      → open_segment d id
        ≡ ok (record { content = segment_content fs; cursor = magic_len }, magic_len)
  unfolding open_segment Files.check_magic Files.same_bytes
  open_segment-content e = ground arith

  scan_all-content :
      All Fits fs
      → scan_all index_stride
          (Scanner.new (record { content = segment_content fs; cursor = magic_len }) magic_len)
        ≡ some (summary index_stride magic_len fs ScanStatus.clean)
  unfolding Scanner.new File.unread
  scan_all-content fits =
      ap (λ b. scan_all index_stride (at b magic_len)) (sym (append-nil (frames_bytes fs)))
      ∙ scan_all-Ends index_stride fs magic_len fits at_end

  size_issue-content :
      (size : Option ℕ)
      → lookup id d.segments ≡ some (segment_content fs)
      → ((n : ℕ) → size ≡ some n → n ≡ magic_len + frames_size fs)
      → size_issue d id size ≡ none
  unfolding size_issue segment_size
  size_issue-content none e h = refl
  size_issue-content (some n) e h = ground (arith, h n refl, length-frames_bytes fs)

  pub scan_segment-content :
      (size : Option ℕ) (issues : IssueReport)
      → lookup id d.segments ≡ some (segment_content fs)
      → All Fits fs
      → ((n : ℕ) → size ≡ some n → n ≡ magic_len + frames_size fs)
      → scan_segment d id size issues ≡ (clean_report id fs, issues)
  unfolding scan_segment Scan.file_report summary_report
  scan_segment-content size issues e fits h =
      ground (arith, size_issue-content size e h, open_segment-content e, scan_all-content fits)

-- The files of the live segments hold whole frames, of the size that their seals say; the files of the
-- dead segments are there, and there is no other file.
pub record Held ⦃h : Hasher⦄ (s : StoreState) (segments : List (SegmentId × List ℕ))
    (content : Content) : Type 0 where
  pub files :
      (j : SegmentId)
      → is_live j s.segments ≡ true
      → lookup j segments ≡ some (segment_content (content j))
  pub fits : (j : SegmentId) → is_live j s.segments ≡ true → All Fits (content j)
  pub sizes :
      (j : SegmentId) (info : SealInfo)
      → lookup j s.seals ≡ some info
      → info.final_size ≡ magic_len + frames_size (content j)
  pub dead_there : (j : SegmentId) → contains j s.dead ≡ true → is_there (lookup j segments) ≡ true
  pub known :
      (j : SegmentId)
      → is_there (lookup j segments) ≡ true
      → (is_live j s.segments || contains j s.dead) ≡ true

abbrev pub clean_reports : Content → List SegmentEntry → List SegmentReport
clean_reports content = map λ e. clean_report e.id (content e.id)

abbrev pub AllLive : List SegmentEntry → StoreState → Type 0
AllLive es s = All (λ e. is_live e.id s.segments ≡ true) es

pub find_orphans-known :
    (s : StoreState) (ids : List SegmentId) (issues : IssueReport)
    → All (λ j. (is_live j s.segments || contains j s.dead) ≡ true) ids
    → find_orphans s ids issues ≡ issues
unfolding find_orphans
find_orphans-known s [] issues h = refl
find_orphans-known s (j ∷ ids) issues (k, h) = ground (arith, find_orphans-known s ids issues h)

pub find_missing-there :
    (dead ids : List SegmentId) (issues : IssueReport)
    → All (λ j. contains j ids ≡ true) dead
    → find_missing_dead dead ids issues ≡ issues
unfolding find_missing_dead
find_missing-there [] ids issues h = refl
find_missing-there (j ∷ dead) ids issues (k, h) =
    ground (arith, find_missing-there dead ids issues h)

module _ ⦃h : Hasher⦄ (s : StoreState) (d : Disk) (content : Content)
    (held : Held s d.segments content) where
  unfoldable pub size_of : Option SealInfo → Option ℕ
  size_of o = elim o [ none ↦ none | some info ↦ some info.final_size ]

  pub size_of-content :
      (id : SegmentId) (n : ℕ)
      → size_of (lookup id s.seals) ≡ some n
      → n ≡ magic_len + frames_size (content id)
  unfolding size_of
  size_of-content id n e = elim (Option-cases (lookup id s.seals)) [
    | inl none_there ↦ absurd (ground arith)
    | inr (info, there) ↦ ground (arith, held.sizes id info there)
  ]

  scan_segment-held :
      (id : SegmentId) (issues : IssueReport)
      → is_live id s.segments ≡ true
      → scan_segment d id (size_of (lookup id s.seals)) issues
        ≡ (clean_report id (content id), issues)
  scan_segment-held id issues live =
      scan_segment-content d id (content id) (size_of (lookup id s.seals)) issues
        (held.files id live) (held.fits id live) (size_of-content id)

  pub scan_segments-content :
      (es : List SegmentEntry) (issues : IssueReport)
      → AllLive es s
      → scan_segments d s es issues ≡ (clean_reports content es, issues)
  unfolding scan_segments size_of
  scan_segments-content [] issues live = refl
  scan_segments-content (e ∷ es) issues (l, live) =
      ground (arith, scan_segment-held e.id issues l, scan_segments-content es issues live)
