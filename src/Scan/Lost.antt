-- ===== src/Scan/Lost.antt =====
-- The scan (src/scan.rs) of a directory where the file of a sealed segment is gone or has another size.
use woodshed.Base.{
  ℕ, ◌≡◌, ◌≢◌, ap, ◌∙◌, true, false, List, [], ◌∷◌, ◌++◌, length, Option, none, some, arith, ◌==◌,
  ==_refl, Bool-cases, inl, inr,
}
use woodshed.Base.Dict.{lookup, insert, remove, contains, lookup-insert, lookup-remove}
use woodshed.Hash.{Hasher}
use woodshed.Files.{Disk, segment_size, is_there}
use woodshed.Issue
use woodshed.Issue.{
  Issue, IssueReport, segment, sealed_segment_missing, sealed_segment_size_mismatch,
}
use woodshed.State.{StoreState, SealInfo, SegmentId, is_live}
use woodshed.Scan
use woodshed.Scan.{scan_segment, size_issue}
use woodshed.Scan.Segments.{Content, Held, size_of}
use woodshed.Scan.Damaged.{Damage}

-- The segment's file: none, or other bytes.
abbrev replaced :
    SegmentId → Option (List ℕ) → List (SegmentId × List ℕ) → List (SegmentId × List ℕ)
replaced id none segments = remove id segments
replaced id (some bytes) segments = insert id bytes segments

abbrev pub replace : SegmentId → Option (List ℕ) → Disk → Disk
replace id file d = record d { segments = replaced id file d.segments }

-- What is wrong with a file that is to have the size.
abbrev pub loss : ℕ → Option (List ℕ) → Issue
loss size none = sealed_segment_missing
loss size (some bytes) = sealed_segment_size_mismatch size (length bytes)

abbrev pub loss_issue : SegmentId → ℕ → Option (List ℕ) → IssueReport
loss_issue id size file = record { file = segment id; issue = loss size file } ∷ []

-- There is no file of the size.
abbrev pub HasOtherSize : ℕ → Option (List ℕ) → Type 0
HasOtherSize size none = Unit
HasOtherSize size (some bytes) = length bytes ≢ size

lookup-replace :
    (id : SegmentId) (file : Option (List ℕ)) (d : Disk)
    → lookup id (replace id file d).segments ≡ file
lookup-replace id none d = ground (arith, lookup-remove id id d.segments, ==_refl id)
lookup-replace id (some bytes) d = ground (arith, lookup-insert id id bytes d.segments, ==_refl id)

lookup-replace_other :
    (id : SegmentId) (file : Option (List ℕ)) (d : Disk) (j : SegmentId)
    → (id == j) ≡ false
    → lookup j (replace id file d).segments ≡ lookup j d.segments
lookup-replace_other id none d j other = ground (arith, lookup-remove id j d.segments)
lookup-replace_other id (some bytes) d j other = ground (arith, lookup-insert id j bytes d.segments)

size_issue-loss :
    (d : Disk) (id : SegmentId) (size : ℕ) (file : Option (List ℕ))
    → lookup id d.segments ≡ file
    → HasOtherSize size file
    → size_issue d id (some size) ≡ some (loss size file)
unfolding size_issue segment_size
size_issue-loss d id size none e h = ground arith
size_issue-loss d id size (some bytes) e h = ground arith

module _ ⦃h : Hasher⦄ (s : StoreState) (d : Disk) (content : Content)
    (held : Held s d.segments content) (id : SegmentId) (info : SealInfo)
    (file : Option (List ℕ)) where
  scan_segment-loss :
      lookup id s.seals ≡ some info
      → HasOtherSize info.final_size file
      → (issues : IssueReport)
      → (scan_segment
          (replace id file d)
          id
          (size_of s d content held (lookup id s.seals))
          issues).1
        ≡ issues ++ loss_issue id info.final_size file
  unfolding scan_segment Scan.no_report Issue.push size_of
  scan_segment-loss sealed other issues = ground (
    arith,
    sealed,
    size_issue-loss (replace id file d) id info.final_size file (lookup-replace id file d) other,
  )

  pub loss-Damage :
      is_live id s.segments ≡ true
      → contains id s.dead ≡ false
      → lookup id s.seals ≡ some info
      → HasOtherSize info.final_size file
      → Damage s d content held id (replace id file d) (loss_issue id info.final_size file)
  loss-Damage live not_dead sealed other = record {
    live = live;
    others = lookup-replace_other id file d;
    dead_there = λ j c. elim (Bool-cases (id == j)) [
      | inl same ↦ absurd (ground arith)
      | inr apart ↦ ap is_there (lookup-replace_other id file d j apart) ∙ held.dead_there j c
    ];
    found = scan_segment-loss sealed other;
  }
