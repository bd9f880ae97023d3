-- ===== src/Scan/Damaged.antt =====
-- The scan (src/scan.rs) of a directory where one live segment is not as it was written.
use woodshed.Base.{
  ℕ, ◌≡◌, refl, sym, ap, ◌∙◌, Bool, Bool-cases, inl, inr, true, false, ◌||◌, List, [], ◌∷◌, ◌++◌,
  All, ok, arith, ◌==◌, ==_refl, if◌then◌else◌,
}
use woodshed.Base.Dict.{lookup, contains}
use woodshed.Hash.{Hasher}
use woodshed.Yatlv.{Yatlv}
use woodshed.Files.{Disk, is_there, collect_segment_ids}
use woodshed.Issue.{IssueReport}
use woodshed.Manifest.Replay.{Carried, apply_all, manifest_size}
use woodshed.Manifest.Held.{Holds, open_manifest-Holds}
use woodshed.State
use woodshed.State.{StoreState, SegmentEntry, SegmentId, ManifestOp, is_live}
use woodshed.Scan
use woodshed.Scan.{scan, disk_phase, segments_phase, find_missing_dead, scan_segment, scan_segments}
use woodshed.Scan.Segments.{
  Content, Held, AllLive, clean_report, scan_segment-content, size_of, size_of-content,
  find_orphans-known, find_missing-there,
}
use woodshed.Scan.Clean.{
  All-contained, All-live, ids_of, contains-ids_of, integrity_clean, replay_clean,
}
use woodshed.Store.Reader.{Apart}

-- All other files are as in `d`, and no file of a dead segment is gone; the scan of the segment `id`
-- adds the issues `bad`.
pub record Damage ⦃h : Hasher⦄ (s : StoreState) (d : Disk) (content : Content)
    (held : Held s d.segments content) (id : SegmentId) (dam : Disk) (bad : IssueReport)
    : Type 0 where
  pub live : is_live id s.segments ≡ true
  pub others : (j : SegmentId) → (id == j) ≡ false → lookup j dam.segments ≡ lookup j d.segments
  pub dead_there :
      (j : SegmentId) → contains j s.dead ≡ true → is_there (lookup j dam.segments) ≡ true
  pub found :
      (issues : IssueReport)
      → (scan_segment dam id (size_of s d content held (lookup id s.seals)) issues).1
        ≡ issues ++ bad

module _ ⦃h : Hasher⦄ ⦃y : Yatlv⦄ (s : StoreState) (d : Disk) (content : Content)
    (held : Held s d.segments content) (id : SegmentId) (dam : Disk) (bad : IssueReport)
    (damage : Damage s d content held id dam bad) where
  scan_other :
      (j : SegmentId) (issues : IssueReport)
      → (id == j) ≡ false
      → is_live j s.segments ≡ true
      → scan_segment dam j (size_of s d content held (lookup j s.seals)) issues
        ≡ (clean_report j (content j), issues)
  scan_other j issues other l =
      scan_segment-content dam j (content j) (size_of s d content held (lookup j s.seals)) issues
        (damage.others j other ∙ held.files j l) (held.fits j l)
        (size_of-content s d content held j)

  found_at :
      (j : SegmentId) (issues : IssueReport)
      → id ≡ j
      → (scan_segment dam j (size_of s d content held (lookup j s.seals)) issues).1 ≡ issues ++ bad
  found_at j issues e =
      ap (λ k. (scan_segment dam k (size_of s d content held (lookup k s.seals)) issues).1) (sym e)
      ∙ damage.found issues

  abbrev issues_of : Bool → IssueReport → IssueReport
  issues_of b issues = if b then issues ++ bad else issues

  live_here : (e : SegmentEntry) (es : List SegmentEntry) → id ≡ e.id → is_live id (e ∷ es) ≡ true
  unfolding is_live
  live_here e es same = ground (arith, ==_refl id)

  live_there :
      (e : SegmentEntry) (es : List SegmentEntry)
      → (id == e.id) ≡ false
      → is_live id es ≡ is_live id (e ∷ es)
  unfolding is_live
  live_there e es other = ground arith

  scan_segments-damaged :
      (es : List SegmentEntry) (issues : IssueReport)
      → Apart es
      → AllLive es s
      → (scan_segments dam s es issues).1 ≡ issues_of (is_live id es) issues
  unfolding scan_segments size_of is_live
  scan_segments-damaged [] issues a l = refl
  scan_segments-damaged (e ∷ es) issues (p, a) (l, ls) = elim (Bool-cases (id == e.id)) [
    | inl same ↦
        let at_id : id ≡ e.id = ground arith in
        let more = issues ++ bad in
        ap (λ i. (scan_segments dam s es i).1) (found_at e.id issues at_id)
        ∙ scan_segments-damaged es more a ls
        ∙ ap (λ b. issues_of b more) (ap (λ j. is_live j es) at_id ∙ p)
        ∙ sym (ap (λ b. issues_of b issues) (live_here e es at_id))
    | inr other ↦
        ap (λ r. (scan_segments dam s es r.1).1) (scan_other e.id issues other l)
        ∙ scan_segments-damaged es issues a ls
        ∙ ap (λ b. issues_of b issues) (live_there e es other)
  ]

  known :
      (j : SegmentId)
      → is_there (lookup j dam.segments) ≡ true
      → (is_live j s.segments || contains j s.dead) ≡ true
  known j there = elim (Bool-cases (id == j)) [
    | inl same ↦ ground (arith, damage.live)
    | inr other ↦ held.known j (ap is_there (sym (damage.others j other)) ∙ there)
  ]

  segments_phase-damaged :
      (n : ℕ)
      → Apart s.segments
      → (segments_phase dam (record { state = s; next_offset = n }) (ids_of dam) []).issues ≡ bad
  unfolding segments_phase
  segments_phase-damaged n apart =
      ap (λ i. (scan_segments dam s s.segments i).1)
        (ap (find_missing_dead s.dead (ids_of dam)) (
            find_orphans-known s (ids_of dam) []
              (All-contained _ (ids_of dam) λ j c. known j (sym (contains-ids_of dam j) ∙ c)))
          ∙ find_missing-there s.dead (ids_of dam) []
              (All-contained _ s.dead λ j c. contains-ids_of dam j ∙ damage.dead_there j c))
      ∙ scan_segments-damaged s.segments [] apart (All-live s.segments s λ j l. l)
      ∙ ap (λ b. issues_of b []) damage.live

  -- A directory as `scan_clean` has it, but for one live segment, scans with the issues of that segment.
  pub scan-damaged :
      (es : List ManifestOp)
      → Apart s.segments
      → dam.exists ≡ true
      → Holds dam es []
      → All Carried es
      → apply_all State.empty es ≡ ok s
      → State.is_empty s.segments ≡ false
      → (scan dam).issues ≡ bad
  unfolding scan Scan.scan_phases Scan.open_phase disk_phase collect_segment_ids ids_of
  scan-damaged es apart there holds c e full = ground (
    arith,
    open_manifest-Holds dam es [] holds,
    integrity_clean s d content held es c,
    replay_clean s d content held es c e full,
    segments_phase-damaged (manifest_size es) apart,
  )
