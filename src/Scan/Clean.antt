-- ===== src/Scan/Clean.antt =====
-- The scan (src/scan.rs) of a store's directory in which all is as the manifest says.
use woodshed.Base.{
  ℕ, ◌≡◌, refl, sym, ap, ◌∙◌, true, false, ◌||◌, List, [], ◌∷◌, map, All, ok, arith, ◌==◌,
}
use woodshed.Base.Dict.{lookup, contains}
use woodshed.Hash.{Hasher}
use woodshed.Yatlv.{Yatlv}
use woodshed.File
use woodshed.Files.{Disk, magic_len, is_there, insert_sorted, sort, collect_segment_ids}
use woodshed.Frame.Scanner
use woodshed.Frame.Summary.Verdict.{at_end, scan_all-Ends}
use woodshed.State
use woodshed.State.{StoreState, SegmentEntry, SegmentId, ManifestOp, empty, is_live}
use woodshed.Manifest.Replay.{
  op_frame, Carried, apply_all, manifest_file, manifest_size, replay-written,
}
use woodshed.Manifest.Held.{Carried-Fits, Holds, open_manifest-Holds}
use woodshed.Scan
use woodshed.Scan.{ScanReport, integrity_phase, replay_phase, disk_phase, segments_phase, scan}
use woodshed.Scan.Segments.{
  Content, Held, AllLive, clean_reports, scan_segments-content, find_orphans-known,
  find_missing-there,
}

contains-insert_sorted :
    (j n : ℕ) (ns : List ℕ) → contains j (insert_sorted n ns) ≡ (n == j || contains j ns)
unfolding insert_sorted contains
contains-insert_sorted j n [] = refl
contains-insert_sorted j n (m ∷ ns) = ground (arith, contains-insert_sorted j n ns)

contains-sort : (j : ℕ) (ns : List ℕ) → contains j (sort ns) ≡ contains j ns
unfolding sort contains
contains-sort j [] = refl
contains-sort j (n ∷ ns) =
    contains-insert_sorted j n (sort ns) ∙ ap (λ b. n == j || b) (contains-sort j ns)

contains-keys {ℓ} :
    {V : Type ℓ} (j : ℕ) (m : List (ℕ × V)) → contains j (map (λ f. f.0) m) ≡ is_there (lookup j m)
unfolding contains lookup
contains-keys j [] = refl
contains-keys j ((k, v) ∷ m) = ground (arith, contains-keys j m)

pub All-contained {κ} :
    (P : ℕ → Type κ) (ids : List ℕ) → ((j : ℕ) → contains j ids ≡ true → P j) → All P ids
unfolding contains
All-contained P [] h = tt
All-contained P (i ∷ ids) h = (h i (ground arith), All-contained P ids (λ j c. h j (ground arith)))

pub All-live :
    (es : List SegmentEntry) (s : StoreState)
    → ((j : SegmentId) → is_live j es ≡ true → is_live j s.segments ≡ true)
    → AllLive es s
unfolding is_live
All-live [] s h = tt
All-live (e ∷ es) s h = (h e.id (ground arith), All-live es s (λ j l. h j (ground arith)))

module _ ⦃h : Hasher⦄ where
  -- The segment ids that the directory has.
  unfoldable pub ids_of : Disk → List SegmentId
  ids_of d = sort (map (λ f. f.0) d.segments)

  pub contains-ids_of :
      (d : Disk) (j : SegmentId) → contains j (ids_of d) ≡ is_there (lookup j d.segments)
  unfolding ids_of
  contains-ids_of d j = contains-sort j (map (λ f. f.0) d.segments) ∙ contains-keys j d.segments

  module _ ⦃y : Yatlv⦄ (s : StoreState) (d : Disk) (content : Content)
      (held : Held s d.segments content) where
    segments_phase-clean :
        (n : ℕ)
        → segments_phase d (record { state = s; next_offset = n }) (ids_of d) [] ≡ record {
          state = s;
          manifest_next_offset = n;
          segments = clean_reports content s.segments;
          issues = [];
        }
    unfolding segments_phase
    segments_phase-clean n = ground (
      arith,
      find_orphans-known s (ids_of d) []
          (All-contained _ (ids_of d) λ j c. held.known j (sym (contains-ids_of d j) ∙ c)),
      find_missing-there s.dead (ids_of d) []
          (All-contained _ s.dead λ j c. contains-ids_of d j ∙ held.dead_there j c),
      scan_segments-content s d content held s.segments [] (All-live s.segments s λ j l. l),
    )

    pub integrity_clean :
        (es : List ManifestOp)
        → All Carried es
        → integrity_phase (manifest_file es [], magic_len) ≡ ok []
    unfolding integrity_phase Scanner.new File.unread
    integrity_clean es c =
        ground (arith, scan_all-Ends 1 (map op_frame es) magic_len (Carried-Fits es c) at_end)

    pub replay_clean :
        (es : List ManifestOp)
        → All Carried es
        → apply_all empty es ≡ ok s
        → State.is_empty s.segments ≡ false
        → replay_phase [] (manifest_file es [], magic_len)
          ≡ ok (record { state = s; next_offset = manifest_size es })
    unfolding replay_phase Scan.replayed
    replay_clean es c e full = ground (arith, replay-written es s c e)

    -- A directory whose manifest holds operations that lead to a state with a segment, and whose
    -- segment files are as the state says, scans without an issue, and the report has the state, the
    -- end of the manifest, and for each segment the number of its frames, its end, its last id and
    -- its checkpoints.
    pub scan_clean :
        (es : List ManifestOp)
        → d.exists ≡ true
        → Holds d es []
        → All Carried es
        → apply_all empty es ≡ ok s
        → State.is_empty s.segments ≡ false
        → scan d ≡ record {
          state = s;
          manifest_next_offset = manifest_size es;
          segments = clean_reports content s.segments;
          issues = [];
        }
    unfolding scan Scan.scan_phases Scan.open_phase disk_phase collect_segment_ids ids_of
    scan_clean es there holds c e full = ground (
      arith,
      open_manifest-Holds d es [] holds,
      integrity_clean es c,
      replay_clean es c e full,
      segments_phase-clean (manifest_size es),
    )
