-- ===== src/Scan/Stray.antt =====
-- The scan (src/scan.rs) of a directory where a segment file stands that the manifest does not know, or
-- where the file of a dead segment is gone.
use woodshed.Base.{
  ℕ, ◌≡◌, refl, ap, ◌∙◌, true, false, ◌||◌, List, [], ◌∷◌, All, Option, none, some, ok, arith,
  ==_refl,
}
use woodshed.Base.Dict.{insert, remove, contains, lookup-insert, lookup-remove}
use woodshed.Hash.{Hasher}
use woodshed.Yatlv.{Yatlv}
use woodshed.Files.{Disk, insert_sorted, sort, collect_segment_ids}
use woodshed.Issue.{IssueReport, segment, dead_segment_not_found, orphan_segment_found, push}
use woodshed.State
use woodshed.State.{StoreState, SegmentEntry, SegmentId, SealInfo, ManifestOp, is_live, seal}
use woodshed.Manifest.Replay.{Carried, apply_all, manifest_size}
use woodshed.Manifest.Held.{Holds, open_manifest-Holds}
use woodshed.Scan
use woodshed.Scan.{
  scan, disk_phase, segments_phase, scan_segment, scan_segments, find_missing_dead, find_orphans,
}
use woodshed.Scan.Segments.{
  Content, Held, scan_segments-content, find_orphans-known, find_missing-there,
}
use woodshed.Scan.Clean.{
  All-contained, All-live, ids_of, contains-ids_of, integrity_clean, replay_clean,
}

abbrev pub orphan_issue : SegmentId → IssueReport
orphan_issue n = record { file = segment n; issue = orphan_segment_found } ∷ []

abbrev pub gone_issue : SegmentId → IssueReport
gone_issue n = record { file = segment n; issue = dead_segment_not_found } ∷ []

abbrev size_of : Option SealInfo → Option ℕ
size_of o = elim o [ none ↦ none | some info ↦ some info.final_size ]

-- The scan of the segments reads no more of a state than its seals.
scan_segments-seals :
    ⦃h : Hasher⦄
    → (d : Disk) (s : StoreState) (dead : List SegmentId) (es : List SegmentEntry)
      (issues : IssueReport)
    → scan_segments d s es issues ≡ scan_segments d (record s { dead = dead }) es issues
unfolding scan_segments
scan_segments-seals d s dead [] issues = refl
scan_segments-seals d s dead (e ∷ es) issues =
    let first = scan_segment d e.id (size_of (seal s e.id)) issues in
    ap (λ rest. (first.0 ∷ rest.0, rest.1)) (scan_segments-seals d s dead es first.1)

module _ ⦃h : Hasher⦄ ⦃y : Yatlv⦄ (s : StoreState) (d stray : Disk) (content : Content)
    (held : Held s d.segments content) (dead : List SegmentId)
    (left : Held (record s { dead = dead }) stray.segments content) where
  -- What the comparison with the directory finds is all that is found.
  segments_phase-stray :
      (n : ℕ) (found : IssueReport)
      → find_missing_dead s.dead (ids_of stray) (find_orphans s (ids_of stray) []) ≡ found
      → (segments_phase stray (record { state = s; next_offset = n }) (ids_of stray) []).issues
        ≡ found
  unfolding segments_phase
  segments_phase-stray n found e =
      let t = record s { dead = dead } in
      ap (λ i. (scan_segments stray s s.segments i).1) e
      ∙ ap (λ r. r.1)
          (scan_segments-seals stray s dead s.segments found
            ∙ scan_segments-content t stray content left s.segments found
                (All-live s.segments t λ j l. l))

  -- The disk `stray` has the manifest of a directory as `scan_clean` has it, and the segment files fit
  -- its state but for what is dead: the scan finds no more than the comparison does.
  pub scan-stray :
      (es : List ManifestOp) (found : IssueReport)
      → find_missing_dead s.dead (ids_of stray) (find_orphans s (ids_of stray) []) ≡ found
      → stray.exists ≡ true
      → Holds stray es []
      → All Carried es
      → apply_all State.empty es ≡ ok s
      → State.is_empty s.segments ≡ false
      → (scan stray).issues ≡ found
  unfolding scan Scan.scan_phases Scan.open_phase disk_phase collect_segment_ids ids_of
  scan-stray es found e there holds c r full = ground (
    arith,
    open_manifest-Holds stray es [] holds,
    integrity_clean s d content held es c,
    replay_clean s d content held es c r full,
    segments_phase-stray (manifest_size es) found e,
  )

-- One id among those that the manifest knows is a stranger.
find_orphans-insert_sorted :
    (s : StoreState) (n : SegmentId) (ids : List SegmentId)
    → (is_live n s.segments || contains n s.dead) ≡ false
    → All (λ j. (is_live j s.segments || contains j s.dead) ≡ true) ids
    → find_orphans s (insert_sorted n ids) [] ≡ orphan_issue n
unfolding find_orphans insert_sorted push
find_orphans-insert_sorted s n [] stranger k = ground arith
find_orphans-insert_sorted s n (m ∷ ids) stranger (k, ks) = ground (
  arith,
  find_orphans-known s ids (orphan_issue n) ks,
  find_orphans-insert_sorted s n ids stranger ks,
)

module _ ⦃h : Hasher⦄ (s : StoreState) (d : Disk) (content : Content)
    (held : Held s d.segments content) where
  find_orphans-stranger :
      (n : SegmentId) (bytes : List ℕ)
      → (is_live n s.segments || contains n s.dead) ≡ false
      → find_orphans s (ids_of (record d { segments = insert n bytes d.segments })) []
        ≡ orphan_issue n
  unfolding ids_of sort insert
  find_orphans-stranger n bytes stranger =
      let rest = record d { segments = remove n d.segments } in
      find_orphans-insert_sorted s n (ids_of rest) stranger (
        All-contained _ (ids_of rest) λ j c.
          held.known j (ground (arith, contains-ids_of rest j, lookup-remove n j d.segments, c)))

  -- A file that the manifest does not know is the only issue.
  pub find-stranger :
      (n : SegmentId) (bytes : List ℕ)
      → (is_live n s.segments || contains n s.dead) ≡ false
      → (let ids = ids_of (record d { segments = insert n bytes d.segments }) in
          find_missing_dead s.dead ids (find_orphans s ids []) ≡ orphan_issue n)
  find-stranger n bytes stranger =
      let more = record d { segments = insert n bytes d.segments } in
      ap (find_missing_dead s.dead (ids_of more)) (find_orphans-stranger n bytes stranger)
      ∙ find_missing-there s.dead (ids_of more) (orphan_issue n) (
          All-contained _ s.dead λ j c. ground (
            arith,
            contains-ids_of more j,
            lookup-insert n j bytes d.segments,
            held.dead_there j c,
          ))

  -- The file of the first dead segment is gone: this is the only issue.
  pub find-gone :
      (n : SegmentId) (dead : List SegmentId)
      → s.dead ≡ n ∷ dead
      → contains n dead ≡ false
      → (let ids = ids_of (record d { segments = remove n d.segments }) in
          find_missing_dead s.dead ids (find_orphans s ids []) ≡ gone_issue n)
  unfolding find_missing_dead push contains
  find-gone n dead e once =
      let fewer = record d { segments = remove n d.segments } in
      ap (find_missing_dead s.dead (ids_of fewer)) (
        find_orphans-known s (ids_of fewer) [] (
          All-contained _ (ids_of fewer) λ j c.
            held.known j
              (ground (arith, contains-ids_of fewer j, lookup-remove n j d.segments, c))))
      ∙ ap (λ l. find_missing_dead l (ids_of fewer) []) e
      ∙ ground (
        arith,
        contains-ids_of fewer n,
        lookup-remove n n d.segments,
        ==_refl n,
        find_missing-there dead (ids_of fewer) (gone_issue n) (
            All-contained _ dead λ j c. ground (
              arith,
              contains-ids_of fewer j,
              lookup-remove n j d.segments,
              held.dead_there j (ground (arith, e)),
            )),
      )
