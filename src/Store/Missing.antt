-- ===== src/Store/Missing.antt =====
-- Opening and recovering a store (src/store.rs) where the file of the active segment is gone.
use woodshed.Base.{ℕ, ◌≡◌, refl, true, false, List, [], ◌∷◌, ◌++◌, ok, err, arith, ==_refl}
use woodshed.Base.Dict.{lookup, remove, lookup-remove, insert-remove}
use woodshed.Hash.{Hasher}
use woodshed.Yatlv.{Yatlv}
use woodshed.Files
use woodshed.Files.{Disk, segment_magic, is_there}
use woodshed.Frame.Frames.{frames_bytes}
use woodshed.Issue
use woodshed.Issue.{IssueReport, segment, active_segment_missing}
use woodshed.Recovery
use woodshed.Recovery.{attempt_recovery, approval_required, make_segment}
use woodshed.Recovery.Single.{attempt_recovery-one}
use woodshed.State.{SegmentId, ManifestOp, is_live}
use woodshed.Scan
use woodshed.Scan.{scan, scan_segment}
use woodshed.Scan.Segments.{Content, size_of}
use woodshed.Scan.Damaged.{Damage, scan-damaged}
use woodshed.Store.{Store, World}
use woodshed.Store.Open.{open_store, rescan, recover, approved_recovered_required}
use woodshed.Store.Consistent.{Consistent}
use woodshed.Store.Reopen.{is_live-nonempty, open_store-Consistent}
use woodshed.Store.Keeps.Write.{active_is_live, active_unsealed}
use woodshed.Store.Crash.Reached.{bare_world, bare_content, bare-Consistent}

abbrev pub missing_issue : SegmentId → IssueReport
missing_issue id = record { file = segment id; issue = active_segment_missing } ∷ []

-- The disk without the file of the active segment.
abbrev pub without_active : World → Disk
without_active w = record w.disk { segments = remove w.store.active_id w.disk.segments }

module _ ⦃h : Hasher⦄ ⦃y : Yatlv⦄ (es : List ManifestOp) (content : Content) (w : World)
    (c : Consistent es content w) where
  live : is_live w.store.active_id w.store.state.segments ≡ true
  live = active_is_live es content w c

  scan_segment-missing :
      (issues : IssueReport)
      → (scan_segment
          (without_active w)
          w.store.active_id
          (size_of w.store.state w.disk content c.held
            (lookup w.store.active_id w.store.state.seals))
          issues).1
        ≡ issues ++ missing_issue w.store.active_id
  unfolding scan_segment Scan.size_issue Scan.no_report Issue.push Files.open_segment size_of
  scan_segment-missing issues = ground (
    arith,
    active_unsealed es content w c,
    lookup-remove w.store.active_id w.store.active_id w.disk.segments,
    ==_refl w.store.active_id,
  )

  missing-Damage :
      Damage w.store.state w.disk content c.held w.store.active_id
        (without_active w)
        (missing_issue w.store.active_id)
  missing-Damage = record {
    live = live;
    others = λ j other. ground (arith, lookup-remove w.store.active_id j w.disk.segments);
    dead_there = λ j d. ground (
      arith,
      lookup-remove w.store.active_id j w.disk.segments,
      (c.well_formed j).dead_apart d,
      live,
      c.held.dead_there j d,
    );
    found = scan_segment-missing;
  }

  scan_missing : (scan (without_active w)).issues ≡ missing_issue w.store.active_id
  scan_missing =
      scan-damaged w.store.state w.disk content c.held w.store.active_id (without_active w)
        (missing_issue w.store.active_id) missing-Damage es c.apart c.recorded.there
        c.recorded.holds c.recorded.carried c.recorded.replays
        (is_live-nonempty w.store.active_id w.store.state.segments live)

  refused :
      attempt_recovery (missing_issue w.store.active_id) false (without_active w)
      ≡ (err approval_required, without_active w)
  unfolding attempt_recovery Recovery.collect Recovery.create_fix_up Recovery.fix_up_for
      Recovery.segment_id
  refused = refl

  made :
      make_segment w.store.active_id (without_active w) ≡ (ok tt, (bare_world es content w c).disk)
  unfolding make_segment Files.create_segment frames_bytes
  made = ground (
    arith,
    c.recorded.there,
    lookup-remove w.store.active_id w.store.active_id w.disk.segments,
    ==_refl w.store.active_id,
    insert-remove w.store.active_id segment_magic w.disk.segments,
  )

  approved :
      attempt_recovery (missing_issue w.store.active_id) true (without_active w)
      ≡ (ok tt, (bare_world es content w c).disk)
  unfolding Recovery.create_fix_up Recovery.fix_up_for Recovery.segment_id Recovery.apply
  approved =
      attempt_recovery-one _ _ true (without_active w) (bare_world es content w c).disk refl refl
        made

  -- A store whose disk agrees with it, but that the file of the active segment is gone, is not opened
  -- without an approval, and nothing on the disk changes; recovering it with an approval makes an
  -- empty file for the segment, after which the store opens and agrees with the disk, with the
  -- frames of all other segments as they were and none in the active one.
  pub recover-missing :
      (trigger : ℕ)
      → (open_store trigger (without_active w)
          ≡ (err (approved_recovered_required (missing_issue w.store.active_id)), without_active w))
        × (s : Store) × (d : Disk) × (recover (without_active w) ≡ (ok tt, d))
        × (open_store trigger d ≡ (ok s, d))
        × Consistent es (bare_content es content w c) (record { store = s; disk = d })
        × (s.state ≡ w.store.state)
  unfolding open_store rescan recover Issue.is_empty
  recover-missing trigger =
      let bare = bare_world es content w c in
      let (s, run, agrees, same, _, _, _, _) =
        open_store-Consistent trigger es (bare_content es content w c) bare
          (bare-Consistent es content w c) in
      (
        ground (arith, scan_missing, refused),
        s,
        bare.disk,
        ground (arith, scan_missing, approved),
        run,
        agrees,
        same,
      )
