-- ===== src/Store/Crash/Deleted.antt =====
-- Opening a store (src/store.rs) after a crash between the removal of a dead segment's file and its entry
-- in the manifest.
use woodshed.Base.{ℕ, ◌≡◌, refl, subst, false, List, [], ◌∷◌, ◌++◌, ok, arith, ==_refl}
use woodshed.Base.Dict.{remove, contains, Once}
use woodshed.Hash.{Hasher}
use woodshed.Yatlv.{Yatlv}
use woodshed.Files.{Disk}
use woodshed.Recovery
use woodshed.Recovery.Single.{attempt_recovery-one}
use woodshed.Recovery.{attempt_recovery}
use woodshed.State.{SegmentId, ManifestOp, bare, segment_deleted, is_live}
use woodshed.Manifest.Replay.{Carried}
use woodshed.Scan.Segments.{Content, Held}
use woodshed.Scan.Stray.{gone_issue, scan-stray, find-gone}
use woodshed.Store.{Store, World}
use woodshed.Store.Cleanup.{after_one}
use woodshed.Store.Open.{open_store}
use woodshed.Store.Consistent.{Recorded-same, Recorded, Consistent}
use woodshed.Store.Reopen.{reopened, reopened-Consistent, open_store-mended, is_live-nonempty}
use woodshed.Store.Keeps.Held.{Held-remove}
use woodshed.Store.Keeps.Meta.{after_one-Consistent}
use woodshed.Store.Keeps.Write.{active_is_live}
use woodshed.Store.Log.{log_of}
use woodshed.Store.ReadBack.{Reads, Consistent-Reads}
use woodshed.Store.Crash.Append.{append_manifest_op-logged}

module _ ⦃h : Hasher⦄ ⦃y : Yatlv⦄ (es : List ManifestOp) (content : Content) (w : World)
    (c : Consistent es content w) (id : SegmentId) (ids : List SegmentId)
    (first : w.store.state.dead ≡ id ∷ ids) where
  -- The disk without the file.
  abbrev pub halfway : World
  halfway = record w { disk = record w.disk { segments = remove id w.disk.segments } }

  once : Once (id ∷ ids)
  once = subst Once first c.once

  not_live : is_live id w.store.state.segments ≡ false
  unfolding contains
  not_live = (c.well_formed id).dead_apart (ground (arith, first, ==_refl id))

  left : Held (record w.store.state { dead = ids }) halfway.disk.segments content
  unfolding contains
  left =
      Held-remove w.store.state w.disk.segments content c.held id ids not_live once.0
        (λ j. ground (arith, first))

  halfway-Recorded : Recorded es halfway
  halfway-Recorded = Recorded-same es w halfway refl refl refl refl c.recorded

  recovery-gone :
      attempt_recovery (gone_issue id) false halfway.disk ≡ (ok tt, (after_one id ids w).disk)
  unfolding Recovery.create_fix_up Recovery.fix_up_for Recovery.segment_id Recovery.apply
  recovery-gone = attempt_recovery-one _ _ false halfway.disk (after_one id ids w).disk refl refl (
      append_manifest_op-logged es (segment_deleted id) (record w.store.state { dead = ids })
        halfway halfway-Recorded)

  -- Opening a disk that agrees with a store but has not the file of the first of its dead segments any
  -- more, where an entry can carry the id, succeeds without an approval: the manifest has the entry of
  -- the deletion, the store agrees with the disk, its state is as it was but for the other segments
  -- as the dead, and a client that reads from the start of the first segment reads the log of before.
  pub open_store-halfway :
      (trigger : ℕ)
      → Carried (bare (segment_deleted id))
      → (s : Store) × (d : Disk) × (open_store trigger halfway.disk ≡ (ok s, d))
        × Consistent
            (es ++ (bare (segment_deleted id) ∷ []))
            content
            (record { store = s; disk = d })
        × (s.state ≡ record w.store.state { dead = ids })
        × Reads (log_of content w.store.state.segments) (record { store = s; disk = d })
  open_store-halfway trigger carried =
      let agrees = after_one-Consistent content es w id ids first c carried in
      let es' = es ++ (bare (segment_deleted id) ∷ []) in
      let x = after_one id ids w in
      (
        reopened trigger es' content x agrees,
        x.disk,
        open_store-mended trigger es' content x agrees halfway.disk _ []
            (scan-stray w.store.state w.disk halfway.disk content c.held ids left es (gone_issue id)
              (find-gone w.store.state w.disk content c.held id ids first once.0) c.recorded.there
              c.recorded.holds c.recorded.carried c.recorded.replays
              (is_live-nonempty w.store.active_id w.store.state.segments
                (active_is_live es content w c)))
            recovery-gone,
        reopened-Consistent trigger es' content x agrees,
        refl,
        Consistent-Reads es' content
            (record { store = reopened trigger es' content x agrees; disk = x.disk })
            (reopened-Consistent trigger es' content x agrees),
      )
