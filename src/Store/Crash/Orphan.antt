-- ===== src/Store/Crash/Orphan.antt =====
-- Opening a store (src/store.rs) whose directory has a segment file that the manifest does not know.
use woodshed.Base.{ℕ, ◌+◌, ◌^◌, ◌<◌, ◌≡◌, refl, false, ◌||◌, max, List, [], ◌∷◌, ◌++◌, ok, arith}
use woodshed.Base.Dict.{insert, lookup-insert, add, contains, contains-add, Once-add}
use woodshed.Hash.{Hasher}
use woodshed.Yatlv.{Yatlv}
use woodshed.Files.{Disk}
use woodshed.Recovery
use woodshed.Recovery.Single.{attempt_recovery-one}
use woodshed.Recovery.{attempt_recovery}
use woodshed.State
use woodshed.State.{StoreState, SegmentId, ManifestOp, bare, record_orphan, apply, is_live}
use woodshed.State.Invariant.{apply-IsWellFormed}
use woodshed.Manifest.Replay.{Carried}
use woodshed.Scan.Segments.{Content, Held}
use woodshed.Scan.Stray.{orphan_issue, scan-stray, find-stranger}
use woodshed.Store.{Store, World, append_entry}
use woodshed.Store.Logged.{logged}
use woodshed.Store.Open.{open_store}
use woodshed.Store.Consistent.{Recorded-same, Recorded, Recorded-logged, Consistent}
use woodshed.Store.Reopen.{reopened, reopened-Consistent, open_store-mended, is_live-nonempty}
use woodshed.Store.Keeps.Write.{active_is_live}
use woodshed.Store.Log.{log_of}
use woodshed.Store.ReadBack.{Reads, Consistent-Reads}
use woodshed.Store.Crash.Append.{append_manifest_op-logged}

module _ ⦃h : Hasher⦄ ⦃y : Yatlv⦄ (es : List ManifestOp) (content : Content) (w : World)
    (c : Consistent es content w) (n : SegmentId) (bytes : List ℕ)
    (stranger : (is_live n w.store.state.segments || contains n w.store.state.dead) ≡ false) where
  -- The disk with the file that the manifest does not know.
  abbrev pub strange : Disk
  strange = record w.disk { segments = insert n bytes w.disk.segments }

  abbrev orphaned : StoreState
  orphaned = record w.store.state { dead = add n w.store.state.dead }

  orphaned-apply : apply w.store.state (bare (record_orphan n)) ≡ ok orphaned
  unfolding apply State.apply_op State.set_all
  orphaned-apply = refl

  orphaned-Held : Held orphaned strange.segments content
  orphaned-Held = record {
    files = λ j l. ground (arith, lookup-insert n j bytes w.disk.segments, c.held.files j l);
    fits = c.held.fits;
    sizes = c.held.sizes;
    dead_there = λ j k. ground (
      arith,
      lookup-insert n j bytes w.disk.segments,
      contains-add n j w.store.state.dead,
      c.held.dead_there j,
    );
    known = λ j k. ground (
      arith,
      lookup-insert n j bytes w.disk.segments,
      contains-add n j w.store.state.dead,
      c.held.known j,
    );
  }

  -- The store with an id behind the file's as its next.
  abbrev aware : World
  aware = record {
    store = record w.store { next_seg_id = max w.store.next_seg_id (n + 1) };
    disk = strange;
  }

  aware-Recorded : Recorded es aware
  aware-Recorded = Recorded-same es w aware refl refl refl refl c.recorded

  -- The file is recorded as that of a dead segment.
  abbrev adopted : World
  adopted = logged (bare (record_orphan n)) orphaned aware

  adopted-Consistent :
      n + 1 < 2 ^ 32
      → Carried (bare (record_orphan n))
      → Consistent (es ++ (bare (record_orphan n) ∷ [])) content adopted
  unfolding append_entry
  adopted-Consistent room carried = record {
    recorded =
        Recorded-logged es (bare (record_orphan n)) orphaned aware aware-Recorded carried
          orphaned-apply;
    held = orphaned-Held;
    well_formed =
        apply-IsWellFormed w.store.state orphaned (bare (record_orphan n)) c.well_formed
          (ground (arith, stranger)) orphaned-apply;
    apart = c.apart;
    once = Once-add n w.store.state.dead c.once;
    last = c.last;
    active = c.active;
    entry = c.entry;
    logs = record {
      file = ground (
        arith,
        c.logs.file,
        lookup-insert n w.store.active_id bytes w.disk.segments,
        active_is_live es content w c,
      );
      at_end = c.logs.at_end;
      empty = c.logs.empty;
    };
    fenced = λ j k. ground (arith, c.fenced j, contains-add n j w.store.state.dead);
    room = ground (arith, c.room, room);
  }

  recovery-orphan : attempt_recovery (orphan_issue n) false strange ≡ (ok tt, adopted.disk)
  unfolding Recovery.create_fix_up Recovery.fix_up_for Recovery.segment_id Recovery.apply
  recovery-orphan =
      attempt_recovery-one _ _ false strange adopted.disk refl refl
        (append_manifest_op-logged es (record_orphan n) orphaned aware aware-Recorded)

  -- Opening a disk that agrees with a store but has one segment file more, of any bytes, whose id the
  -- state does not know and is less than 2^32 - 1, where an entry can carry the id, succeeds without an
  -- approval: the manifest has one entry more, which says that the file is a dead segment's, the
  -- store agrees with the disk, its state is as it was but for this segment among the dead, and a
  -- client that reads from the start of the first segment reads the log of before.
  pub open_store-stranger :
      (trigger : ℕ)
      → n + 1 < 2 ^ 32
      → Carried (bare (record_orphan n))
      → (s : Store) × (d : Disk) × (open_store trigger strange ≡ (ok s, d))
        × Consistent (es ++ (bare (record_orphan n) ∷ [])) content (record { store = s; disk = d })
        × (s.state ≡ record w.store.state { dead = add n w.store.state.dead })
        × Reads (log_of content w.store.state.segments) (record { store = s; disk = d })
  open_store-stranger trigger room carried =
      let agrees = adopted-Consistent room carried in
      let es' = es ++ (bare (record_orphan n) ∷ []) in
      (
        reopened trigger es' content adopted agrees,
        adopted.disk,
        open_store-mended trigger es' content adopted agrees strange _ []
            (scan-stray w.store.state w.disk strange content c.held orphaned.dead orphaned-Held es
              (orphan_issue n) (find-stranger w.store.state w.disk content c.held n bytes stranger)
              c.recorded.there c.recorded.holds c.recorded.carried c.recorded.replays
              (is_live-nonempty w.store.active_id w.store.state.segments
                (active_is_live es content w c)))
            recovery-orphan,
        reopened-Consistent trigger es' content adopted agrees,
        refl,
        Consistent-Reads es' content
            (record { store = reopened trigger es' content adopted agrees; disk = adopted.disk })
            (reopened-Consistent trigger es' content adopted agrees),
      )
