-- ===== src/Store/ReadBack.antt =====
-- What a client reads after any calls on a store (src/store.rs).
use woodshed.Base.{
  ℕ, suc, ◌≡◌, refl, true, sym, ap, subst, List, [], ◌∷◌, ◌++◌, length, some, arith,
}
use woodshed.Hash.{Hasher}
use woodshed.Yatlv.{Yatlv}
use woodshed.Files.{magic_len}
use woodshed.Frame.Frames.{Frame}
use woodshed.State.{SegmentEntry, SegmentId, ManifestOp, is_live}
use woodshed.State.View.{find_segment-is_live}
use woodshed.Manifest.Replay.{Carried}
use woodshed.Scan.Segments.{Content}
use woodshed.Store.{World}
use woodshed.Store.Read.{segment_start, seek_in}
use woodshed.Store.Create.{creation}
use woodshed.Store.Consistent.{Consistent}
use woodshed.Store.Log.{log_of}
use woodshed.Store.Drain.{drain}
use woodshed.Store.ScanFrom.{StartsAt, seek_in-drain}
use woodshed.Base.{none}
use woodshed.Frame.Summary.Loop.{last_id_or}
use woodshed.Store.Tracked.{last_of_log}
use woodshed.Store.Calls
use woodshed.Store.Refines.Runs.{Reach-Implements}

module _ ⦃h : Hasher⦄ ⦃y : Yatlv⦄ where
  -- A client reads the log from the start of the first segment.
  pub record Reads (l : List Frame) (w : World) : Type 0 where
    pub start : SegmentId × ℕ
    pub first : segment_start w.store.state.segments ≡ some start
    pub read : drain (suc (length l)) w.disk w.store.state (seek_in w.disk 0 start) ≡ some l

  StartsAt-zero : (fs : List Frame) → StartsAt 0 fs
  StartsAt-zero [] = tt
  StartsAt-zero (f ∷ fs) = omega arith

  Reads-from :
      (es : List ManifestOp) (content : Content) (w : World) (segs : List SegmentEntry)
      → w.store.state.segments ≡ segs
      → is_live w.store.active_id segs ≡ true
      → Consistent es content w
      → Reads (log_of content w.store.state.segments) w
  unfolding log_of is_live
  Reads-from es content w [] same live c = absurd (ground arith)
  Reads-from es content w (e ∷ back) same live c = record {
    start = (e.id, magic_len);
    first = ap segment_start same;
    read =
        subst
          (λ l.
            drain (suc (length l)) w.disk w.store.state (seek_in w.disk 0 (e.id, magic_len))
            ≡ some l)
          (sym (ap (log_of content) same))
          (seek_in-drain w.disk w.store.state content c.held c.apart [] back e same 0 magic_len []
            (content e.id) (suc (length (content e.id ++ log_of content back))) refl tt
            (StartsAt-zero (content e.id)) (omega arith));
  }

  pub Consistent-Reads :
      (es : List ManifestOp) (content : Content) (w : World)
      → Consistent es content w
      → Reads (log_of content w.store.state.segments) w
  Consistent-Reads es content w c =
      Reads-from es content w w.store.state.segments refl
        (find_segment-is_live w.store.active_id w.store.state.segments _ c.entry) c

  -- After any allowed calls on a store created in an empty directory, where the first manifest entry
  -- can be carried, a client that reads from the start of the first segment until the end reads the
  -- log that the calls make, one after the other as `LogStep` says, of the empty log, and the store's
  -- last entry id is that of the last frame of that log, or none where it is empty.
  pub Reach-Reads :
      (calls : List Calls.Call) (w : World)
      → Carried creation
      → Calls.Reach calls w
      → (l : List Frame) × Calls.LogReach calls w l
        × Reads l w
        × (w.store.last_entry_id ≡ last_id_or none l)
  Reach-Reads calls w carried r =
      let (es, content, c, reached, k) = Reach-Implements calls w carried r in
      (
        log_of content w.store.state.segments,
        reached,
        Consistent-Reads es content w c,
        last_of_log content w.store.active_id w.store.state w.store.last_entry_id _ k c.well_formed
            c.active c.last refl,
      )
