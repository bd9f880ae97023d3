-- ===== src/Store/Keeps/Write.antt =====
-- `StoreWriter::write` (src/store.rs), and the agreement of the store with its disk.
use woodshed.Base.{
  refl, ◌≡◌, sym, ap, subst, true, false, List, ◌∷◌, ◌++◌, All, All-append, none, some, ok, arith,
  ==_refl,
}
use woodshed.Base.Dict.{lookup, insert}
use woodshed.Hash.{Hasher}
use woodshed.Yatlv.{Yatlv}
use woodshed.Files.{segment_magic}
use woodshed.Frame.Format.{Fits}
use woodshed.Frame.Frames.{Frame}
use woodshed.State.{EntryId, ManifestOp, is_live, is_active}
use woodshed.State.View.{find_segment-is_live}
use woodshed.Scan.Segments.{Content, Held}
use woodshed.Store.{World}
use woodshed.Store.Write.{commit, writer, push_all, write_entries}
use woodshed.Store.Batch.{
  Logs, after_batch, after_batch-Logs, write_entries_lem, last_some, frames_bytes-append,
}
use woodshed.Store.Consistent.{Recorded-same, Consistent}
use woodshed.Store.Keeps.Held.{update, update_self, Held-insert}

module _ ⦃h : Hasher⦄ ⦃y : Yatlv⦄ (es : List ManifestOp) (content : Content) (w : World)
    (c : Consistent es content w) where
  pub active_is_live : is_live w.store.active_id w.store.state.segments ≡ true
  active_is_live = find_segment-is_live w.store.active_id w.store.state.segments _ c.entry

  pub active_unsealed : lookup w.store.active_id w.store.state.seals ≡ none
  unfolding is_active
  active_unsealed =
      (c.well_formed w.store.active_id).active_unsealed
        (ground (arith, c.active, ==_refl w.store.active_id))

  -- The frames of the segments after the batch.
  abbrev pub appended : List Frame → Content
  appended batch = update content w.store.active_id (content w.store.active_id ++ batch)

  pub after_batch-Consistent :
      (last : EntryId) (batch : List Frame)
      → All Fits batch
      → Consistent es
          (appended batch)
          (after_batch w.store w.disk (content w.store.active_id) c.logs last batch)
  after_batch-Consistent last batch fits = record {
    recorded = Recorded-same es w _ refl refl refl refl c.recorded;
    held =
        subst
          (λ b. Held w.store.state (insert w.store.active_id b w.disk.segments) (appended batch))
          (ap (λ b. segment_magic ++ b) (frames_bytes-append (content w.store.active_id) batch))
          (Held-insert w.store.state w.disk.segments content c.held w.store.active_id
            (content w.store.active_id ++ batch) active_is_live active_unsealed
            (All-append Fits (content w.store.active_id) batch
              (c.held.fits w.store.active_id active_is_live) fits));
    well_formed = c.well_formed;
    apart = c.apart;
    once = c.once;
    last = c.last;
    active = c.active;
    entry = c.entry;
    logs =
        subst (Logs _ _)
          (sym (update_self content w.store.active_id (content w.store.active_id ++ batch)))
          (after_batch-Logs w.store w.disk (content w.store.active_id) c.logs last batch);
    fenced = c.fenced;
    room = c.room;
  }

  -- Writing a batch that is not empty, of frames that fit, where no rollover is pending, keeps a store
  -- and its disk in agreement: the batch is behind the frames of the active segment, and the
  -- manifest is as it was.
  pub write_entries-Consistent :
      (e : Frame) (batch : List Frame)
      → All Fits (e ∷ batch)
      → w.store.rollover_pending ≡ false
      → (x : World) × (write_entries (push_all (writer w.store) (e ∷ batch)) w.disk
          ≡ (ok (commit (some w.store.active_id)), x))
        × Consistent es (appended (e ∷ batch)) x
  write_entries-Consistent e batch fits idle =
      let fs = content w.store.active_id in
      let (last, found) = last_some w.store w.disk fs c.logs e batch in
      (
        after_batch w.store w.disk fs c.logs last (e ∷ batch),
        write_entries_lem w.store w.disk fs c.logs e batch last found idle,
        after_batch-Consistent last (e ∷ batch) fits,
      )
