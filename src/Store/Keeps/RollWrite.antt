-- ===== src/Store/Keeps/RollWrite.antt =====
-- A batch that a rollover makes room for (src/store.rs), and the agreement of the store with its disk.
use woodshed.Base.{◌+◌, ◌^◌, ◌<◌, ◌≡◌, refl, subst, true, List, [], ◌∷◌, ◌++◌, All, some, ok}
use woodshed.Hash.{Hasher}
use woodshed.Yatlv.{Yatlv}
use woodshed.Frame.Format.{Fits}
use woodshed.Frame.Frames.{Frame}
use woodshed.State.{EntryId, ManifestOp}
use woodshed.Manifest.Replay.{Carried}
use woodshed.Scan.Segments.{Content}
use woodshed.Store.{World, roll_entry, enter_segment}
use woodshed.Store.Write.{commit, writer, push_all, write_entries}
use woodshed.Store.Batch.{Logs, after_batch, last_some}
use woodshed.Store.Rollover.{rolled_world}
use woodshed.Store.RollWrite.{idle_store, idle_store-Logs, write_rolled_lem}
use woodshed.Store.Consistent.{Consistent}
use woodshed.Store.Keeps.Held.{update, update_self}
use woodshed.Store.Keeps.Write.{after_batch-Consistent}
use woodshed.Store.Keeps.Roll.{Consistent-CanRoll, opened, rolled_Consistent}

-- The batch goes to the segment that the rollover opened.
module _ ⦃h : Hasher⦄ ⦃y : Yatlv⦄ (es : List ManifestOp) (content : Content) (w : World)
    (c : Consistent es content w) where
  abbrev pub moved : List Frame → Content
  moved batch = update (opened es content w c) w.store.next_seg_id batch

  idle_Consistent :
      (first : EntryId)
      → Carried (roll_entry w.store first)
      → w.store.next_seg_id + 1 < 2 ^ 32
      → Consistent (es ++ (roll_entry w.store first ∷ [])) (opened es content w c) (record {
        store =
            idle_store w.store w.disk
              (content w.store.active_id)
              c.logs
              first
              (Consistent-CanRoll es content w c)
              c.well_formed;
        disk = (rolled_world w.store w.disk first (Consistent-CanRoll es content w c)).disk;
      })
  idle_Consistent first carried room =
      let r = rolled_Consistent es content w c first carried room in
      record {
        recorded = record {
          there = r.recorded.there;
          holds = r.recorded.holds;
          cursor = r.recorded.cursor;
          carried = r.recorded.carried;
          replays = r.recorded.replays;
        };
        held = r.held;
        well_formed = r.well_formed;
        apart = r.apart;
        once = r.once;
        last = r.last;
        active = r.active;
        entry = r.entry;
        logs = record { file = r.logs.file; at_end = r.logs.at_end; empty = r.logs.empty };
        fenced = r.fenced;
        room = r.room;
      }

  -- Writing a batch that is not empty, of frames that fit, where a rollover is pending whose entry can
  -- be carried and whose id is not the last of 32 bits, keeps a store and its disk in agreement: the
  -- manifest has the rollover's entry too, and the batch is all that the next segment holds.
  pub write_rolled-Consistent :
      (e : Frame) (batch : List Frame)
      → All Fits (e ∷ batch)
      → w.store.rollover_pending ≡ true
      → Carried (roll_entry w.store e.0)
      → w.store.next_seg_id + 1 < 2 ^ 32
      → (x : World) × (write_entries (push_all (writer w.store) (e ∷ batch)) w.disk
          ≡ (ok (commit (some x.store.active_id)), x))
        × Consistent (es ++ (roll_entry w.store e.0 ∷ [])) (moved (e ∷ batch)) x
  unfolding enter_segment
  write_rolled-Consistent e batch fits pending carried room =
      let can = Consistent-CanRoll es content w c in
      let fs = content w.store.active_id in
      let idle = idle_store w.store w.disk fs c.logs e.0 can c.well_formed in
      let d = (rolled_world w.store w.disk e.0 can).disk in
      let log = idle_store-Logs w.store w.disk fs c.logs e.0 can c.well_formed in
      let (last, found) = last_some w.store w.disk fs c.logs e batch in
      (
        after_batch idle d [] log last (e ∷ batch),
        write_rolled_lem w.store w.disk fs c.logs e.0 can c.well_formed e batch last refl found
            pending,
        subst
            (λ gs.
              (l : Logs idle d gs)
              → Consistent (es ++ (roll_entry w.store e.0 ∷ []))
                  (update (opened es content w c) w.store.next_seg_id (gs ++ (e ∷ batch)))
                  (after_batch idle d gs l last (e ∷ batch)))
            (update_self content w.store.next_seg_id [])
            (λ l.
              after_batch-Consistent (es ++ (roll_entry w.store e.0 ∷ [])) (opened es content w c)
                (record { store = idle; disk = d }) (idle_Consistent e.0 carried room) last
                (e ∷ batch) fits)
            log,
      )
