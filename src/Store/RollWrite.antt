-- ===== src/Store/RollWrite.antt =====
-- A batch that is written where a rollover is pending (src/store.rs).
use woodshed.Base.{
  ℕ, ◌≡◌, ◌≢◌, refl, ap, ◌∙◌, true, false, List, [], ◌∷◌, ◌++◌, length, Option, none, some, ok,
  arith,
}
use woodshed.Base.Dict.{lookup}
use woodshed.Hash.{Hasher}
use woodshed.Yatlv.{Yatlv}
use woodshed.Files.{Disk, segment_magic}
use woodshed.Frame.Frames.{Frame, frames_bytes}
use woodshed.Frame.Summary.Loop.{last_id_or}
use woodshed.State.{EntryId}
use woodshed.State.Invariant.{IsWellFormed}
use woodshed.Store.{Store, World, enter_segment, append_entry}
use woodshed.Store.Write.{
  commit, writer, push_all, roll_if_pending, write_batch, write_ids, write_entries,
}
use woodshed.Store.Batch.{
  Logs, Appended, pushed, push_all-pushed, after_batch, write_batch_lem, last_some, first_some,
  after_batch-Appended,
}
use woodshed.Store.Rollover.{
  CanRoll, sealed, rolled_world, do_rollover_lem, rolled_world-RolledOver,
}

module _ ⦃h : Hasher⦄ ⦃y : Yatlv⦄ (s : Store) (d : Disk) (fs : List Frame) (log : Logs s d fs)
    (first : EntryId) (can : CanRoll s d) (wf : IsWellFormed s.state) where
  -- The world behind the rollover, without the batch.
  abbrev pub rolled : World
  rolled = rolled_world s d first can

  abbrev pub idle_store : Store
  idle_store = record rolled.store { rollover_pending = false }

  pushed-CanRoll : (es : List Frame) → CanRoll (pushed (writer s) es).store d
  pushed-CanRoll es = record {
    there = can.there;
    free = can.free;
    not_live = can.not_live;
    not_dead = can.not_dead;
    active = can.active;
  }

  write_batch-rolled :
      (last : EntryId) (es : List Frame)
      → s.rollover_pending ≡ true
      → write_batch first last
          (length es)
          (record { store = (pushed (writer s) es).store; disk = d })
        ≡ write_batch first last
            (length es)
            (record { store = (pushed (writer idle_store) es).store; disk = rolled.disk })
  unfolding write_batch roll_if_pending enter_segment append_entry
  write_batch-rolled last es pending =
      ground
        (arith, do_rollover_lem (pushed (writer s) es).store d first (pushed-CanRoll es), log.empty)

  pub idle_store-Logs : Logs idle_store rolled.disk []
  unfolding frames_bytes enter_segment append_entry
  idle_store-Logs =
      let r = rolled_world-RolledOver s d first can wf in
      record { file = r.fresh; at_end = refl; empty = log.empty }

  next-ne-active : s.active_id ≢ s.next_seg_id
  next-ne-active e = absurd (clash (log.file) (ap (λ j. lookup j d.segments) e ∙ can.free))
    where
      clash : {o : Option (List ℕ)} {x : List ℕ} → o ≡ some x → o ≡ none → ⊥
      clash a b = ground arith

  -- What the batch leaves: the frames are the next segment's, and the sealed one is as it was.
  pub record Moved (es : List Frame) (w : World) : Type 0 where
    pub appended : Appended idle_store rolled.disk [] idle_store-Logs es w
    pub active : w.store.active_id ≡ s.next_seg_id
    pub state : w.store.state ≡ sealed s first
    pub sealed_file : lookup s.active_id w.disk.segments ≡ some (segment_magic ++ frames_bytes fs)

  after_batch-Moved :
      (last : EntryId) (es : List Frame)
      → last_id_or none es ≡ some last
      → Moved es (after_batch idle_store rolled.disk [] idle_store-Logs last es)
  after_batch-Moved last es found =
      let r = rolled_world-RolledOver s d first can wf in
      let a = after_batch-Appended idle_store rolled.disk [] idle_store-Logs last es found in
      record {
        appended = a;
        active = r.active;
        state = a.state ∙ r.state;
        sealed_file =
            a.others s.active_id (λ e. next-ne-active (e ∙ r.active))
            ∙ r.others s.active_id next-ne-active
            ∙ log.file;
      }

  pub write_rolled_lem :
      (e : Frame) (es : List Frame) (last : EntryId)
      → first ≡ e.0
      → last_id_or none (e ∷ es) ≡ some last
      → s.rollover_pending ≡ true
      → write_entries (push_all (writer s) (e ∷ es)) d ≡ (
        ok (commit (some idle_store.active_id)),
        after_batch idle_store rolled.disk [] idle_store-Logs last (e ∷ es),
      )
  unfolding write_entries write_ids
  write_rolled_lem e es last is_first found pending =
      ap (λ w. write_entries w d) (push_all-pushed (writer s) (e ∷ es))
      ∙ ground (
        arith,
        first_some s d fs log e es,
        write_batch-rolled last (e ∷ es) pending,
        write_batch_lem idle_store rolled.disk [] idle_store-Logs first last (e ∷ es) refl,
      )

-- Where a rollover is pending that can be made, the state is well-formed, and the active segment's file
-- holds the frames `fs` with the cursor at its end and no frame waiting, writing a batch that is not
-- empty succeeds: the frames of the batch are all that the next segment holds, which is active, and
-- the segment before is sealed with its file as it was.
pub write_entries-Moved :
    ⦃h : Hasher⦄ ⦃y : Yatlv⦄
    → (s : Store) (d : Disk) (fs : List Frame) (log : Logs s d fs) → (e : Frame) (es : List Frame)
    → (can : CanRoll s d) (wf : IsWellFormed s.state) → s.rollover_pending ≡ true
    → (w : World) × (write_entries (push_all (writer s) (e ∷ es)) d
        ≡ (ok (commit (some w.store.active_id)), w))
      × Moved s d fs log e.0 can wf (e ∷ es) w
write_entries-Moved s d fs log e es can wf pending =
    let (last, found) = last_some s d fs log e es in
    (
      after_batch (idle_store s d fs log e.0 can wf) (rolled s d fs log e.0 can wf).disk []
          (idle_store-Logs s d fs log e.0 can wf) last (e ∷ es),
      write_rolled_lem s d fs log e.0 can wf e es last refl found pending,
      after_batch-Moved s d fs log e.0 can wf last (e ∷ es) found,
    )
