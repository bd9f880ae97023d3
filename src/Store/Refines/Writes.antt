-- ===== src/Store/Refines/Writes.antt =====
-- `StoreWriter::write` (src/store.rs), and the log.
use woodshed.Base.{
  ◌≡◌, inl, inr, refl, sym, ap, ◌∙◌, Bool-cases, true, false, List, [], ◌∷◌, ◌++◌, append-nil, All,
  none, some, ◌==◌, arith,
}
use woodshed.Base.Dict.{lookup, lookup-insert}
use woodshed.Frame.Summary.Loop.{last_id_or}
use mathlib.Core.Option.{Option, some-injective}
use woodshed.Hash.{Hasher}
use woodshed.Yatlv.{Yatlv}
use woodshed.Frame.Format.{Fits}
use woodshed.Frame.Frames.{Frame}
use woodshed.State.{SealInfo, SegmentId, EntryId, ManifestOp, is_live}
use woodshed.Scan.Segments.{Content}
use woodshed.Store.{World, last_or, roll_entry}
use woodshed.Store.Write.{push_all, write_entries}
use woodshed.Store.Rollover.{seal_info, sealed, sealed-apply}
use woodshed.Store.Consistent.{Consistent}
use woodshed.Store.Keeps.Held.{update_self}
use woodshed.Store.Keeps.Write.{active_unsealed, appended, write_entries-Consistent}
use woodshed.Store.Keeps.Roll.{Consistent-CanRoll, active_below, next_unknown, opened}
use woodshed.Store.Keeps.RollWrite.{moved, write_rolled-Consistent}
use woodshed.Store.Log.{log_of, log_of-append, log_of-update, log_of-write}
use woodshed.Store.Batch.{write_entries-Appended}
use woodshed.Store.RollWrite.{write_entries-Moved}
use woodshed.Store.Tracked.{TrackedAt, TrackedAt-put, Tracked, last_or_first}
use woodshed.Store.Calls
use woodshed.Store.Refines.{Refined, same_state, next_state, tracked_at, at_state}

module _ ⦃h : Hasher⦄ ⦃y : Yatlv⦄ (es : List ManifestOp) (content : Content) (w : World)
    (c : Consistent es content w) where
  write_idle-Refined :
      (f : Frame) (fs : List Frame)
      → All Fits (f ∷ fs)
      → w.store.rollover_pending ≡ false
      → Refined (Calls.write (f ∷ fs)) content w
  unfolding Calls.run
  write_idle-Refined f fs fits idle =
      let (x, run, agrees) = write_entries-Consistent es content w c f fs fits idle in
      let (x', run', appended') =
        write_entries-Appended w.store w.disk (content w.store.active_id) c.logs f fs idle in
      record {
        world = x;
        entries = es;
        frames = appended es content w c (f ∷ fs);
        runs = ap Calls.outcome run;
        agrees = agrees;
        step =
            at_state es content w c (Calls.write (f ∷ fs)) (appended es content w c (f ∷ fs)) x
              w.store.state (same_state es w x c.recorded agrees.recorded)
              (log_of-write content w.store.active_id (f ∷ fs) w.store.state.segments c.apart
                c.last);
        tracked = λ k.
            tracked_at es (appended es content w c (f ∷ fs)) x w.store.state w.store.active_id _
              agrees (same_state es w x c.recorded agrees.recorded) c.active
              (ap (λ r. r.1.store.last_entry_id) (sym run ∙ run') ∙ appended'.last)
              (TrackedAt-put content w.store.active_id (content w.store.active_id) f fs
                w.store.state (active_unsealed es content w c) k.seals);
      }

  moved_log :
      (first : EntryId) (batch : List Frame)
      → log_of (moved es content w c batch) (sealed w.store first).segments
        ≡ log_of content w.store.state.segments ++ batch
  unfolding log_of
  moved_log first batch =
      let id = w.store.next_seg_id in
      let segs = w.store.state.segments in
      let unknown : is_live id segs ≡ false = ground (arith, next_unknown es content w c) in
      ground (
        arith,
        log_of-append (moved es content w c batch) segs
            (record { id = id; first_entry = first } ∷ []),
        log_of-update (opened es content w c) id batch segs unknown,
        log_of-update content id [] segs unknown,
        update_self (opened es content w c) id batch,
        append-nil batch,
      )

  last_or-first : (o : Option EntryId) (first : EntryId) → last_or o first ≡ last_or_first o first
  last_or-first none first = refl
  last_or-first (some last) first = refl

  next_unsealed : (first : EntryId) → lookup w.store.next_seg_id (sealed w.store first).seals ≡ none
  next_unsealed first = ground (
    arith,
    lookup-insert w.store.active_id w.store.next_seg_id (seal_info w.store) w.store.state.seals,
    active_below es content w c,
    (c.well_formed w.store.next_seg_id).seal_live,
    next_unknown es content w c,
  )

  -- The seal of the active segment names its last entry.
  sealed_seals :
      (first : EntryId) (j : SegmentId) (info : SealInfo)
      → Tracked content w
      → lookup j (sealed w.store first).seals ≡ some info
      → info.last_entry ≡ last_or_first (last_id_or none (opened es content w c j)) info.first_entry
  sealed_seals first j info k e =
      let inserted = lookup-insert w.store.active_id j (seal_info w.store) w.store.state.seals in
      elim (Bool-cases (w.store.next_seg_id == j)) [
        | inl next ↦ absurd (ground (arith, next_unsealed first))
        | inr old ↦ elim (Bool-cases (w.store.active_id == j)) [
          | inl same ↦
              let is_info : some (seal_info w.store) ≡ some info = ground (arith, inserted) in
              let kept : content j ≡ opened es content w c j = ground arith in
              let here : w.store.active_id ≡ j = ground arith in
              ap (λ i. i.last_entry) (sym (some-injective _ _ is_info))
              ∙ last_or-first w.store.last_entry_id w.store.active_first_entry
              ∙ ap (λ o. last_or_first o w.store.active_first_entry) k.is_last
              ∙ ap (λ i. last_or_first (last_id_or none (content i)) w.store.active_first_entry)
                  here
              ∙ ap (λ i. last_or_first (last_id_or none (content j)) i.first_entry)
                  (some-injective _ _ is_info)
              ∙ ap (λ fs. last_or_first (last_id_or none fs) info.first_entry) kept
          | inr other ↦ ground (arith, inserted, k.seals j info)
        ]
      ]

  sealed-Tracked :
      (f : Frame) (fs : List Frame)
      → Tracked content w
      → TrackedAt
          (moved es content w c (f ∷ fs))
          (sealed w.store f.0)
          w.store.next_seg_id
          (last_id_or none (f ∷ fs))
  sealed-Tracked f fs k =
      TrackedAt-put (opened es content w c) w.store.next_seg_id [] f fs (sealed w.store f.0)
        (next_unsealed f.0) (λ j info e. sealed_seals f.0 j info k e)

  write_rolled-Refined :
      (f : Frame) (fs : List Frame)
      → All Fits (f ∷ fs)
      → w.store.rollover_pending ≡ true
      → Calls.CanStart w (f ∷ fs)
      → Refined (Calls.write (f ∷ fs)) content w
  unfolding Calls.run
  write_rolled-Refined f fs fits pending (carried, room) =
      let (x, run, agrees) =
        write_rolled-Consistent es content w c f fs fits pending carried room in
      let can = Consistent-CanRoll es content w c in
      let (x', run', moved') =
        write_entries-Moved w.store w.disk (content w.store.active_id) c.logs f fs can c.well_formed
          pending in
      record {
        world = x;
        entries = es ++ (roll_entry w.store f.0 ∷ []);
        frames = moved es content w c (f ∷ fs);
        runs = ap Calls.outcome run;
        agrees = agrees;
        step =
            at_state es content w c (Calls.write (f ∷ fs)) (moved es content w c (f ∷ fs)) x
              (sealed w.store f.0)
              (next_state es (roll_entry w.store f.0) (sealed w.store f.0) w x c.recorded
                (sealed-apply w.store w.disk f.0 (Consistent-CanRoll es content w c))
                agrees.recorded)
              (moved_log f.0 (f ∷ fs));
        tracked = λ k.
            tracked_at (es ++ (roll_entry w.store f.0 ∷ [])) (moved es content w c (f ∷ fs)) x
              (sealed w.store f.0) w.store.next_seg_id _ agrees
              (next_state es (roll_entry w.store f.0) (sealed w.store f.0) w x c.recorded
                (sealed-apply w.store w.disk f.0 can) agrees.recorded)
              refl (ap (λ r. r.1.store.last_entry_id) (sym run ∙ run') ∙ moved'.appended.last)
              (sealed-Tracked f fs k);
      }

  write_nothing-Refined : Refined (Calls.write []) content w
  unfolding Calls.run write_entries push_all
  write_nothing-Refined = record {
    world = w;
    entries = es;
    frames = content;
    runs = refl;
    agrees = c;
    step = sym (append-nil (log_of content w.store.state.segments));
    tracked = λ k. k;
  }

  pub write-Refined :
      (batch : List Frame)
      → Calls.Allowed (Calls.write batch) w
      → Refined (Calls.write batch) content w
  write-Refined [] a = write_nothing-Refined
  write-Refined (f ∷ fs) (fits, room) = elim (Bool-cases w.store.rollover_pending) [
    | inl pending ↦ write_rolled-Refined f fs fits pending (room pending)
    | inr idle ↦ write_idle-Refined f fs fits idle
  ]
