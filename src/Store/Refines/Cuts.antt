-- ===== src/Store/Refines/Cuts.antt =====
-- `truncate_end` (src/store.rs), and the log.
use woodshed.Base.{
  ℕ, ◌+◌, ◌≡◌, inl, inr, refl, sym, ap, subst, ◌∙◌, true, List, [], ◌∷◌, ◌++◌, append_assoc, drop,
  All, Option, none, some, arith,
}
use mathlib.Core.Option.{some-injective}
use woodshed.Hash.{Hasher}
use woodshed.Yatlv.{Yatlv}
use woodshed.Frame.Format.{Fits}
use woodshed.Frame.Frames.{Frame, frame_size, frames_size}
use woodshed.Frame.Unique.{frames_bytes-injective}
use woodshed.State
use woodshed.State.{
  StoreState, SegmentEntry, SegmentId, EntryId, ManifestOp, Meta, bare, with_meta, metadata,
  is_live, kill_all, apply,
}
use woodshed.Scan.Segments.{Content, segment_content}
use woodshed.Store.{World}
use woodshed.Store.Truncate.{start_offset, nothing_behind, truncate_tail}
use woodshed.Store.Reader.{Apart}
use woodshed.Store.Tail.{rolled, tail_split-applies}
use woodshed.Store.Order.{ids_of, kill_all-back, Apart-split, tail_split-split}
use woodshed.Store.Consistent.{Consistent}
use woodshed.Store.Keeps.Held.{update}
use woodshed.Store.Keeps.Tail.{segment_file_lem, truncate_tail-Consistent}
use woodshed.Store.Log.{log_of-middle, log_of-cut, log_of}
use woodshed.Base.{==_refl, All-split}
use woodshed.Base.Dict.{lookup-remove}
use woodshed.State.View.{lookup-kill_all}
use woodshed.Store.Tracked.{TrackedAt, Tracked, TrackedAt-put}
use woodshed.Store.Rollback.{truncate_tail-RolledBack}
use woodshed.Store.Calls
use woodshed.Store.Keeps.Split.{Split, split_lem}
use woodshed.Store.Refines.{Refined, next_state, tracked_at, at_state}

module _ ⦃h : Hasher⦄ where
  -- A segment's file says which frames it holds.
  segment_content-injective :
      (fs gs : List Frame)
      → All Fits fs
      → All Fits gs
      → some (segment_content fs) ≡ some (segment_content gs)
      → fs ≡ gs
  segment_content-injective fs gs a b e =
      frames_bytes-injective fs gs a b (ap (drop 8) (some-injective _ _ e))

module _ ⦃h : Hasher⦄ ⦃y : Yatlv⦄ (es : List ManifestOp) (content : Content) (w : World)
    (c : Consistent es content w) where
  module _ (v : EntryId) (r : Calls.Rollback v w) where
    live : Split w.store.state r.id r.dropped
    live = split_lem w.store.state v r.id r.dropped r.found c.apart

    held_frames : content r.id ≡ r.before ++ ((v, r.payload) ∷ r.after)
    held_frames =
        segment_content-injective (content r.id) (r.before ++ ((v, r.payload) ∷ r.after))
          (c.held.fits r.id live.kept) r.fits (sym (c.held.files r.id live.kept) ∙ r.file)

    abbrev cut_at : ℕ
    cut_at = start_offset w.store.index v r.id + frames_size r.before + frame_size (v, r.payload)

    abbrev cut_op : ManifestOp
    cut_op = bare (State.truncate_end r.id cut_at r.dropped)

    -- The log before and after.
    cut_step :
        (front : List SegmentEntry) (e : SegmentEntry) (back : List SegmentEntry)
        → w.store.state.segments ≡ front ++ (e ∷ back)
        → e.id ≡ r.id
        → ids_of back ≡ r.dropped
        → Calls.CutBehind v (log_of content w.store.state.segments) (
            log_of
              (update content r.id (r.before ++ ((v, r.payload) ∷ [])))
              (rolled w.store.state r.id r.dropped).segments)
    cut_step front e back same this those =
        let f : Frame = (v, r.payload) in
        let a = subst Apart same c.apart in
        let (before, after) = Apart-split front back e a in
        let left : (kill_all w.store.state r.dropped).segments ≡ front ++ (e ∷ []) =
          ap (λ ids. (kill_all w.store.state ids).segments) (sym those)
          ∙ kill_all-back back (front ++ (e ∷ [])) w.store.state
              (same ∙ sym (append_assoc front (e ∷ []) back))
              (subst Apart (sym (append_assoc front (e ∷ []) back)) a) in
        let old =
          ap (log_of content) same
          ∙ log_of-middle content front back e r.before r.after f (ap content this ∙ held_frames) in
        let new =
          ap
            (λ i.
              log_of (update content i (r.before ++ (f ∷ [])))
                (kill_all w.store.state r.dropped).segments)
            (sym this)
          ∙ ap (log_of (update content e.id (r.before ++ (f ∷ [])))) left
          ∙ log_of-cut content front e r.before f before in
        (r.payload, log_of content front ++ r.before, r.after ++ log_of content back, old, new)

    -- The last entry is behind.
    tail_step :
        (m : List Frame)
        → Calls.CutBehind v (log_of content w.store.state.segments) m
        → Calls.LogStep (Calls.truncate_end v) w content m
    tail_step m cut =
        subst (λ o. Calls.TailStep v o (log_of content w.store.state.segments) m) (sym r.at_last)
          (inr (r.is_before, cut))

    -- The entry is the last of its segment, which has no seal any more.
    rolled-Tracked :
        Tracked content w
        → TrackedAt
            (update content r.id (r.before ++ ((v, r.payload) ∷ [])))
            (rolled w.store.state r.id r.dropped)
            r.id
            (some v)
    rolled-Tracked k =
        TrackedAt-put content r.id r.before (v, r.payload) [] (rolled w.store.state r.id r.dropped)
          (ground
            (arith, lookup-remove r.id r.id (kill_all w.store.state r.dropped).seals, ==_refl r.id))
          (λ j info f. k.seals j info (
            ground (
              arith,
              lookup-remove r.id j (kill_all w.store.state r.dropped).seals,
              lookup-kill_all j w.store.state r.dropped,
            )))

    cut-Refined : Refined (Calls.truncate_end v) content w
    unfolding Calls.run
    cut-Refined =
        let (x, run, agrees) =
          truncate_tail-Consistent es content w c v r.last r.id r.dropped r.payload r.before r.after
            r.at_last r.is_before r.found held_frames r.other r.from_start r.carried in
        let (before, (fit, _)) = All-split Fits r.before ((v, r.payload) ∷ r.after) r.fits in
        let (x', run', back') =
          truncate_tail-RolledBack w.store w.disk v r.last r.id r.dropped r.payload r.before r.after
            r.at_last r.is_before r.found before r.other fit
            (segment_file_lem es content w c v r.last r.id r.dropped r.payload r.before r.after
              held_frames live.kept) in
        let (front, e, back, same, this, those) =
          tail_split-split w.store.state.segments v r.id r.dropped r.found in
        let upto = update content r.id (r.before ++ ((v, r.payload) ∷ [])) in
        let t = rolled w.store.state r.id r.dropped in
        record {
          world = x;
          entries = es ++ (cut_op ∷ []);
          frames = upto;
          runs = ap Calls.outcome run;
          agrees = agrees;
          step =
              at_state es content w c (Calls.truncate_end v) upto x t
                (next_state es cut_op t w x c.recorded
                  (tail_split-applies w.store.state v r.id r.dropped cut_at r.found)
                  agrees.recorded)
                (tail_step _ (cut_step front e back same this those));
          tracked = λ k.
              tracked_at (es ++ (cut_op ∷ [])) upto x t r.id _ agrees
                (next_state es cut_op t w x c.recorded
                  (tail_split-applies w.store.state v r.id r.dropped cut_at r.found)
                  agrees.recorded)
                refl (ap (λ o. o.1.store.last_entry_id) (sym run ∙ run') ∙ back'.last_entry)
                (rolled-Tracked k);
        }

  kept_step :
      (v : EntryId) (last : Option EntryId)
      → nothing_behind last v ≡ true
      → Calls.TailStep v last
          (log_of content w.store.state.segments)
          (log_of content w.store.state.segments)
  kept_step v none idle = refl
  kept_step v (some last) idle = inl (ground arith, refl)

  -- Where the entry is the last, or one behind it, nothing happens.
  kept-Refined :
      (v : EntryId)
      → nothing_behind w.store.last_entry_id v ≡ true
      → Refined (Calls.truncate_end v) content w
  unfolding Calls.run truncate_tail
  kept-Refined v idle = record {
    world = w;
    entries = es;
    frames = content;
    runs = ground arith;
    agrees = c;
    step = kept_step v w.store.last_entry_id idle;
    tracked = λ k. k;
  }

  pub tail-Refined :
      (v : EntryId)
      → Calls.Allowed (Calls.truncate_end v) w
      → Refined (Calls.truncate_end v) content w
  tail-Refined v (inl idle) = kept-Refined v idle
  tail-Refined v (inr r) = cut-Refined v r
