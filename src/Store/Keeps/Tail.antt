-- ===== src/Store/Keeps/Tail.antt =====
-- `truncate_end` (src/store.rs), and the agreement of the store with its disk.
use woodshed.Base.{
  ℕ, ◌<◌, ◌≡◌, ◌≢◌, refl, ap, ◌∙◌, sym, subst, true, List, [], ◌∷◌, ◌++◌, All, All-append,
  All-split, some, ok, arith, ==_refl,
}
use woodshed.Base.Dict.{lookup, insert, lookup-remove}
use woodshed.Hash.{Hasher}
use woodshed.Yatlv.{Yatlv}
use woodshed.Files.{magic_len, segment_magic}
use woodshed.Frame.Format.{Fits}
use woodshed.Frame.Frames.{Frame, frames_bytes}
use woodshed.State
use woodshed.State.{
  StoreState, SegmentEntry, SegmentId, EntryId, ManifestOp, bare, truncate_end, is_live, is_active,
  find_segment, kill_all,
}
use woodshed.State.View.{is_live-kill_all, Once-kill_all}
use woodshed.State.Invariant.{apply-IsWellFormed}
use woodshed.Manifest.Replay.{Carried}
use woodshed.Scan.Segments.{Content, Held}
use woodshed.Store.{World, append_entry}
use woodshed.Store.Truncate.{tail_split, start_offset, reactivate, truncate_tail}
use woodshed.Store.Batch.{Logs, frames_bytes-append, frames_size-append}
use woodshed.Store.Tail.{rolled, tail_split-applies}
use woodshed.Store.Rollback.{
  reported, rolled_world, cut_disk, roll_back_lem, set_len_lem, segment_file,
}
use woodshed.Store.Consistent.{Recorded-same, Recorded-logged, Consistent}
use woodshed.Store.Keeps.Split.{Split, split_lem}
use woodshed.Store.Keeps.Held.{
  update, update_self, Held-insert, Held-killed, Apart-kill_all, known-kill_all,
}

module _ ⦃h : Hasher⦄ ⦃y : Yatlv⦄ (es : List ManifestOp) (content : Content) (w : World)
    (c : Consistent es content w) (v last : EntryId) (id : SegmentId) (dropped : List SegmentId)
    (payload : List ℕ) (fs gs : List Frame) where
  -- The frames up to the entry.
  abbrev pub kept_frames : List Frame
  kept_frames = fs ++ ((v, payload) ∷ [])

  abbrev pub cut : ℕ
  cut = reported w.store w.disk v id payload fs gs

  abbrev cut_world : World
  cut_world = rolled_world w.store w.disk v last id dropped payload fs gs cut

  pub segment_file_lem :
      content id ≡ fs ++ ((v, payload) ∷ gs)
      → is_live id w.store.state.segments ≡ true
      → lookup id w.disk.segments ≡ some (segment_file w.store w.disk v id payload fs gs)
  unfolding frames_bytes
  segment_file_lem e live =
      c.held.files id live
      ∙ ap (λ b. some (segment_magic ++ b))
          (ap frames_bytes e ∙ frames_bytes-append fs ((v, payload) ∷ gs))

  kept-Fits : All Fits (fs ++ ((v, payload) ∷ gs)) → All Fits kept_frames
  kept-Fits fits =
      let (before, (fit, _)) = All-split Fits fs ((v, payload) ∷ gs) fits in
      All-append Fits fs ((v, payload) ∷ []) before (fit, tt)

  cut_world-Consistent :
      content id ≡ fs ++ ((v, payload) ∷ gs)
      → tail_split w.store.state.segments v ≡ some (id, dropped)
      → start_offset w.store.index v id ≡ magic_len
      → Carried (bare (truncate_end id cut dropped))
      → Split w.store.state id dropped
      → Consistent
          (es ++ (bare (truncate_end id cut dropped) ∷ []))
          (update content id kept_frames)
          cut_world
  unfolding append_entry reactivate is_active insert lookup State.seal
  cut_world-Consistent e found from_start carried split =
      let s = w.store.state in
      let op = bare (truncate_end id cut dropped) in
      let t = rolled s id dropped in
      let applied = tail_split-applies s v id dropped cut found in
      let d = cut_disk w.store w.disk v last id dropped payload fs gs cut in
      let r =
        Recorded-logged es op t (record { store = w.store; disk = d })
          (Recorded-same es w _ refl refl refl refl c.recorded) carried applied in
      let file = set_len_lem w.store w.disk v id payload fs gs from_start in
      record {
        recorded = record {
          there = r.there;
          holds = r.holds;
          cursor = r.cursor;
          carried = r.carried;
          replays = r.replays;
        };
        held =
            subst (λ b. Held t (insert id b w.disk.segments) (update content id kept_frames))
              (sym file)
              (Held-insert t w.disk.segments content
                (Held-killed s w.disk.segments content c.held dropped t split.were_live refl refl
                  (λ j info k. ground (arith, k, lookup-remove id j (kill_all s dropped).seals)))
                id kept_frames
                (ground (arith, is_live-kill_all id s dropped, split.apart_from, split.kept))
                (ground (arith, lookup-remove id id (kill_all s dropped).seals, ==_refl id))
                (kept-Fits (subst (All Fits) e (c.held.fits id split.kept))));
        well_formed =
            apply-IsWellFormed s t op c.well_formed
              (split.apart_from, λ j a. split.behind j (c.last ∙ ground (arith, c.active))) applied;
        apart = Apart-kill_all s dropped c.apart;
        once = Once-kill_all s dropped c.once;
        last = split.last;
        active = refl;
        entry =
            ground (arith, split.entry, lookup-remove id id (kill_all s dropped).seals, ==_refl id);
        logs = subst (Logs _ _) (sym (update_self content id kept_frames)) (record {
          file = ground (arith, file, ==_refl id);
          at_end = omega (arith, from_start, frames_size-append fs ((v, payload) ∷ []));
          empty = refl;
        });
        fenced = λ j k. c.fenced j (known-kill_all s dropped j (split.were_live j) k);
        room = c.room;
      }

  -- Rolling back to an entry `v` before the last one, in a store that agrees with its disk, where the
  -- segment that holds `v` by its first entry has the frames `fs` without the id `v`, then `v`, then
  -- others, where the nearest checkpoint is none of that segment or at its start, and where an
  -- entry of the manifest can carry the operation, succeeds and keeps them in agreement: that
  -- segment holds the frames up to `v`, and the manifest has the operation too.
  pub truncate_tail-Consistent :
      w.store.last_entry_id ≡ some last
      → v < last
      → tail_split w.store.state.segments v ≡ some (id, dropped)
      → content id ≡ fs ++ ((v, payload) ∷ gs)
      → All (λ f. f.0 ≢ v) fs
      → start_offset w.store.index v id ≡ magic_len
      → Carried (bare (truncate_end id cut dropped))
      → (x : World) × (truncate_tail v w ≡ (ok tt, x))
        × Consistent
            (es ++ (bare (truncate_end id cut dropped) ∷ []))
            (update content id kept_frames)
            x
  unfolding truncate_tail
  truncate_tail-Consistent at_last lt found e other from_start carried =
      let split = split_lem w.store.state v id dropped found c.apart in
      let fits = subst (All Fits) e (c.held.fits id split.kept) in
      let (before, (fit, _)) = All-split Fits fs ((v, payload) ∷ gs) fits in
      (
        cut_world,
        ground (
          arith,
          roll_back_lem w.store w.disk v last id dropped payload fs gs found before other fit
              (segment_file_lem e split.kept),
        ),
        cut_world-Consistent e found from_start carried split,
      )
