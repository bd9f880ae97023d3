-- ===== src/Store/Keeps/Meta.antt =====
-- `write_metadata` and `delete_dead_segments` (src/store.rs), and the agreement of the store with its disk.
use woodshed.Base.{
  ℕ, ◌+◌, ◌≡◌, refl, ap, ◌∙◌, List, [], ◌∷◌, ◌++◌, append_assoc, append-nil, map, length, All, ok,
  arith, ==_refl, subst, sym,
}
use woodshed.Base.Dict.{remove, contains, Once, lookup-remove}
use woodshed.Hash.{Hasher}
use woodshed.Yatlv.{Yatlv}
use woodshed.State
use woodshed.State.{
  StoreState, SegmentId, ManifestOp, Meta, bare, with_meta, metadata, segment_deleted, apply,
  is_live, set_all,
}
use woodshed.State.Invariant.{apply-IsWellFormed}
use woodshed.Manifest.Replay.{Carried}
use woodshed.Scan.Segments.{Content}
use woodshed.Store.{World, append_entry}
use woodshed.Store.Truncate.{write_metadata, delete_each, delete_dead_segments}
use woodshed.Store.Logged.{logged, log_entry-logged}
use woodshed.Store.Cleanup.{after_one, delete_one_lem, deleted-apply}
use woodshed.Store.Consistent.{Recorded-same, Recorded-logged, Consistent}
use woodshed.Store.Keeps.Held.{Held-state, Held-remove}
use woodshed.Store.Keeps.Write.{active_is_live}

-- The metadata of a state is others.
abbrev pub described : StoreState → Meta → StoreState
described s pairs = record s { meta = set_all s.meta pairs }

pub described-apply :
    (s : StoreState) (pairs : Meta) → apply s (with_meta metadata pairs) ≡ ok (described s pairs)
unfolding apply State.apply_op
described-apply s pairs = refl

-- The manifest entries of a deletion.
abbrev pub deletions : List SegmentId → List ManifestOp
deletions ids = map (λ id. bare (segment_deleted id)) ids

module _ ⦃h : Hasher⦄ ⦃y : Yatlv⦄ (content : Content) where
  -- Metadata that an entry can carry are recorded in the manifest, and keep a store and its disk in
  -- agreement.
  pub write_metadata-Consistent :
      (es : List ManifestOp) (w : World) (pairs : Meta)
      → Consistent es content w
      → Carried (with_meta metadata pairs)
      → (x : World) × (write_metadata pairs w ≡ (ok tt, x))
        × Consistent (es ++ (with_meta metadata pairs ∷ [])) content x
  unfolding write_metadata append_entry
  write_metadata-Consistent es w pairs c carried =
      let s = w.store.state in
      let t = described s pairs in
      let e = with_meta metadata pairs in
      (
        logged e t w,
        log_entry-logged e t w (described-apply s pairs),
        record {
          recorded = Recorded-logged es e t w c.recorded carried (described-apply s pairs);
          held =
              Held-state s w.disk.segments content c.held t (λ j l. l) (λ j info l. l)
                (λ j d. ground arith) (λ j k. k);
          well_formed = apply-IsWellFormed s t e c.well_formed tt (described-apply s pairs);
          apart = c.apart;
          once = c.once;
          last = c.last;
          active = c.active;
          entry = c.entry;
          logs = record { file = c.logs.file; at_end = c.logs.at_end; empty = c.logs.empty };
          fenced = c.fenced;
          room = c.room;
        },
      )

  -- One dead segment is deleted.
  pub after_one-Consistent :
      (es : List ManifestOp) (w : World) (id : SegmentId) (ids : List SegmentId)
      → w.store.state.dead ≡ id ∷ ids
      → Consistent es content w
      → Carried (bare (segment_deleted id))
      → Consistent (es ++ (bare (segment_deleted id) ∷ [])) content (after_one id ids w)
  unfolding append_entry contains
  after_one-Consistent es w id ids e c carried =
      let s = w.store.state in
      let (absent, once) = subst Once e c.once in
      let not_live = (c.well_formed id).dead_apart (ground (arith, e, ==_refl id)) in
      let gone = record w { disk = record w.disk { segments = remove id w.disk.segments } } in
      record {
        recorded =
            Recorded-logged es (bare (segment_deleted id)) (record s { dead = ids }) gone
              (Recorded-same es w gone refl refl refl refl c.recorded) carried
              (deleted-apply s id ids e absent);
        held =
            Held-remove s w.disk.segments content c.held id ids not_live absent
              (λ j. ground (arith, e));
        well_formed =
            apply-IsWellFormed s (record s { dead = ids }) (bare (segment_deleted id)) c.well_formed
              tt (deleted-apply s id ids e absent);
        apart = c.apart;
        once = once;
        last = c.last;
        active = c.active;
        entry = c.entry;
        logs = record {
          file = ground (
            arith,
            c.logs.file,
            lookup-remove id w.store.active_id w.disk.segments,
            not_live,
            active_is_live es content w c,
          );
          at_end = c.logs.at_end;
          empty = c.logs.empty;
        };
        fenced = λ j k. ground (arith, c.fenced j, e, k);
        room = c.room;
      }

  delete_each-Consistent :
      (ids : List SegmentId) (n : ℕ) (es : List ManifestOp) (w : World)
      → w.store.state.dead ≡ ids
      → Consistent es content w
      → All Carried (deletions ids)
      → (x : World) × (delete_each ids n w ≡ (ok (n + length ids), x))
        × Consistent (es ++ deletions ids) content x
        × (x.store.state.dead ≡ [])
  unfolding delete_each
  delete_each-Consistent [] n es w e c carried =
      (w, ground arith, subst (λ l. Consistent l content w) (sym (append-nil es)) c, e)
  delete_each-Consistent (id ∷ ids) n es w e c (carry, carried) =
      let one = bare (segment_deleted id) in
      let (absent, _) = subst Once e c.once in
      let (x, run, agrees, none_left) =
        delete_each-Consistent ids (n + 1) (es ++ (one ∷ [])) (after_one id ids w) refl
          (after_one-Consistent es w id ids e c carry) carried in
      (
        x,
        ground (arith, delete_one_lem id ids w e absent, run),
        subst (λ l. Consistent l content x) (append_assoc es (one ∷ []) (deletions ids)) agrees,
        none_left,
      )

  -- Deleting the dead segments of a store that agrees with its disk, where an entry can carry each
  -- deletion, succeeds with their number, leaves none of them, records each deletion in the manifest,
  -- and keeps the store and the disk in agreement.
  pub delete_dead_segments-Consistent :
      (es : List ManifestOp) (w : World)
      → Consistent es content w
      → All Carried (deletions w.store.state.dead)
      → (x : World) × (delete_dead_segments w ≡ (ok (length w.store.state.dead), x))
        × Consistent (es ++ deletions w.store.state.dead) content x
        × (x.store.state.dead ≡ [])
  unfolding delete_dead_segments
  delete_dead_segments-Consistent es w c carried =
      let (x, run, agrees, none_left) =
        delete_each-Consistent w.store.state.dead 0 es w refl c carried in
      (x, run ∙ ap (λ n. (ok n, x)) (omega arith), agrees, none_left)
