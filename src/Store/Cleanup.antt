-- ===== src/Store/Cleanup.antt =====
-- `delete_dead_segments` of the store (src/store.rs).
use woodshed.Base.{
  ℕ, ◌+◌, ◌≡◌, refl, ap, ◌∙◌, false, List, [], ◌∷◌, length, none, ok, arith, if◌then◌else◌,
}
use woodshed.Base.Dict.{lookup, remove, contains, erase, Once, lookup-remove}
use woodshed.Hash.{Hasher}
use woodshed.Yatlv.{Yatlv}
use woodshed.Files
use woodshed.Files.{Disk}
use woodshed.State
use woodshed.State.{StoreState, SegmentId, bare, segment_deleted, apply, apply_op, apply_deleted}
use woodshed.Store.{World, append_entry}
use woodshed.Store.Truncate.{delete_one, delete_each, delete_dead_segments}
use woodshed.Store.Logged.{logged, log_entry-logged}

erase_absent :
    (id : SegmentId) (ids : List SegmentId) → contains id ids ≡ false → erase id ids ≡ ids
unfolding erase contains
erase_absent id [] h = refl
erase_absent id (i ∷ ids) h = ground (arith, erase_absent id ids)

pub deleted-apply :
    (s : StoreState) (id : SegmentId) (ids : List SegmentId)
    → s.dead ≡ id ∷ ids
    → contains id ids ≡ false
    → apply s (bare (segment_deleted id)) ≡ ok (record s { dead = ids })
unfolding apply apply_op apply_deleted State.set_all contains erase
deleted-apply s id ids e h = ground (arith, erase_absent id ids)

-- What the deletion of the segments `ids` leaves of the world `w`.
pub record Cleaned (ids : List SegmentId) (w x : World) : Type 0 where
  pub state : x.store.state ≡ record w.store.state { dead = [] }
  pub last : x.store.last_entry_id ≡ w.store.last_entry_id
  pub files :
      (j : SegmentId)
      → lookup j x.disk.segments ≡ (if contains j ids then none else lookup j w.disk.segments)

module _ ⦃h : Hasher⦄ ⦃y : Yatlv⦄ where
  abbrev pub after_one : SegmentId → List SegmentId → World → World
  after_one id ids w =
      logged (bare (segment_deleted id)) (record w.store.state { dead = ids })
        (record w { disk = record w.disk { segments = remove id w.disk.segments } })

  pub delete_one_lem :
      (id : SegmentId) (ids : List SegmentId) (w : World)
      → w.store.state.dead ≡ id ∷ ids
      → contains id ids ≡ false
      → delete_one id w ≡ (ok tt, after_one id ids w)
  unfolding delete_one Files.delete_segment
  delete_one_lem id ids w e h = ground (
    arith,
    log_entry-logged (bare (segment_deleted id)) (record w.store.state { dead = ids })
        (record w { disk = record w.disk { segments = remove id w.disk.segments } })
        (deleted-apply w.store.state id ids e h),
  )

  after_one_files :
      (id : SegmentId) (ids : List SegmentId) (w : World)
      → (after_one id ids w).disk.segments ≡ remove id w.disk.segments
  unfolding append_entry
  after_one_files id ids w = refl

  after_one_last :
      (id : SegmentId) (ids : List SegmentId) (w : World)
      → (after_one id ids w).store.last_entry_id ≡ w.store.last_entry_id
  unfolding append_entry
  after_one_last id ids w = refl

  delete_each-Cleaned :
      (ids : List SegmentId) (n : ℕ) (w : World)
      → w.store.state.dead ≡ ids
      → Once ids
      → (x : World) × (delete_each ids n w ≡ (ok (n + length ids), x)) × Cleaned ids w x
  unfolding delete_each contains
  delete_each-Cleaned [] n w e o = (
    w,
    ground arith,
    record {
      state = ap (λ l. record w.store.state { dead = l }) e;
      last = refl;
      files = λ j. refl;
    },
  )
  delete_each-Cleaned (id ∷ ids) n w e (o, os) =
      let (x, run, clean) = delete_each-Cleaned ids (n + 1) (after_one id ids w) refl os in
      (
        x,
        ground (arith, delete_one_lem id ids w e o, run),
        record {
          state = clean.state;
          last = clean.last ∙ after_one_last id ids w;
          files = λ j.
              clean.files j
              ∙ ground (arith, after_one_files id ids w, lookup-remove id j w.disk.segments);
        },
      )

  -- Deleting the dead segments, where none is listed twice, succeeds with their number: the state has
  -- no dead segment any more and is as it was otherwise, the last entry id stays, the files of those segments are gone, and
  -- every other file is as it was.
  pub delete_dead_segments-Cleaned :
      (w : World)
      → Once w.store.state.dead
      → (x : World) × (delete_dead_segments w ≡ (ok (length w.store.state.dead), x))
        × Cleaned w.store.state.dead w x
  unfolding delete_dead_segments
  delete_dead_segments-Cleaned w o =
      let (x, run, clean) = delete_each-Cleaned w.store.state.dead 0 w refl o in
      (x, run ∙ ap (λ n. (ok n, x)) (omega arith), clean)
