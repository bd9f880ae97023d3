-- ===== src/Store/Head.antt =====
-- `truncate_start` and `delete_dead_segments` of the store (src/store.rs).
use woodshed.Base.{◌≤◌, ◌≡◌, refl, true, false, not, ◌&&◌, ◌||◌, List, ok, arith}
use woodshed.Base.Dict.{contains}
use woodshed.Hash.{Hasher}
use woodshed.Yatlv.{Yatlv}
use woodshed.Files.{Disk}
use woodshed.State.{
  StoreState, SegmentId, EntryId, Meta, with_meta, truncate_start, is_live, is_active, seal,
  set_all, kill_all, apply, apply_op, apply_truncate_start,
}
use woodshed.State.View.{is_live-kill_all, contains-kill_all}
use woodshed.State.Invariant.{IsWellFormed, apply-IsWellFormed}
use woodshed.Store.{Store, World, append_entry}
use woodshed.Index
use woodshed.Store.Truncate
use woodshed.Store.Truncate.{
  is_evicted, to_evict, advance_head, truncate_head, delete_one, delete_each, delete_dead_segments,
}
use woodshed.Store.Logged.{logged, log_entry-logged}
use woodshed.Store.Survivors.{Survivors, contains-to_evict, kill_all-Survivors}

-- The state with the head at `first`.
abbrev pub headed : StoreState → EntryId → Meta → StoreState
headed s first meta =
    let s' = kill_all s (to_evict s first s.segments) in
    record s' { first_entry = first; meta = set_all s'.meta meta }

pub headed-apply :
    (s : StoreState) (first : EntryId) (meta : Meta)
    → s.first_entry ≤ first
    → apply s (with_meta (truncate_start first (to_evict s first s.segments)) meta)
      ≡ ok (headed s first meta)
unfolding apply apply_op apply_truncate_start
headed-apply s first meta le = ground arith

pub active-kept :
    (s : StoreState) (first : EntryId) (j : SegmentId)
    → IsWellFormed s
    → is_active s.active_segment_id j ≡ true
    → contains j (to_evict s first s.segments) ≡ false
unfolding seal is_evicted
active-kept s first j w a = ground (arith, w j, contains-to_evict s first s.segments j)

pub headed-IsWellFormed :
    (s : StoreState) (first : EntryId) (meta : Meta)
    → s.first_entry ≤ first
    → IsWellFormed s
    → IsWellFormed (headed s first meta)
headed-IsWellFormed s first meta le w =
    apply-IsWellFormed s (headed s first meta) _ w (λ j. active-kept s first j w)
      (headed-apply s first meta le)

-- What moving the head to `first` leaves of the state, and of the files of the segments.
pub record Headed (s : StoreState) (d : Disk) (first : EntryId) (w : World) : Type 0 where
  pub first_entry : w.store.state.first_entry ≡ first
  pub well_formed : IsWellFormed w.store.state
  pub left : Survivors s first s.segments w.store.state.segments
  pub dead :
      (j : SegmentId)
      → contains j w.store.state.dead
        ≡ (contains j s.dead || (is_live j s.segments && not (is_live j w.store.state.segments)))
  pub files : w.disk.segments ≡ d.segments

module _ ⦃h : Hasher⦄ ⦃y : Yatlv⦄ where
  abbrev pub headed_world : Store → Disk → EntryId → Meta → World
  headed_world s d first meta =
      let evicted = to_evict s.state first s.state.segments in
      let w =
        logged (with_meta (truncate_start first evicted) meta) (headed s.state first meta)
          (record { store = s; disk = d }) in
      record {
        store = record w.store {
          segments = Truncate.close_all evicted w.store.segments;
          index = Index.truncate_start w.store.index first;
        };
        disk = w.disk;
      }

  pub truncate_head_lem :
      (s : Store) (d : Disk) (first : EntryId) (meta : Meta)
      → s.state.first_entry ≤ first
      → truncate_head first meta (record { store = s; disk = d })
        ≡ (ok tt, headed_world s d first meta)
  unfolding truncate_head advance_head
  truncate_head_lem s d first meta le = ground (
    arith,
    log_entry-logged
        (with_meta (truncate_start first (to_evict s.state first s.state.segments)) meta)
        (headed s.state first meta) (record { store = s; disk = d })
        (headed-apply s.state first meta le),
  )

  -- Moving the head of a store with a well-formed state to an entry that is not before the present one
  -- succeeds: the state is well-formed, the segments are those of before without just the ones whose
  -- seal has a last entry before the new head, the dead ones are those of before and the live ones
  -- that are not live any more, and no segment's file changes.
  pub truncate_head-Headed :
      (s : Store) (d : Disk) (first : EntryId) (meta : Meta)
      → IsWellFormed s.state
      → s.state.first_entry ≤ first
      → (w : World) × (truncate_head first meta (record { store = s; disk = d }) ≡ (ok tt, w))
        × Headed s.state d first w
  truncate_head-Headed s d first meta wf le = (
    headed_world s d first meta,
    truncate_head_lem s d first meta le,
    record {
      first_entry = refl;
      well_formed = headed-IsWellFormed s.state first meta le wf;
      left = kill_all-Survivors s.state first;
      dead = λ j. ground (
        arith,
        is_live-kill_all j s.state evicted,
        contains-kill_all j s.state evicted,
        contains-to_evict s.state first s.state.segments j,
      );
      files = unfold append_entry in refl;
    },
  )
    where
      evicted : List SegmentId
      evicted = to_evict s.state first s.state.segments
