-- ===== src/Store/Rollover.antt =====
-- `do_rollover` of the store (src/store.rs).
use woodshed.Base.{◌%◌, ◌^◌, ◌≡◌, ◌≢◌, refl, true, false, [], ◌∷◌, ◌++◌, none, some, ok, arith}
use woodshed.Base.Dict.{lookup, insert, contains, lookup-insert}
use woodshed.Hash.{Hasher}
use woodshed.Yatlv.{Yatlv}
use woodshed.Files
use woodshed.Files.{Disk, magic_len, segment_magic}
use woodshed.Frame.Cursor.{set_position}
use woodshed.State
use woodshed.State.{
  StoreState, SegmentEntry, SealInfo, SegmentId, EntryId, ManifestOp, bare, roll_segment, is_live,
  is_active, seal, apply, apply_op, apply_roll,
}
use woodshed.State.Invariant.{IsWellFormed, apply-IsWellFormed}
use woodshed.Store.{Store, World, last_or, roll_entry, enter_segment, do_rollover, append_entry}
use woodshed.Store.Logged.{logged, log_entry-logged}

-- The next id is new to the state and to the disk, and the active segment is the state's.
pub record CanRoll (s : Store) (d : Disk) : Type 0 where
  pub there : d.exists ≡ true
  pub free : lookup s.next_seg_id d.segments ≡ none
  pub not_live : is_live s.next_seg_id s.state.segments ≡ false
  pub not_dead : contains s.next_seg_id s.state.dead ≡ false
  pub active : s.state.active_segment_id ≡ some s.active_id

module _ ⦃h : Hasher⦄ ⦃y : Yatlv⦄ where
  -- The seal of the active segment.
  abbrev pub seal_info : Store → SealInfo
  seal_info s = record {
    first_entry = s.active_first_entry;
    last_entry = last_or s.last_entry_id s.active_first_entry;
    entry_count = s.active_entry_count % 2 ^ 32;
    final_size = s.active_cursor.position;
  }

  abbrev pub sealed : Store → EntryId → StoreState
  sealed s first = record s.state {
    seals = insert s.active_id (seal_info s) s.state.seals;
    segments = s.state.segments ++ (record { id = s.next_seg_id; first_entry = first } ∷ []);
    active_segment_id = some s.next_seg_id;
  }

  -- What a rollover leaves.
  pub record RolledOver (s : Store) (d : Disk) (first : EntryId) (w : World) : Type 0 where
    pub state : w.store.state ≡ sealed s first
    pub well_formed : IsWellFormed w.store.state
    pub active : w.store.active_id ≡ s.next_seg_id
    pub first_entry : w.store.active_first_entry ≡ first
    pub count : w.store.active_entry_count ≡ 0
    pub waiting : w.store.active_cursor ≡ set_position s.active_cursor magic_len
    pub fresh : lookup s.next_seg_id w.disk.segments ≡ some segment_magic
    pub others :
        (j : SegmentId) → j ≢ s.next_seg_id → lookup j w.disk.segments ≡ lookup j d.segments

  module _ (s : Store) (d : Disk) (first : EntryId) (can : CanRoll s d) where
    abbrev pub made : Disk
    made = record d { segments = insert s.next_seg_id segment_magic d.segments }

    abbrev pub rolled_world : World
    rolled_world =
        let w = logged (roll_entry s first) (sealed s first) (record { store = s; disk = made }) in
        record { store = enter_segment s.next_seg_id first w.store; disk = w.disk }

    pub sealed-apply : apply s.state (roll_entry s first) ≡ ok (sealed s first)
    unfolding apply apply_op apply_roll roll_entry is_active State.set_all
    sealed-apply = ground (arith, can.active)

    pub do_rollover_lem : do_rollover first (record { store = s; disk = d }) ≡ (ok tt, rolled_world)
    unfolding do_rollover Files.create_segment
    do_rollover_lem = ground (
      arith,
      can.there,
      can.free,
      log_entry-logged (roll_entry s first) (sealed s first) (record { store = s; disk = made })
          sealed-apply,
    )

    pub sealed-IsWellFormed : IsWellFormed s.state → IsWellFormed (sealed s first)
    sealed-IsWellFormed wf =
        apply-IsWellFormed s.state (sealed s first) (roll_entry s first) wf
          (unfold roll_entry in (can.not_live, can.not_dead)) sealed-apply

    pub rolled_world-RolledOver : IsWellFormed s.state → RolledOver s d first rolled_world
    unfolding enter_segment append_entry insert lookup
    rolled_world-RolledOver wf = record {
      state = refl;
      well_formed = sealed-IsWellFormed wf;
      active = refl;
      first_entry = refl;
      count = refl;
      waiting = refl;
      fresh = ground arith;
      others = λ j ne. ground (arith, lookup-insert s.next_seg_id j segment_magic d.segments);
    }

  -- Where the next id is free and the active segment is the state's, a rollover of a well-formed store
  -- succeeds: the active segment is sealed with its first and last entry and the position of its
  -- cursor, the next segment is an empty file and active, the frames that wait stay for it, the state
  -- is well-formed, and no other segment's file changes.
  pub do_rollover-RolledOver :
      (s : Store) (d : Disk) (first : EntryId)
      → CanRoll s d
      → IsWellFormed s.state
      → (w : World) × (do_rollover first (record { store = s; disk = d }) ≡ (ok tt, w))
        × RolledOver s d first w
  do_rollover-RolledOver s d first can wf = (
    rolled_world s d first can,
    do_rollover_lem s d first can,
    rolled_world-RolledOver s d first can wf,
  )
