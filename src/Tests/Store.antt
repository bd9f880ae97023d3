-- ===== src/Tests/Store.antt =====
-- The store at concrete inputs.
use woodshed.Base.{◌≡◌, refl, true, false, List, [], ◌∷◌, ◌++◌, none, some, ok, arith}
use woodshed.Base.Dict.{lookup, contains}
use woodshed.Tests.Codec.{sum_hasher, plain_codec}
use woodshed.Files.{Disk, magic_len, segment_magic}
use woodshed.Frame.Cursor
use woodshed.Frame.Frames.{Frame, frames_bytes}
use woodshed.Index
use woodshed.State
use woodshed.State.{StoreState, SegmentEntry, is_live}
use woodshed.State.Invariant.{IsWellFormed}
use woodshed.Store.{Store, World, do_rollover}
use woodshed.Store.Write.{commit, writer, push_all, write_entries}
use woodshed.Store.Truncate.{
  tail_split, start_offset, truncate_head, truncate_tail, delete_dead_segments,
}
use woodshed.Store.Read.{Item, next}
use woodshed.Store.Batch.{Logs, Appended, write_entries-Appended}
use woodshed.Store.Rollback
use woodshed.Store.Rollback.{RolledBack, reported, truncate_tail-RolledBack, truncate_tail-Logs}
use woodshed.Store.RollWrite.{Moved, write_entries-Moved}
use woodshed.Store.Rollover.{CanRoll, RolledOver, do_rollover-RolledOver}
use woodshed.Store.Head.{Headed, truncate_head-Headed}
use woodshed.Store.Cleanup.{Cleaned, delete_dead_segments-Cleaned}
use woodshed.Store.Reader.{next-ends}

-- Two entries in the only segment.
abbrev entries : List Frame
entries = (1, b'a' ∷ []) ∷ (2, b'b' ∷ []) ∷ []

abbrev one_segment : StoreState
one_segment = record {
  segments = record { id = 1; first_entry = 0 } ∷ [];
  seals = [];
  active_segment_id = some 1;
  dead = 7 ∷ [];
  first_entry = 0;
  meta = [];
}

abbrev store : Store
store = record {
  rollover_trigger_bytes = 100;
  state = one_segment;
  index = Index.new;
  manifest_cursor = Cursor.new 40;
  segments = [];
  active_id = 1;
  active_cursor = Cursor.new 50;
  active_first_entry = 0;
  active_entry_count = 2;
  last_entry_id = some 2;
  next_seg_id = 8;
  rollover_pending = false;
}

abbrev disk : Disk
disk = record {
  exists = true;
  manifest = some [];
  segments = (1, segment_magic ++ frames_bytes entries) ∷ (7, segment_magic) ∷ [];
}

abbrev world : World
world = record { store = store; disk = disk }

store-Logs : Logs store disk entries
unfolding lookup
store-Logs = record { file = refl; at_end = refl; empty = refl }

one_segment-IsWellFormed : IsWellFormed one_segment
unfolding is_live State.is_active lookup contains
one_segment-IsWellFormed j = ground arith

write_entries-Appended_example :
    (w : World) × (write_entries (push_all (writer store) ((3, b'c' ∷ []) ∷ [])) disk
      ≡ (ok (commit (some 1)), w))
    × Appended store disk entries store-Logs ((3, b'c' ∷ []) ∷ []) w
write_entries-Appended_example =
    write_entries-Appended store disk entries store-Logs (3, b'c' ∷ []) [] refl

-- The segment's file as the entry 1 and what stands behind it.
rollback_file :
    lookup 1 disk.segments
    ≡ some (Rollback.segment_file store disk 1 1 (b'a' ∷ []) [] ((2, b'b' ∷ []) ∷ []))
unfolding lookup frames_bytes
rollback_file = refl

rollback_split : tail_split one_segment.segments 1 ≡ some (1, [])
unfolding tail_split
rollback_split = refl

rollback_start : start_offset store.index 1 1 ≡ magic_len
unfolding start_offset Index.find
rollback_start = refl

truncate_tail-RolledBack_example :
    (w : World) × (truncate_tail 1 world ≡ (ok tt, w))
    × RolledBack store disk 1 2 1 []
        (b'a' ∷ [])
        []
        ((2, b'b' ∷ []) ∷ [])
        (reported store disk 1 1 (b'a' ∷ []) [] ((2, b'b' ∷ []) ∷ []))
        w
truncate_tail-RolledBack_example =
    truncate_tail-RolledBack store disk 1 2 1 [] (b'a' ∷ []) [] ((2, b'b' ∷ []) ∷ []) refl
      (omega arith) rollback_split tt tt (omega arith, omega arith) rollback_file

truncate_tail-Logs_example :
    (w : World) × (truncate_tail 1 world ≡ (ok tt, w))
    × Logs w.store w.disk ([] ++ ((1, b'a' ∷ []) ∷ []))
truncate_tail-Logs_example =
    truncate_tail-Logs store disk 1 2 1 [] (b'a' ∷ []) [] ((2, b'b' ∷ []) ∷ []) refl (omega arith)
      rollback_split tt tt (omega arith, omega arith) rollback_file rollback_start

store-CanRoll : CanRoll store disk
unfolding lookup is_live contains
store-CanRoll = record {
  there = refl;
  free = refl;
  not_live = refl;
  not_dead = refl;
  active = refl;
}

do_rollover-RolledOver_example :
    (w : World) × (do_rollover 3 world ≡ (ok tt, w)) × RolledOver store disk 3 w
do_rollover-RolledOver_example =
    do_rollover-RolledOver store disk 3 store-CanRoll one_segment-IsWellFormed

-- Of the sealed segments 3 and 5 the first goes where the head moves to 4.
abbrev three_segments : StoreState
three_segments = record one_segment {
  segments =
      record { id = 3; first_entry = 1 }
      ∷ record { id = 5; first_entry = 4 }
      ∷ record { id = 6; first_entry = 6 }
      ∷ [];
  seals =
      (3, record { first_entry = 1; last_entry = 3; entry_count = 3; final_size = 71 })
      ∷ (5, record { first_entry = 4; last_entry = 4; entry_count = 1; final_size = 29 })
      ∷ [];
  active_segment_id = some 6;
}

three_segments-IsWellFormed : IsWellFormed three_segments
unfolding is_live State.is_active lookup contains
three_segments-IsWellFormed j = ground arith

truncate_head-Headed_example :
    (w : World) × (truncate_head 4 []
        (record { store = record store { state = three_segments }; disk = disk })
      ≡ (ok tt, w))
    × Headed three_segments disk 4 w
truncate_head-Headed_example =
    truncate_head-Headed (record store { state = three_segments }) disk 4 []
      three_segments-IsWellFormed (omega arith)

segments_after_head :
    (truncate_head 4 [] (record {
      store = record store { state = three_segments };
      disk = disk;
    })).1.store.state.segments
    ≡ record { id = 5; first_entry = 4 } ∷ record { id = 6; first_entry = 6 } ∷ []
unfolding truncate_head
segments_after_head = refl

dead_once : contains 7 [] ≡ false
unfolding contains
dead_once = refl

delete_dead_segments-Cleaned_example :
    (w : World) × (delete_dead_segments world ≡ (ok 1, w)) × Cleaned (7 ∷ []) world w
delete_dead_segments-Cleaned_example = delete_dead_segments-Cleaned world (dead_once, tt)

alone : is_live 1 [] ≡ false
unfolding is_live
alone = refl

next-ends_example :
    (item : Item) × (next disk one_segment
        (record { scanner = some (1, record { reader = []; position = 50; peeked = none }) })
      ≡ some item)
next-ends_example =
    next-ends disk one_segment
      (record { scanner = some (1, record { reader = []; position = 50; peeked = none }) })
      (alone, tt)

abbrev full_store : Store
full_store = record store { rollover_pending = true }

full_store-Logs : Logs full_store disk entries
unfolding lookup
full_store-Logs = record { file = refl; at_end = refl; empty = refl }

full_store-CanRoll : CanRoll full_store disk
unfolding lookup is_live contains
full_store-CanRoll = record {
  there = refl;
  free = refl;
  not_live = refl;
  not_dead = refl;
  active = refl;
}

write_entries-Moved_example :
    (w : World) × (write_entries (push_all (writer full_store) ((3, b'c' ∷ []) ∷ [])) disk
      ≡ (ok (commit (some w.store.active_id)), w))
    × Moved full_store disk entries full_store-Logs 3 full_store-CanRoll one_segment-IsWellFormed
        ((3, b'c' ∷ []) ∷ [])
        w
write_entries-Moved_example =
    write_entries-Moved full_store disk entries full_store-Logs (3, b'c' ∷ []) [] full_store-CanRoll
      one_segment-IsWellFormed refl
