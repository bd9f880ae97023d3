-- ===== src/Store/Truncate.antt =====
-- Truncation, deletion of dead segments and metadata (src/store.rs).
use woodshed.Base.{
  ℕ, ◌+◌, ◌-◌, Bool, true, false, List, [], ◌∷◌, Option, none, some, ok, err, get_elem?, drop, map,
  leb, ltb, ◌==◌, if◌then◌else◌,
}
use woodshed.Base.Dict.{erase}
use woodshed.Hash.{Hasher}
use woodshed.Yatlv.{Yatlv}
use woodshed.File.{set_len}
use woodshed.Index
use woodshed.Index.{EntryIndex, IndexPosition, partition_point}
use woodshed.Frame.Cursor
use woodshed.Frame.Scanner
use woodshed.Frame.Scanner.{FrameScanner, ScanError, scan_to_after}
use woodshed.Files.{
  invalid_input, invalid_data, magic_len, open_segment, put_segment, delete_segment,
}
use woodshed.State.{
  StoreState, SegmentEntry, SealInfo, SegmentId, EntryId, Meta, bare, with_meta, truncate_start,
  truncate_end, segment_deleted, metadata, seal, find_segment,
}
use woodshed.Store.{Store, Act, ◌>>=◌, ◌>>◌, pure, fail, panic, io_of, on_disk, modify, log_entry}

-- A sealed segment whose last entry is before `first_entry`.
unfoldable pub is_evicted : EntryId → Option SealInfo → Bool
is_evicted first_entry none = false
is_evicted first_entry (some info) = ltb info.last_entry first_entry

unfoldable pub to_evict : StoreState → EntryId → List SegmentEntry → List SegmentId
unfolding is_evicted seal
to_evict state first_entry [] = []
to_evict state first_entry (e ∷ es) =
    let rest = to_evict state first_entry es in
    if is_evicted first_entry (seal state e.id) then e.id ∷ rest else rest

unfoldable pub close_all : List SegmentId → List SegmentId → List SegmentId
unfolding erase
close_all [] handles = handles
close_all (id ∷ ids) handles = close_all ids (erase id handles)

-- `Store::truncate_start`
module _ ⦃h : Hasher⦄ ⦃y : Yatlv⦄ where
  unfoldable pub advance_head : EntryId → Meta → List SegmentId → Act (Unit {0})
  unfolding log_entry close_all Index.truncate_start
  advance_head first_entry meta evicted = do
    log_entry (with_meta (truncate_start first_entry evicted) meta)
    modify λ s. record s {
      segments = close_all evicted s.segments;
      index = Index.truncate_start s.index first_entry;
    }

  unfoldable pub truncate_head : EntryId → Meta → Act (Unit {0})
  unfolding advance_head to_evict
  truncate_head first_entry meta w =
      if ltb first_entry w.store.state.first_entry
      then fail invalid_input w
      else advance_head first_entry meta (to_evict w.store.state first_entry w.store.state.segments)
          w

-- The segment that holds `last_valid`, by the first entries, and those behind it.
unfoldable pub tail_split : List SegmentEntry → EntryId → Option (SegmentId × List SegmentId)
unfolding partition_point
tail_split segs last_valid =
    let p = partition_point (λ s. leb s.first_entry last_valid) segs in
    elim (get_elem? segs (p - 1)) [
      | none ↦ none
      | some e ↦ some (e.id, map (λ s. s.id) (drop (p - 1 + 1) segs))
    ]

-- The offset of the nearest checkpoint in that segment.
unfoldable pub start_offset : EntryIndex → EntryId → SegmentId → ℕ
unfolding Index.find
start_offset index last_valid target_id = elim (Index.find index last_valid) [
  | none ↦ magic_len
  | some pos ↦ if pos.segment == target_id then pos.byte_offset else magic_len
]

abbrev pub found_offset : Scanner.Run ℕ → Act ℕ
found_offset none = fail invalid_data
found_offset (some (err _, s)) = fail invalid_data
found_offset (some (ok offset, s)) = pure offset

-- The end of the entry `last_valid` in the segment's file, as the scan reports it.
unfoldable pub cut_offset : EntryId → SegmentId → Act ℕ
unfolding open_segment start_offset Scanner.new scan_to_after
cut_offset last_valid target_id w =
    (do
      (file, _) ← io_of (open_segment w.disk target_id)
      found_offset (
          scan_to_after last_valid
            (Scanner.new file (start_offset w.store.index last_valid target_id))))
      w

-- The file is cut on the disk.
unfoldable pub cut_file : SegmentId → ℕ → Act (Unit {0})
unfolding open_segment set_len put_segment
cut_file target_id byte_offset w =
    (do
      (file, _) ← io_of (open_segment w.disk target_id)
      on_disk (put_segment target_id (set_len file.content byte_offset)))
      w

abbrev pub entry_or_zero : Option SegmentEntry → EntryId
entry_or_zero none = 0
entry_or_zero (some e) = e.first_entry

abbrev pub first_entry_of : Option SealInfo → Option SegmentEntry → EntryId
first_entry_of (some info) e = info.first_entry
first_entry_of none e = entry_or_zero e

-- The segment is active again.
unfoldable pub reactivate : EntryId → SegmentId → ℕ → List SegmentId → Store → Store
unfolding close_all Index.truncate_end seal find_segment
reactivate last_valid target_id byte_offset dropped s = record s {
  segments = erase target_id (close_all dropped s.segments);
  active_id = target_id;
  active_cursor = Cursor.new byte_offset;
  last_entry_id = some last_valid;
  rollover_pending = false;
  index = Index.truncate_end s.index last_valid;
  active_first_entry =
      first_entry_of (seal s.state target_id) (find_segment target_id s.state.segments);
  active_entry_count = 0;
}

-- `self.last_entry_id.is_none_or(|last| last_valid >= last)`
abbrev pub nothing_behind : Option EntryId → EntryId → Bool
nothing_behind none last_valid = true
nothing_behind (some last) last_valid = leb last last_valid

module _ ⦃h : Hasher⦄ ⦃y : Yatlv⦄ where
  unfoldable pub roll_back : EntryId → Option (SegmentId × List SegmentId) → Act (Unit {0})
  unfolding cut_offset cut_file log_entry reactivate
  roll_back last_valid none = panic
  roll_back last_valid (some (target_id, dropped)) = do
    byte_offset ← cut_offset last_valid target_id
    cut_file target_id byte_offset
    log_entry (bare (truncate_end target_id byte_offset dropped))
    modify (reactivate last_valid target_id byte_offset dropped)

  -- `Store::truncate_end`
  unfoldable pub truncate_tail : EntryId → Act (Unit {0})
  unfolding roll_back tail_split
  truncate_tail last_valid w =
      if nothing_behind w.store.last_entry_id last_valid
      then (ok tt, w)
      else roll_back last_valid (tail_split w.store.state.segments last_valid) w

  unfoldable pub delete_one : SegmentId → Act (Unit {0})
  unfolding delete_segment log_entry
  delete_one id = do on_disk (delete_segment id); log_entry (bare (segment_deleted id))

  unfoldable pub delete_each : List SegmentId → ℕ → Act ℕ
  unfolding delete_one
  delete_each [] deleted = pure deleted
  delete_each (id ∷ ids) deleted = do delete_one id; delete_each ids (deleted + 1)

  -- `Store::delete_dead_segments`
  unfoldable pub delete_dead_segments : Act ℕ
  unfolding delete_each
  delete_dead_segments w = delete_each w.store.state.dead 0 w

  -- `Store::write_metadata`
  unfoldable pub write_metadata : Meta → Act (Unit {0})
  unfolding log_entry
  write_metadata pairs = log_entry (with_meta metadata pairs)
