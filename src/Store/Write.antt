-- ===== src/Store/Write.antt =====
-- Writing batches of entries (`StoreWriter` and `Commit` of src/store.rs). Metrics are not modelled.
use woodshed.Base.{
  ℕ, ◌+◌, true, false, List, [], ◌∷◌, Option, none, some, Result, ok, ltb, ◌==◌, if◌then◌else◌,
}
use woodshed.Base.Dict.{contains, add}
use woodshed.Hash.{Hasher}
use woodshed.Yatlv.{Yatlv}
use woodshed.Frame.Cursor.{write, flush}
use woodshed.Files.{Disk, segment_bytes, open_segment, put_segment}
use woodshed.State.{SegmentId, EntryId}
use woodshed.Store.{
  Store, World, Act, ◌>>=◌, ◌>>◌, io_of, on_disk, modify, do_rollover, panic, Failure,
}

-- The writer borrows the store: it carries the store that it changes.
pub record StoreWriter : Type 0 where
  pub store : Store
  pub first_id : Option EntryId
  pub last_id : Option EntryId
  pub count : ℕ

-- `Store::writer`
abbrev pub writer : Store → StoreWriter
writer s = record { store = s; first_id = none; last_id = none; count = 0 }

-- The file that `Commit::sync` syncs, if any.
pub data Commit : Type 0 where
  commit : Option SegmentId → Commit

abbrev pub first_of_two : Option EntryId → EntryId → Option EntryId
first_of_two none id = some id
first_of_two (some first) id = some first

module _ ⦃h : Hasher⦄ where
  -- `StoreWriter::push`
  unfoldable pub push : StoreWriter → EntryId → List ℕ → StoreWriter
  unfolding write
  push w id payload = record {
    store = record w.store { active_cursor = write w.store.active_cursor id payload };
    first_id = first_of_two w.first_id id;
    last_id = some id;
    count = w.count + 1;
  }

  unfoldable pub push_all : StoreWriter → List (EntryId × List ℕ) → StoreWriter
  unfolding push
  push_all w [] = w
  push_all w ((id, payload) ∷ entries) = push_all (push w id payload) entries

-- The handle of the active segment, opened where none is kept.
unfoldable pub open_active : Act (Unit {0})
unfolding contains add open_segment
open_active w =
    if contains w.store.active_id w.store.segments
    then (ok tt, w)
    else (do
      _ ← io_of (open_segment w.disk w.store.active_id)
      modify λ s. record s { segments = add s.active_id s.segments })
        w

-- The frames that wait go to the active segment's file.
unfoldable pub flush_active : Act (Unit {0})
unfolding flush put_segment
flush_active w =
    let (content, cursor) = flush w.store.active_cursor (segment_bytes w.disk w.store.active_id) in
    (do
      on_disk (put_segment w.store.active_id content)
      modify λ s. record s { active_cursor = cursor })
      w

-- The last id, the count, and whether the segment has passed the threshold.
unfoldable pub count_batch : EntryId → ℕ → Store → Store
count_batch last count s = record s {
  last_entry_id = some last;
  active_entry_count = s.active_entry_count + count;
  rollover_pending =
      if ltb s.rollover_trigger_bytes s.active_cursor.position then true else s.rollover_pending;
}

module _ ⦃h : Hasher⦄ ⦃y : Yatlv⦄ where
  -- A rollover that the last write put off.
  unfoldable pub roll_if_pending : EntryId → Act (Unit {0})
  unfolding do_rollover
  roll_if_pending first w =
      if w.store.rollover_pending
      then (do do_rollover first; modify λ s. record s { rollover_pending = false }) w
      else (ok tt, w)

  unfoldable pub write_batch : EntryId → EntryId → ℕ → Act Commit
  unfolding roll_if_pending open_active flush_active count_batch
  write_batch first last count = do
    roll_if_pending first
    open_active
    flush_active
    modify (count_batch last count)
    λ w. (ok (commit (some w.store.active_id)), w)

  -- The ids of a batch that has some.
  unfoldable pub write_ids : Option EntryId → Option EntryId → ℕ → Act Commit
  unfolding write_batch
  write_ids (some first) (some last) count = write_batch first last count
  write_ids _ _ count = panic

  -- `StoreWriter::write`
  unfoldable pub write_entries : StoreWriter → Disk → Result Failure Commit × World
  unfolding write_ids
  write_entries w d =
      let world : World = record { store = w.store; disk = d } in
      if w.count == 0
      then (ok (commit none), world)
      else write_ids w.first_id w.last_id w.count world
