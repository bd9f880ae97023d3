-- ===== src/Store.antt =====
-- src/store.rs: the store over its directory. This file has the state, the entries of the manifest and
-- the rollover; the children have the methods by their parts.
pub mod Write
pub mod Truncate
pub mod Open
pub mod Read
pub mod Batch
pub mod Reader
pub mod Order
pub mod Consistent
pub mod Reopen
pub mod Create
pub mod Keeps
pub mod Log
pub mod Drain
pub mod ScanFrom
pub mod ReadBack
pub mod Torn
pub mod Crash
pub mod Lost
pub mod Missing
pub mod Rising
pub mod Indexed
pub mod Locate
pub mod ScanExact
pub mod Sought
pub mod Calls
pub mod Refines
pub mod Logged
pub mod Tail
pub mod Rollback
pub mod Cleanup
pub mod Rollover
pub mod RollWrite
pub mod Survivors
pub mod Tracked
pub mod Head
use woodshed.Base.{
  ℕ, ◌+◌, ◌^◌, ◌%◌, Bool, true, false, List, [], ◌∷◌, Option, none, some, Result, ok, err, length,
  ltb, ◌==◌, if◌then◌else◌,
}
use woodshed.Hash.{Hasher}
use woodshed.Yatlv.{Yatlv}
use woodshed.Index.{EntryIndex}
use woodshed.Frame.Cursor.{FrameCursor, write, flush, set_position}
use woodshed.Files
use woodshed.Files.{Disk, IoError, Io, magic_len, manifest_bytes, create_segment}
use woodshed.State.{StoreState, SegmentId, EntryId, ManifestOp, bare, roll_segment, apply}
use woodshed.State.Codec.{encode}

-- `segments` are the ids for which a file handle is kept open.
pub record Store : Type 0 where
  pub rollover_trigger_bytes : ℕ
  pub state : StoreState
  pub index : EntryIndex
  pub manifest_cursor : FrameCursor
  pub segments : List SegmentId
  pub active_id : SegmentId
  pub active_cursor : FrameCursor
  pub active_first_entry : EntryId
  pub active_entry_count : ℕ
  pub last_entry_id : Option EntryId
  pub next_seg_id : SegmentId
  pub rollover_pending : Bool

-- An I/O error that the method returns, or a panic by `expect` or an index out of range.
pub data Failure : Type 0 where
  io : IoError → Failure
  panicked : Failure

-- A method works on the store and the disk, and what it changed before it failed stays changed.
pub record World : Type 0 where
  pub store : Store
  pub disk : Disk

abbrev pub Act : Type 0 → Type 0
Act A = World → Result Failure A × World

abbrev pub and_then :
    {A B : Type 0} → Result Failure A × World → (A → Act B) → Result Failure B × World
and_then (ok a, w) f = f a w
and_then (err e, w) f = (err e, w)

infixl 5 ◌>>=◌ ◌>>◌
abbrev pub ◌>>=◌ : {A B : Type 0} → Act A → (A → Act B) → Act B
◌>>=◌ m f w = and_then (m w) f

abbrev pub ◌>>◌ : {B : Type 0} → Act (Unit {0}) → Act B → Act B
m >> k = m >>= λ _. k

abbrev pub pure : {A : Type 0} → A → Act A
pure a w = (ok a, w)

abbrev pub fail : {A : Type 0} → IoError → Act A
fail e w = (err (io e), w)

abbrev pub panic : {A : Type 0} → Act A
panic w = (err panicked, w)

abbrev pub modify : (Store → Store) → Act (Unit {0})
modify f w = (ok tt, record w { store = f w.store })

abbrev pub io_of : {A : Type 0} → Result IoError A → Act A
io_of (ok a) w = (ok a, w)
io_of (err e) w = (err (io e), w)

abbrev pub on_disk : {A : Type 0} → Io IoError A → Act A
on_disk m w = let (r, d) = m w.disk in io_of r (record w { disk = d })

-- `u32` addition of one, as it wraps.
abbrev pub next_id : SegmentId → SegmentId
next_id id = (id + 1) % 2 ^ 32

-- `expect` of the state's `apply`
unfoldable pub apply_entry : ManifestOp → Act (Unit {0})
unfolding apply
apply_entry entry w = elim (apply w.store.state entry) [
  | ok state ↦ (ok tt, record w { store = record w.store { state = state } })
  | err _ ↦ (err panicked, w)
]

module _ ⦃h : Hasher⦄ ⦃y : Yatlv⦄ where
  -- `manifest_cursor.write`, `manifest_cursor.flush` and `sync_all`
  unfoldable pub append_entry : ManifestOp → Act (Unit {0})
  unfolding write flush
  append_entry entry w =
      let (content, cursor) =
        flush (write w.store.manifest_cursor 0 (encode entry)) (manifest_bytes w.disk) in
      (
        ok tt,
        record {
          store = record w.store { manifest_cursor = cursor };
          disk = record w.disk { manifest = some content };
        },
      )

  -- The entry goes to the manifest first, and then to the state.
  unfoldable pub log_entry : ManifestOp → Act (Unit {0})
  unfolding append_entry apply_entry
  log_entry entry = do append_entry entry; apply_entry entry

  abbrev pub last_or : Option EntryId → EntryId → EntryId
  last_or none first = first
  last_or (some last) first = last

  -- The operation that a rollover writes.
  unfoldable pub roll_entry : Store → EntryId → ManifestOp
  roll_entry s new_first_entry = bare (
      roll_segment s.active_id s.active_first_entry (last_or s.last_entry_id s.active_first_entry)
        (s.active_entry_count % 2 ^ 32) s.active_cursor.position s.next_seg_id new_first_entry)

  -- The frames that wait in the active cursor stay there.
  unfoldable pub enter_segment : SegmentId → EntryId → Store → Store
  enter_segment new_id new_first_entry s = record s {
    next_seg_id = next_id new_id;
    active_id = new_id;
    active_cursor = set_position s.active_cursor magic_len;
    active_first_entry = new_first_entry;
    active_entry_count = 0;
  }

  -- `do_rollover`
  unfoldable pub do_rollover : EntryId → Act (Unit {0})
  unfolding create_segment roll_entry log_entry enter_segment
  do_rollover new_first_entry w =
      (do
        _ ← on_disk (create_segment w.store.next_seg_id)
        log_entry (roll_entry w.store new_first_entry)
        modify (enter_segment w.store.next_seg_id new_first_entry))
        w
