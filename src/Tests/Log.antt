-- ===== src/Tests/Log.antt =====
-- A store that agrees with its disk, its log and its reading at concrete inputs.
use woodshed.Base.{◌≡◌, refl, false, List, [], ◌∷◌, ◌++◌, All, some, ok, arith, ◌==◌}
use woodshed.Base.Dict.{lookup, contains}
use woodshed.Tests.Codec.{sum_hasher, plain_codec}
use woodshed.Files.{Disk, magic_len, segment_magic}
use woodshed.Frame.Cursor
use woodshed.Frame.Format.{Fits}
use woodshed.Frame.Frames.{Frame, frames_bytes}
use woodshed.Index
use woodshed.State
use woodshed.State.{SegmentEntry, SegmentId, ManifestOp, is_live}
use woodshed.State.Codec.{encode}
use woodshed.Manifest.Replay.{Carried, manifest_size}
use woodshed.Scan.{scan}
use woodshed.Scan.Segments.{Content, clean_reports}
use woodshed.Scan.Clean.{scan_clean}
use woodshed.Store.{Store, World}
use woodshed.Store.Open.{open_store, open_or_create}
use woodshed.Store.Read
use woodshed.Store.Read.{StoreReader, scan_start, is_behind, last_entry_id}
use woodshed.Store.Consistent.{Consistent}
use woodshed.Store.Create.{
  creation, created, blank, vacant, created_disk, new_store, new_store-Consistent,
  open_or_create-Consistent,
}
use woodshed.Store.Reopen.{reopened, open_store-Consistent}
use woodshed.Store.Rising.{Rising}
use woodshed.Store.Indexed.{Filled}
use woodshed.Store.ScanExact.{reopened-scan}
use woodshed.Store.Keeps.Held.{update, All-choice}
use woodshed.Store.Log.{log_of}
use woodshed.Store.Drain.{drain}
use woodshed.Store.ScanFrom.{scan-drain}
use woodshed.Base.{none}
use woodshed.Frame.Summary.Loop.{last_id_or}
use woodshed.Base.{◌+◌, inr, sym, subst}
use woodshed.Store.Truncate.{tail_split, start_offset}
use woodshed.Store.Calls
use woodshed.Store.Refines.{Refined}
use woodshed.Store.Refines.Runs.{Implements, run-Refined, Reach-Implements}
use woodshed.Store.ReadBack.{Reads, Reach-Reads}

pub creation-Carried : Carried creation
unfolding encode
creation-Carried = (((omega arith, omega arith), tt), omega arith)

-- Two entries in the only segment.
abbrev pub frames : List Frame
frames = (1, b'a' ∷ []) ∷ (2, b'b' ∷ []) ∷ []

abbrev pub content : Content
content = update blank 1 frames

abbrev pub disk : Disk
disk = record created_disk { segments = (1, segment_magic ++ frames_bytes frames) ∷ [] }

abbrev pub store : Store
store = record new_store {
  active_cursor = Cursor.new 50;
  active_entry_count = 2;
  last_entry_id = some 2;
}

abbrev pub world : World
world = record { store = store; disk = disk }

frames_fit : All Fits frames
frames_fit = ((omega arith, omega arith), ((omega arith, omega arith), tt))

pub world-Consistent : Consistent (creation ∷ []) content world
unfolding lookup is_live contains
world-Consistent =
    let c = new_store-Consistent creation-Carried in
    record {
      recorded = record {
        there = refl;
        holds = c.recorded.holds;
        cursor = c.recorded.cursor;
        carried = c.recorded.carried;
        replays = c.recorded.replays;
      };
      held = record {
        files = λ j l. ground arith;
        fits = λ j l. All-choice (1 == j) frames [] (λ b. frames_fit) (λ b. tt);
        sizes = λ j info e. absurd (ground arith);
        dead_there = λ j c. absurd (ground arith);
        known = λ j k. ground arith;
      };
      well_formed = c.well_formed;
      apart = c.apart;
      once = tt;
      last = c.last;
      active = refl;
      entry = c.entry;
      logs = record { file = refl; at_end = refl; empty = refl };
      fenced = c.fenced;
      room = omega arith;
    }

scan_clean_example : scan disk ≡ record {
  state = created;
  manifest_next_offset = manifest_size (creation ∷ []);
  segments = clean_reports content created.segments;
  issues = [];
}
unfolding State.is_empty
scan_clean_example =
    scan_clean created disk content world-Consistent.held (creation ∷ []) refl
      world-Consistent.recorded.holds (creation-Carried, tt) world-Consistent.recorded.replays refl

open_store-Consistent_example :
    (s : Store) × (open_store 100 disk ≡ (ok s, disk))
    × Consistent (creation ∷ []) content (record { store = s; disk = disk })
    × (s.state ≡ created)
    × (s.active_id ≡ 1)
    × (s.active_cursor ≡ Cursor.new 50)
    × (s.manifest_cursor ≡ store.manifest_cursor)
    × (s.rollover_pending ≡ false)
open_store-Consistent_example =
    open_store-Consistent 100 (creation ∷ []) content world world-Consistent

open_or_create-Consistent_example :
    (s : Store) × (open_or_create 100 vacant ≡ (ok s, created_disk))
    × Consistent (creation ∷ []) blank (record { store = s; disk = created_disk })
    × (s.rollover_pending ≡ false)
open_or_create-Consistent_example = open_or_create-Consistent 100 creation-Carried

pub just_created :
    (s : Store) × (open_or_create 100 vacant ≡ (ok s, created_disk))
    × Consistent (creation ∷ []) blank (record { store = s; disk = created_disk })
    × (s.rollover_pending ≡ false)
just_created = open_or_create-Consistent 100 creation-Carried

abbrev pub batch : List Frame
batch = (3, b'c' ∷ []) ∷ []

-- The second of the two entries is dropped.
dropped_split : tail_split created.segments 1 ≡ some (1, [])
unfolding tail_split
dropped_split = refl

dropped_start : start_offset store.index 1 1 ≡ magic_len
unfolding start_offset Index.find
dropped_start = refl

dropped_file : lookup 1 disk.segments ≡ some (segment_magic ++ frames_bytes frames)
unfolding lookup
dropped_file = refl

dropped-Carried : Carried (State.bare (State.truncate_end 1 29 []))
unfolding encode
dropped-Carried = (((omega arith, omega arith, tt), tt), omega arith)

second-Allowed : Calls.Allowed (Calls.truncate_end 1) world
second-Allowed = inr (record {
  last = 2;
  id = 1;
  dropped = [];
  payload = b'a' ∷ [];
  before = [];
  after = (2, b'b' ∷ []) ∷ [];
  at_last = refl;
  is_before = omega arith;
  found = dropped_split;
  file = dropped_file;
  fits = frames_fit;
  other = tt;
  from_start = dropped_start;
  carried =
      subst (λ n. Carried (State.bare (State.truncate_end 1 (n + 0 + 21) []))) (sym dropped_start)
        dropped-Carried;
})

run-Refined_example : Refined (Calls.truncate_end 1) content world
run-Refined_example =
    run-Refined (Calls.truncate_end 1) (creation ∷ []) content world world-Consistent second-Allowed

-- The store that `open_or_create` gives, and the one after a batch.
abbrev pub fresh : World
fresh = record { store = just_created.0; disk = created_disk }

batch-Allowed : Calls.Allowed (Calls.write batch) fresh
batch-Allowed = (((omega arith, omega arith), tt), λ p. absurd (ground (arith, just_created.3)))

pub fresh_written : Refined (Calls.write batch) blank fresh
fresh_written =
    run-Refined (Calls.write batch) (creation ∷ []) blank fresh just_created.2 batch-Allowed

pub fresh-Reach : Calls.Reach (Calls.write batch ∷ []) fresh_written.world
fresh-Reach =
    Calls.called (Calls.write batch) (Calls.created 100 just_created.1) batch-Allowed
      fresh_written.runs

Reach-Implements_example : Implements (Calls.write batch ∷ []) fresh_written.world
Reach-Implements_example =
    Reach-Implements (Calls.write batch ∷ []) fresh_written.world creation-Carried fresh-Reach

Reach-Reads_example :
    (l : List Frame) × Calls.LogReach (Calls.write batch ∷ []) fresh_written.world l
    × Reads l fresh_written.world
    × (fresh_written.world.store.last_entry_id ≡ last_id_or none l)
Reach-Reads_example =
    Reach-Reads (Calls.write batch ∷ []) fresh_written.world creation-Carried fresh-Reach

scan_started : scan_start store 2 ≡ some (1, magic_len)
unfolding scan_start Index.find
scan_started = refl

scan_visible : is_behind 2 (last_entry_id store) ≡ false
unfolding last_entry_id
scan_visible = refl

scan-drain_example :
    (reader : StoreReader) × (Read.scan store disk 2 ≡ some reader)
    × (drain 2 disk created reader ≡ some ((2, b'b' ∷ []) ∷ []))
unfolding log_of
scan-drain_example =
    scan-drain (creation ∷ []) content world 2 magic_len [] [] (record { id = 1; first_entry = 0 })
      ((1, b'a' ∷ []) ∷ []) ((2, b'b' ∷ []) ∷ []) world-Consistent refl scan_visible scan_started
      refl (omega arith, tt) (omega arith)

world-Rising : Rising (log_of content created.segments)
unfolding log_of
world-Rising = (omega arith, (tt, tt))

world-Filled : Filled content created.segments
world-Filled = (tt, tt)

reopened_visible :
    is_behind 2 (last_entry_id (reopened 100 (creation ∷ []) content world world-Consistent))
    ≡ false
unfolding last_entry_id
reopened_visible = refl

reopened-scan_example :
    (s : Store) × (reader : StoreReader) × (open_store 100 disk ≡ (ok s, disk))
    × (Read.scan s disk 2 ≡ some reader)
    × (drain 2 disk s.state reader ≡ some ((2, b'b' ∷ []) ∷ []))
unfolding log_of drain woodshed.Store.Rising.entries_from
reopened-scan_example =
    reopened-scan 100 (creation ∷ []) content world 2 world-Consistent world-Rising world-Filled
      reopened_visible
