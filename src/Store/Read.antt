-- ===== src/Store/Read.antt =====
-- Reading the store (`scan`, `StoreReader` and the entry ids of src/store.rs).
use woodshed.Base.{
  ℕ, zero, suc, Bool, true, List, [], ◌∷◌, Option, none, some, Result, ok, err, length, ltb, max,
  ◌==◌, if◌then◌else◌,
}
use woodshed.Frame.Scanner
use woodshed.Frame.Scanner.{FrameScanner, FrameReader, ScanError, seek_to_id}
use woodshed.Files.{Disk, IoError, magic_len, open_segment}
use woodshed.Index
use woodshed.Index.{EntryIndex, IndexPosition}
use woodshed.State.{StoreState, SegmentEntry, SegmentId, EntryId}
use woodshed.Store.{Store}

-- `Store::first_entry_id`
abbrev pub first_entry_id : Store → EntryId
first_entry_id s = s.state.first_entry

abbrev pub visible : EntryId → Option EntryId → Option EntryId
visible first none = none
visible first (some last) = if ltb last first then none else some last

-- `Store::last_entry_id`
unfoldable pub last_entry_id : Store → Option EntryId
last_entry_id s = visible s.state.first_entry s.last_entry_id

-- The scanner with the id of its segment.
abbrev pub Position : Type 0
Position = SegmentId × FrameScanner

pub record StoreReader : Type 0 where
  pub scanner : Option Position

abbrev pub nothing : StoreReader
nothing = record { scanner = none }

abbrev pub segment_start : List SegmentEntry → Option (SegmentId × ℕ)
segment_start [] = none
segment_start (e ∷ es) = some (e.id, magic_len)

-- `Store::scan_start`; `none` is the panic where there is no segment.
unfoldable pub scan_start : Store → EntryId → Option (SegmentId × ℕ)
unfolding Index.find
scan_start s from = elim (Index.find s.index from) [
  | some pos ↦ some (pos.segment, pos.byte_offset)
  | none ↦ segment_start s.state.segments
]

-- A seek that failed leaves no scanner.
abbrev pub sought : SegmentId → Scanner.Run (Unit {0}) → StoreReader
sought id none = nothing
sought id (some (err _, s)) = nothing
sought id (some (ok _, s)) = record { scanner = some (id, s) }

unfoldable pub seek_in : Disk → EntryId → SegmentId × ℕ → StoreReader
unfolding open_segment Scanner.new seek_to_id
seek_in d from (id, byte_offset) = elim (open_segment d id) [
  | err _ ↦ nothing
  | ok (file, _) ↦ sought id (seek_to_id from (Scanner.new file byte_offset))
]

-- `self.last_entry_id().is_none_or(|last| from.0 > last)`
abbrev pub is_behind : EntryId → Option EntryId → Bool
is_behind from none = true
is_behind from (some last) = ltb last from

-- `Store::scan`
unfoldable pub scan : Store → Disk → EntryId → Option StoreReader
unfolding last_entry_id scan_start seek_in
scan s d from =
    let clamped = max from s.state.first_entry in
    if is_behind clamped (last_entry_id s)
    then some nothing
    else elim (scan_start s clamped) [ none ↦ none | some start ↦ some (seek_in d clamped start) ]

-- What `next` gives: the end, an error, or an entry's reader, which holds the scanner.
pub data Item : Type 0 where
  ended : StoreReader → Item
  unreadable : ScanError → StoreReader → Item
  not_opened : IoError → StoreReader → Item
  entry : SegmentId → FrameReader → Item

-- The segment behind `current`.
unfoldable pub next_segment : SegmentId → List SegmentEntry → Option SegmentId
next_segment current [] = none
next_segment current (e ∷ es) =
    let rest = next_segment current es in
    if e.id == current then elim es [ [] ↦ none | n ∷ _ ↦ some n.id ] else rest

-- The start of the segment that follows, from which the loop goes on, or the end.
unfoldable pub advance : Disk → Option SegmentId → Result Item Position
unfolding open_segment Scanner.new
advance d none = err (ended nothing)
advance d (some id) = elim (open_segment d id) [
  | err e ↦ err (not_opened e nothing)
  | ok (file, _) ↦ ok (id, Scanner.new file magic_len)
]

-- A round of `next` on what the scanner read.
unfoldable pub next_step :
    Disk
    → StoreState
    → SegmentId
    → Result ScanError (Option FrameReader) × FrameScanner
    → (Position → Option Item)
    → Option Item
unfolding advance next_segment
next_step d state id (err e, s) go = some (unreadable e (record { scanner = some (id, s) }))
next_step d state id (ok (some r), s) go = some (entry id r)
next_step d state id (ok none, s) go = elim (advance d (next_segment id state.segments)) [
  | err item ↦ some item
  | ok p ↦ go p
]

unfoldable pub next_loop : ℕ → Disk → StoreState → Position → Option Item
unfolding Scanner.read next_step
next_loop zero d state p = none
next_loop (suc fuel) d state (id, s) =
    next_step d state id (Scanner.read s) (next_loop fuel d state)

-- `StoreReader::next`, with a round for each segment.
unfoldable pub next : Disk → StoreState → StoreReader → Option Item
unfolding next_loop
next d state reader = elim reader.scanner [
  | none ↦ some (ended nothing)
  | some p ↦ next_loop (suc (length state.segments)) d state p
]
