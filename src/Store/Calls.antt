-- ===== src/Store/Calls.antt =====
-- The calls that a client makes on a store (src/store.rs), and what they make of its log.
use woodshed.Base.{
  ℕ, ◌+◌, ◌^◌, ◌≤◌, ◌<◌, ◌≡◌, ◌≢◌, ◌⊎◌, Bool, true, false, List, [], ◌∷◌, ◌++◌, All, none, some,
  Option, Result, ok, err,
}
use woodshed.Base.Dict.{lookup}
use woodshed.Hash.{Hasher}
use woodshed.Yatlv.{Yatlv}
use woodshed.Files.{Disk, magic_len}
use woodshed.Frame.Format.{Fits}
use woodshed.Frame.Frames.{Frame, frames_size, frame_size}
use woodshed.State
use woodshed.State.{SegmentEntry, SegmentId, EntryId, Meta, bare, with_meta, metadata}
use woodshed.Manifest.Replay.{Carried}
use woodshed.Scan.Segments.{Content, Held, segment_content}
use woodshed.Store.{Store, World, Failure, roll_entry}
use woodshed.Store.Write.{writer, push_all, write_entries}
use woodshed.Store.Truncate.{
  to_evict, tail_split, start_offset, nothing_behind, truncate_head, truncate_tail,
  delete_dead_segments, write_metadata,
}
use woodshed.Store.Open.{OpenError, open_store, open_or_create}
use woodshed.Store.Create.{vacant}
use woodshed.Store.Log.{log_of}
use woodshed.Store.Survivors.{Survivors}
use woodshed.Store.Keeps.Meta.{deletions}

pub data Call : Type 0 where
  write : List Frame → Call
  truncate_start : EntryId → Meta → Call
  truncate_end : EntryId → Call
  delete_dead : Call
  describe : Meta → Call
  reopen : ℕ → Call

-- Whether a call succeeded, and the world that it left.
abbrev pub outcome : {A : Type 0} → Result Failure A × World → Bool × World
outcome (ok _, w) = (true, w)
outcome (err _, w) = (false, w)

-- A store that is not opened leaves the old one.
abbrev pub reopened_world : Store → Result OpenError Store × Disk → Bool × World
reopened_world s (ok t, d) = (true, record { store = t; disk = d })
reopened_world s (err _, d) = (false, record { store = s; disk = d })

module _ ⦃h : Hasher⦄ ⦃y : Yatlv⦄ where
  unfoldable pub run : Call → World → Bool × World
  unfolding write_entries truncate_head truncate_tail delete_dead_segments write_metadata open_store
  run (write batch) w = outcome (write_entries (push_all (writer w.store) batch) w.disk)
  run (truncate_start first meta) w = outcome (truncate_head first meta w)
  run (truncate_end v) w = outcome (truncate_tail v w)
  run delete_dead w = outcome (delete_dead_segments w)
  run (describe pairs) w = outcome (write_metadata pairs w)
  run (reopen trigger) w = reopened_world w.store (open_store trigger w.disk)

  -- A rollover has room, where the batch is not empty.
  abbrev pub CanStart : World → List Frame → Type 0
  CanStart w [] = Unit
  CanStart w (f ∷ _) = Carried (roll_entry w.store f.0) × (w.store.next_seg_id + 1 < 2 ^ 32)

  -- The entry `v` stands in the file of its segment, and no checkpoint of that segment is before it
  -- but at its start.
  pub record Rollback (v : EntryId) (w : World) : Type 0 where
    pub last : EntryId
    pub id : SegmentId
    pub dropped : List SegmentId
    pub payload : List ℕ
    pub before : List Frame
    pub after : List Frame
    pub at_last : w.store.last_entry_id ≡ some last
    pub is_before : v < last
    pub found : tail_split w.store.state.segments v ≡ some (id, dropped)
    pub file : lookup id w.disk.segments ≡ some (segment_content (before ++ ((v, payload) ∷ after)))
    pub fits : All Fits (before ++ ((v, payload) ∷ after))
    pub other : All (λ f. f.0 ≢ v) before
    pub from_start : start_offset w.store.index v id ≡ magic_len
    pub carried : Carried (
        bare (
          State.truncate_end id
            (start_offset w.store.index v id + frames_size before + frame_size (v, payload))
            dropped))

  -- What a client and the formats see to before a call.
  abbrev pub Allowed : Call → World → Type 0
  Allowed (write batch) w = All Fits batch × (w.store.rollover_pending ≡ true → CanStart w batch)
  Allowed (truncate_start first meta) w =
      (w.store.state.first_entry ≤ first)
      × Carried (
          with_meta
            (State.truncate_start first (to_evict w.store.state first w.store.state.segments)) meta)
  Allowed (truncate_end v) w = (nothing_behind w.store.last_entry_id v ≡ true) ⊎ Rollback v w
  Allowed delete_dead w = All Carried (deletions w.store.state.dead)
  Allowed (describe pairs) w = Carried (with_meta metadata pairs)
  Allowed (reopen trigger) w = Unit

-- The log without what stands behind the entry `v`.
abbrev pub CutBehind : EntryId → List Frame → List Frame → Type 0
CutBehind v l m =
    (payload : List ℕ) × (before after : List Frame) × (l ≡ before ++ ((v, payload) ∷ after))
    × (m ≡ before ++ ((v, payload) ∷ []))

-- Where the last entry is not behind `v` the log stays as it is, else it is cut there.
abbrev pub TailStep : EntryId → Option EntryId → List Frame → List Frame → Type 0
TailStep v none l m = m ≡ l
TailStep v (some last) l m = ((last ≤ v) × (m ≡ l)) ⊎ ((v < last) × CutBehind v l m)

-- What a call on a world, where the segments' files hold `content`, makes of the log: a batch is added
-- behind; the frames of just the segments whose seal has a last entry before the new head go; what
-- stands behind an entry goes, or nothing where no entry is behind; no other call changes it.
abbrev pub LogStep : Call → World → Content → List Frame → Type 0
LogStep (write batch) w content m = m ≡ log_of content w.store.state.segments ++ batch
LogStep (truncate_start first meta) w content m =
    (left : List SegmentEntry) × Survivors w.store.state first w.store.state.segments left
    × (m ≡ log_of content left)
LogStep (truncate_end v) w content m =
    TailStep v w.store.last_entry_id (log_of content w.store.state.segments) m
LogStep delete_dead w content m = m ≡ log_of content w.store.state.segments
LogStep (describe pairs) w content m = m ≡ log_of content w.store.state.segments
LogStep (reopen trigger) w content m = m ≡ log_of content w.store.state.segments

-- The worlds that successful calls lead to from a store created in an empty directory.
pub data Reach ⦃h : Hasher⦄ ⦃y : Yatlv⦄ : List Call → World → Type 0 where
  created :
      {s : Store} {d : Disk} (trigger : ℕ)
      → open_or_create trigger vacant ≡ (ok s, d)
      → Reach [] (record { store = s; disk = d })
  called :
      {cs : List Call} {w x : World} (c : Call)
      → Reach cs w
      → Allowed c w
      → run c w ≡ (true, x)
      → Reach (c ∷ cs) x

-- The log of a world that calls reached, step by step: it is empty at the start, and each call takes
-- the log of the world before it, the frames in the live segments' files, to the next.
pub data LogReach ⦃h : Hasher⦄ ⦃y : Yatlv⦄ : List Call → World → List Frame → Type 0 where
  start :
      {s : Store} {d : Disk} (trigger : ℕ)
      → open_or_create trigger vacant ≡ (ok s, d)
      → LogReach [] (record { store = s; disk = d }) []
  later :
      {cs : List Call} {w x : World} {m : List Frame} (c : Call) (content : Content)
      → LogReach cs w (log_of content w.store.state.segments)
      → Held w.store.state w.disk.segments content
      → run c w ≡ (true, x)
      → LogStep c w content m
      → LogReach (c ∷ cs) x m
