-- ===== src/Store/Batch.antt =====
-- What a batch of entries does to the active segment (src/store.rs).
use woodshed.Base.{
  ℕ, ◌+◌, ◌≡◌, ◌≢◌, refl, sym, ap, ◌∙◌, true, false, List, [], ◌∷◌, ◌++◌, append_assoc, append-nil,
  length, Option, none, some, ok, arith, ltb, if◌then◌else◌,
}
use woodshed.Base.Dict.{lookup, insert, contains, add, lookup-insert}
use woodshed.Hash.{Hasher}
use woodshed.Yatlv.{Yatlv}
use woodshed.File.{write_all_at, write_all_at-end}
use woodshed.Files
use woodshed.Files.{Disk, magic_len, segment_magic, open_segment}
use woodshed.Frame.Format.{frame_bytes}
use woodshed.Frame.Cursor
use woodshed.Frame.Cursor.{FrameCursor, write, flush}
use woodshed.Frame.Frames.{Frame, frames_size, frames_bytes, length-frames_bytes}
use woodshed.Frame.Summary.Loop.{last_id_or}
use woodshed.State.{SegmentId, EntryId}
use woodshed.Store.{Store, World}
use woodshed.Store.Write.{
  StoreWriter, writer, commit, push, push_all, open_active, flush_active, count_batch, write_batch,
  write_ids, write_entries, roll_if_pending,
}

abbrev pub first_id_or : Option EntryId → List Frame → Option EntryId
first_id_or none [] = none
first_id_or none ((id, payload) ∷ es) = some id
first_id_or (some first) es = some first

pub frames_size-append :
    (fs gs : List Frame) → frames_size (fs ++ gs) ≡ frames_size fs + frames_size gs
frames_size-append [] gs = omega arith
frames_size-append (f ∷ fs) gs = omega (arith, frames_size-append fs gs)

module _ ⦃h : Hasher⦄ where
  -- The writer after `entries`.
  abbrev pub pushed : StoreWriter → List Frame → StoreWriter
  pushed w es = record {
    store = record w.store {
      active_cursor = record {
        buf = record { buf = w.store.active_cursor.buf.buf ++ frames_bytes es };
        position = w.store.active_cursor.position;
      };
    };
    first_id = first_id_or w.first_id es;
    last_id = last_id_or w.last_id es;
    count = w.count + length es;
  }

  pub push_all-pushed : (w : StoreWriter) (es : List Frame) → push_all w es ≡ pushed w es
  unfolding push_all frames_bytes
  push_all-pushed w [] = ground (arith, append-nil w.store.active_cursor.buf.buf)
  push_all-pushed w ((id, payload) ∷ es) =
      push_all-pushed (push w id payload) es
      ∙ ground (
        arith,
        append_assoc w.store.active_cursor.buf.buf (frame_bytes id payload) (frames_bytes es),
      )

  pub frames_bytes-append :
      (fs gs : List Frame) → frames_bytes (fs ++ gs) ≡ frames_bytes fs ++ frames_bytes gs
  unfolding frames_bytes
  frames_bytes-append [] gs = refl
  frames_bytes-append ((id, payload) ∷ fs) gs =
      ap (λ t. frame_bytes id payload ++ t) (frames_bytes-append fs gs)
      ∙ sym (append_assoc (frame_bytes id payload) (frames_bytes fs) (frames_bytes gs))

-- The active segment's file is the frames `fs`, and the cursor stands at its end with nothing that waits.
pub record Logs ⦃h : Hasher⦄ (s : Store) (d : Disk) (fs : List Frame) : Type 0 where
  pub file : lookup s.active_id d.segments ≡ some (segment_magic ++ frames_bytes fs)
  pub at_end : s.active_cursor.position ≡ magic_len + frames_size fs
  pub empty : s.active_cursor.buf.buf ≡ []

module _ ⦃h : Hasher⦄ ⦃y : Yatlv⦄ (s : Store) (d : Disk) (fs : List Frame) (log : Logs s d fs) where
  -- The file behind the write.
  abbrev pub written : List ℕ → List ℕ
  written buf = segment_magic ++ (frames_bytes fs ++ buf)

  written_lem :
      (buf : List ℕ)
      → write_all_at (segment_magic ++ frames_bytes fs) buf s.active_cursor.position ≡ written buf
  written_lem buf =
      write_all_at-end (segment_magic ++ frames_bytes fs) buf s.active_cursor.position
        (omega (arith, log.at_end, length-frames_bytes fs))

  open_segment_lem :
      open_segment d s.active_id
      ≡ ok (record { content = segment_magic ++ frames_bytes fs; cursor = magic_len }, magic_len)
  unfolding open_segment Files.check_magic Files.same_bytes
  open_segment_lem = ground (arith, log.file)

  -- The world after the batch `es`, whose last id is `last`.
  abbrev pub after_batch : EntryId → List Frame → World
  after_batch last es =
      let position = s.active_cursor.position + length (frames_bytes es) in
      record {
        store = record s {
          segments =
              if contains s.active_id s.segments then s.segments else add s.active_id s.segments;
          active_cursor = Cursor.new position;
          last_entry_id = some last;
          active_entry_count = s.active_entry_count + length es;
          rollover_pending = if ltb s.rollover_trigger_bytes position then true else false;
        };
        disk = record d { segments = insert s.active_id (written (frames_bytes es)) d.segments };
      }

  -- The world in which the frames of `es` wait in the cursor.
  abbrev pub waiting : List Frame → World
  waiting es = record { store = (pushed (writer s) es).store; disk = d }

  pub write_batch_lem :
      (first last : EntryId) (es : List Frame)
      → s.rollover_pending ≡ false
      → write_batch first last (length es) (waiting es)
        ≡ (ok (commit (some s.active_id)), after_batch last es)
  unfolding write_batch roll_if_pending open_active flush_active flush Files.put_segment count_batch
  write_batch_lem first last es idle =
      ground (arith, log.file, log.empty, open_segment_lem, written_lem (frames_bytes es))

  pub last_some :
      (e : Frame) (es : List Frame) → (last : EntryId) × (last_id_or none (e ∷ es) ≡ some last)
  last_some (id, payload) es = from id es
    where
      from :
          (id : EntryId) (es : List Frame)
          → (last : EntryId) × (last_id_or (some id) es ≡ some last)
      from id [] = (id, refl)
      from id ((i, p) ∷ es) = from i es

  pub first_some : (e : Frame) (es : List Frame) → first_id_or none (e ∷ es) ≡ some e.0
  first_some (id, payload) es = refl

  pub write_entries_lem :
      (e : Frame) (es : List Frame) (last : EntryId)
      → last_id_or none (e ∷ es) ≡ some last
      → s.rollover_pending ≡ false
      → write_entries (push_all (writer s) (e ∷ es)) d
        ≡ (ok (commit (some s.active_id)), after_batch last (e ∷ es))
  unfolding write_entries write_ids
  write_entries_lem e es last found idle =
      ap (λ w. write_entries w d) (push_all-pushed (writer s) (e ∷ es))
      ∙ ground (arith, first_some e es, write_batch_lem e.0 last (e ∷ es) idle)

  pub after_batch-Logs :
      (last : EntryId) (es : List Frame)
      → Logs ((after_batch last es).store) ((after_batch last es).disk) (fs ++ es)
  unfolding insert lookup
  after_batch-Logs last es = record {
    file = ground (arith, frames_bytes-append fs es);
    at_end = omega (arith, log.at_end, frames_size-append fs es, length-frames_bytes es);
    empty = refl;
  }

  -- What a batch of entries may change: it goes behind the frames of the active segment's file, and
  -- the last id, the count and the threshold's flag follow it.
  pub record Appended (es : List Frame) (w : World) : Type 0 where
    pub logs : Logs w.store w.disk (fs ++ es)
    pub last : w.store.last_entry_id ≡ last_id_or none es
    pub count : w.store.active_entry_count ≡ s.active_entry_count + length es
    pub rolls :
        w.store.rollover_pending ≡ ltb s.rollover_trigger_bytes (magic_len + frames_size (fs ++ es))
    pub others : (j : SegmentId) → j ≢ s.active_id → lookup j w.disk.segments ≡ lookup j d.segments
    pub manifest : w.disk.manifest ≡ d.manifest
    pub state : w.store.state ≡ s.state

  pub after_batch-Appended :
      (last : EntryId) (es : List Frame)
      → last_id_or none es ≡ some last
      → Appended es (after_batch last es)
  after_batch-Appended last es found = record {
    logs = after_batch-Logs last es;
    last = sym found;
    count = refl;
    rolls = ground (arith, log.at_end, frames_size-append fs es, length-frames_bytes es);
    others =
        λ j ne. ground (arith, lookup-insert s.active_id j (written (frames_bytes es)) d.segments);
    manifest = refl;
    state = refl;
  }

  -- Where no rollover is pending, and the active segment's file holds the frames `fs` with the cursor
  -- at its end, writing a batch that is not empty succeeds: the file then holds the frames `fs` and
  -- those of the batch, the cursor is at its end again, and the other segments, the manifest and the
  -- state are as they were.
  pub write_entries-Appended :
      (e : Frame) (es : List Frame)
      → s.rollover_pending ≡ false
      → (w : World) × (write_entries (push_all (writer s) (e ∷ es)) d
          ≡ (ok (commit (some s.active_id)), w))
        × Appended (e ∷ es) w
  write_entries-Appended e es idle =
      let (last, found) = last_some e es in
      (
        after_batch last (e ∷ es),
        write_entries_lem e es last found idle,
        after_batch-Appended last (e ∷ es) found,
      )
