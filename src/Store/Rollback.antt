-- ===== src/Store/Rollback.antt =====
-- `truncate_end` of the store (src/store.rs): where the active file is cut.
use woodshed.Base.{
  ℕ, ◌+◌, ◌<◌, ◌≡◌, ◌≢◌, refl, sym, ap, ◌∙◌, List, [], ◌∷◌, ◌++◌, append_assoc, All, some, ok,
  arith,
}
use woodshed.Base.Dict.{lookup, insert, lookup-insert}
use woodshed.Hash.{Hasher}
use woodshed.Yatlv.{Yatlv}
use woodshed.File
use woodshed.File.{set_len, set_len-append}
use woodshed.Files
use woodshed.Files.{Disk, magic_len, segment_magic, open_segment}
use woodshed.Frame.Format.{frame_bytes, Fits}
use woodshed.Frame.Cursor
use woodshed.Frame.Scanner
use woodshed.Frame.Frames.{Frame, frame_size, frames_size, frames_bytes, length-frames_bytes}
use woodshed.Frame.After.{scan_to_after-frame}
use woodshed.State.{SegmentId, EntryId, bare, truncate_end}
use woodshed.Store.{Store, World, append_entry}
use woodshed.Store.Truncate.{
  tail_split, start_offset, cut_offset, cut_file, reactivate, roll_back, truncate_tail,
}
use woodshed.Store.Batch.{Logs, frames_bytes-append, frames_size-append}
use woodshed.Store.Tail.{rolled, tail_split-applies}
use woodshed.Store.Logged.{logged, log_entry-logged}

module _ ⦃h : Hasher⦄ (s : Store) (d : Disk) (v : EntryId) (id : SegmentId) (payload : List ℕ)
    (fs gs : List Frame) where
  -- The bytes of the segment's file: the frames before the entry `v`, the entry, and the rest.
  abbrev pub segment_file : List ℕ
  segment_file = segment_magic ++ (frames_bytes fs ++ (frame_bytes v payload ++ frames_bytes gs))

  -- The cut that the scan reports, from where the scanner is told that it starts.
  abbrev pub reported : ℕ
  reported = start_offset s.index v id + frames_size fs + frame_size (v, payload)

  open_lem :
      lookup id d.segments ≡ some segment_file
      → open_segment d id ≡ ok (record { content = segment_file; cursor = magic_len }, magic_len)
  unfolding open_segment Files.check_magic Files.same_bytes
  open_lem e = ground arith

  cut_offset_lem :
      All Fits fs
      → All (λ f. f.0 ≢ v) fs
      → Fits (v, payload)
      → lookup id d.segments ≡ some segment_file
      → cut_offset v id (record { store = s; disk = d })
        ≡ (ok reported, record { store = s; disk = d })
  unfolding cut_offset Scanner.new File.unread
  cut_offset_lem fits other fit e = ground (
    arith,
    open_lem e,
    scan_to_after-frame v fs payload (frames_bytes gs) (start_offset s.index v id) fits other fit,
  )

  pub set_len_lem :
      start_offset s.index v id ≡ magic_len
      → set_len segment_file reported ≡ segment_magic ++ frames_bytes (fs ++ ((v, payload) ∷ []))
  unfolding frames_bytes
  set_len_lem from_start =
      ap (λ b. set_len b reported) split
      ∙ set_len-append front (frames_bytes gs) reported (
          omega
            (arith, from_start, length-frames_bytes fs', frames_size-append fs ((v, payload) ∷ [])))
    where
      fs' : List Frame
      fs' = fs ++ ((v, payload) ∷ [])

      front : List ℕ
      front = segment_magic ++ frames_bytes fs'

      split : segment_file ≡ front ++ frames_bytes gs
      split =
          ap (λ b. segment_magic ++ b)
            (sym (
              ap (λ b. b ++ frames_bytes gs) (frames_bytes-append fs ((v, payload) ∷ []))
              ∙ append_assoc (frames_bytes fs) (frame_bytes v payload ++ []) (frames_bytes gs)
              ∙ ap (λ b. frames_bytes fs ++ b)
                  (append_assoc (frame_bytes v payload) [] (frames_bytes gs))))

module _ ⦃h : Hasher⦄ ⦃y : Yatlv⦄ (s : Store) (d : Disk) (v last : EntryId) (id : SegmentId)
    (dropped : List SegmentId) (payload : List ℕ) (fs gs : List Frame) where
  -- What a rollback to `v` leaves.
  pub record RolledBack (cut : ℕ) (w : World) : Type 0 where
    pub file : lookup id w.disk.segments ≡ some (set_len (segment_file s d v id payload fs gs) cut)
    pub others : (j : SegmentId) → j ≢ id → lookup j w.disk.segments ≡ lookup j d.segments
    pub cursor : w.store.active_cursor ≡ Cursor.new cut
    pub active : w.store.active_id ≡ id
    pub last_entry : w.store.last_entry_id ≡ some v
    pub state : w.store.state ≡ rolled s.state id dropped

  abbrev pub cut_disk : ℕ → Disk
  cut_disk cut = record d {
    segments = insert id (set_len (segment_file s d v id payload fs gs) cut) d.segments;
  }

  abbrev pub rolled_world : ℕ → World
  rolled_world cut =
      let w =
        logged (bare (truncate_end id cut dropped)) (rolled s.state id dropped)
          (record { store = s; disk = cut_disk cut }) in
      record { store = reactivate v id cut dropped w.store; disk = w.disk }

  cut_file_lem :
      (cut : ℕ)
      → lookup id d.segments ≡ some (segment_file s d v id payload fs gs)
      → cut_file id cut (record { store = s; disk = d })
        ≡ (ok tt, record { store = s; disk = cut_disk cut })
  unfolding cut_file Files.put_segment
  cut_file_lem cut e = ground (arith, open_lem s d v id payload fs gs e)

  pub roll_back_lem :
      tail_split s.state.segments v ≡ some (id, dropped)
      → All Fits fs
      → All (λ f. f.0 ≢ v) fs
      → Fits (v, payload)
      → lookup id d.segments ≡ some (segment_file s d v id payload fs gs)
      → roll_back v (some (id, dropped)) (record { store = s; disk = d })
        ≡ (ok tt, rolled_world (reported s d v id payload fs gs))
  unfolding roll_back
  roll_back_lem found fits other fit e =
      let cut = reported s d v id payload fs gs in
      ground (
        arith,
        cut_offset_lem s d v id payload fs gs fits other fit e,
        cut_file_lem cut e,
        log_entry-logged (bare (truncate_end id cut dropped)) (rolled s.state id dropped)
            (record { store = s; disk = cut_disk cut })
            (tail_split-applies s.state v id dropped cut found),
      )

  rolled_world-RolledBack : (cut : ℕ) → RolledBack cut (rolled_world cut)
  unfolding reactivate append_entry insert lookup
  rolled_world-RolledBack cut = record {
    file = ground arith;
    others = λ j ne.
        ground (
          arith,
          lookup-insert id j (set_len (segment_file s d v id payload fs gs) cut) d.segments,
        );
    cursor = refl;
    active = refl;
    last_entry = refl;
    state = refl;
  }

  -- Rolling back to an entry `v` before the last one, where its segment's file holds written
  -- frames without the id `v`, then the entry, then the rest, succeeds: that segment is the
  -- active one, the segments behind it are dead, `v` is the last entry, no other segment's file
  -- changes, and the file is set to a length that is the offset of the nearest checkpoint in the
  -- segment, or 8 without one, and the size of all the frames up to `v`.
  pub truncate_tail-RolledBack :
      s.last_entry_id ≡ some last
      → v < last
      → tail_split s.state.segments v ≡ some (id, dropped)
      → All Fits fs
      → All (λ f. f.0 ≢ v) fs
      → Fits (v, payload)
      → lookup id d.segments ≡ some (segment_file s d v id payload fs gs)
      → (w : World) × (truncate_tail v (record { store = s; disk = d }) ≡ (ok tt, w))
        × RolledBack (reported s d v id payload fs gs) w
  unfolding truncate_tail
  truncate_tail-RolledBack at_last lt found fits other fit e = (
    rolled_world (reported s d v id payload fs gs),
    ground (arith, roll_back_lem found fits other fit e),
    rolled_world-RolledBack (reported s d v id payload fs gs),
  )

  -- Rolling back to an entry `v` before the last one, where its segment's file holds written
  -- frames without the id `v`, then the entry, then the rest, and the nearest checkpoint is none
  -- of that segment or at its start, leaves in the file the frames up to `v`, with the cursor at
  -- its end and no frame waiting.
  pub truncate_tail-Logs :
      s.last_entry_id ≡ some last
      → v < last
      → tail_split s.state.segments v ≡ some (id, dropped)
      → All Fits fs
      → All (λ f. f.0 ≢ v) fs
      → Fits (v, payload)
      → lookup id d.segments ≡ some (segment_file s d v id payload fs gs)
      → start_offset s.index v id ≡ magic_len
      → (w : World) × (truncate_tail v (record { store = s; disk = d }) ≡ (ok tt, w))
        × Logs w.store w.disk (fs ++ ((v, payload) ∷ []))
  truncate_tail-Logs at_last lt found fits other fit e from_start =
      let (w, run, r) = truncate_tail-RolledBack at_last lt found fits other fit e in
      (
        w,
        run,
        record {
          file =
              ap (λ j. lookup j w.disk.segments) r.active
              ∙ r.file
              ∙ ap some (set_len_lem s d v id payload fs gs from_start);
          at_end =
              ap (λ c. c.position) r.cursor
              ∙ omega (arith, from_start, frames_size-append fs ((v, payload) ∷ []));
          empty = ap (λ c. c.buf.buf) r.cursor;
        },
      )
