-- ===== src/Store/ScanFrom.antt =====
-- `Store::scan` and what a client reads after it (src/store.rs).
use woodshed.Base.{
  ℕ, zero, suc, ◌+◌, ◌≤◌, ◌<◌, ◌≡◌, refl, sym, ap, subst, ◌∙◌, false, max, List, [], ◌∷◌, ◌++◌,
  length, All, All-split, some, arith,
}
use woodshed.Hash.{Hasher}
use woodshed.Yatlv.{Yatlv}
use woodshed.File
use woodshed.Files.{Disk}
use woodshed.Frame.Format.{Fits}
use woodshed.Frame.Frames.{Frame, frames_size, frames_bytes}
use woodshed.Frame.Scanner
use woodshed.Frame.Scanner.{seek_to_id}
use woodshed.Frame.Scanner.Step.{at, peeked_at}
use woodshed.Frame.Payload.{read-peeked}
use woodshed.Frame.Seek.{header_of, seek_to_id-frame, seek_to_id_end}
use woodshed.State.{StoreState, SegmentEntry, EntryId, ManifestOp}
use woodshed.Scan.Segments.{Content, Held, open_segment-content}
use woodshed.Store.{World}
use woodshed.Store.Read.{
  StoreReader, is_behind, last_entry_id, scan_start, seek_in, sought, scan, next, next_loop,
  next_step,
}
use woodshed.Store.Reader.{Apart}
use woodshed.Store.Batch.{frames_bytes-append}
use woodshed.Store.Consistent.{Consistent}
use woodshed.Store.Log.{log_of}
use woodshed.Store.Drain
use woodshed.Store.Drain.{drain, drain_item, behind_live, next-first, drain-frames, drain-rest}

-- The frames start with one that is not before the target, or there is none.
abbrev pub StartsAt : EntryId → List Frame → Type 0
StartsAt target [] = Unit
StartsAt target (f ∷ fs) = target ≤ f.0

module _ ⦃h : Hasher⦄ (d : Disk) (state : StoreState) (content : Content)
    (held : Held state d.segments content) (apart : Apart state.segments)
    (front back : List SegmentEntry) (e : SegmentEntry)
    (same : state.segments ≡ front ++ (e ∷ back)) where
  -- The client reads the frames that are left of the segment, and those behind it.
  drain-at :
      (fs : List Frame) (pos fuel : ℕ)
      → All Fits fs
      → length (fs ++ log_of content back) < fuel
      → drain fuel d state (record { scanner = some (e.id, at (frames_bytes fs) pos) })
        ≡ some (fs ++ log_of content back)
  drain-at =
      drain-frames d state content held back front e (log_of content back) same apart
        (drain-rest d state content held back front e same apart)

  -- With the header of the first peeked at, `next` gives the same.
  next-peeked :
      (i pos : ℕ) (payload : List ℕ) (fs : List Frame)
      → Fits (i, payload)
      → All Fits fs
      → next d state (record {
        scanner = some (e.id, peeked_at (header_of i payload) (payload ++ frames_bytes fs) pos);
      })
        ≡ next d state (record { scanner = some (e.id, at (frames_bytes ((i, payload) ∷ fs)) pos) })
  unfolding next next_loop next_step Drain.first_item
  next-peeked i pos payload fs fit fits =
      ap (λ r. next_step d state e.id r (next_loop (length state.segments) d state))
        (read-peeked i payload (payload ++ frames_bytes fs) pos fit)
      ∙ sym (
          next-first d state content held back front e ((i, payload) ∷ fs) pos same apart
            (fit, fits))

  drain-peeked :
      (i pos : ℕ) (payload : List ℕ) (fs : List Frame) (fuel : ℕ)
      → Fits (i, payload)
      → All Fits fs
      → drain fuel d state (record {
        scanner = some (e.id, peeked_at (header_of i payload) (payload ++ frames_bytes fs) pos);
      })
        ≡ drain fuel d state
            (record { scanner = some (e.id, at (frames_bytes ((i, payload) ∷ fs)) pos) })
  unfolding drain
  drain-peeked i pos payload fs zero fit fits = refl
  drain-peeked i pos payload fs (suc fuel) fit fits =
      ap (λ o. drain_item o (drain fuel d state)) (next-peeked i pos payload fs fit fits)

  seek_in_lem :
      (target offset : ℕ)
      → seek_in d target (e.id, offset)
        ≡ sought e.id (seek_to_id target (at (frames_bytes (content e.id)) offset))
  unfolding seek_in Scanner.new File.unread
  seek_in_lem target offset = ground (
    arith,
    open_segment-content d e.id (content e.id)
        (held.files e.id (behind_live d state content held front back e same)),
  )

  drain-sought :
      (target pos : ℕ) (pre fs : List Frame) (fuel : ℕ)
      → All Fits pre
      → All Fits fs
      → All (λ f. f.0 < target) pre
      → StartsAt target fs
      → length (fs ++ log_of content back) < fuel
      → drain fuel d state
          (sought e.id (seek_to_id target (at (frames_bytes pre ++ frames_bytes fs) pos)))
        ≡ some (fs ++ log_of content back)
  unfolding frames_bytes
  drain-sought target pos pre [] fuel fits left below starts lt =
      ap (λ r. drain fuel d state (sought e.id r)) (seek_to_id_end target pre pos fits below)
      ∙ drain-at [] (pos + frames_size pre) fuel tt lt
  drain-sought target pos pre ((i, payload) ∷ fs) fuel fits (fit, left) below starts lt =
      ap (λ r. drain fuel d state (sought e.id r))
        (seek_to_id-frame target pre i payload (frames_bytes fs) pos fits below fit.0 starts)
      ∙ drain-peeked i (pos + frames_size pre) payload fs fuel fit left
      ∙ drain-at ((i, payload) ∷ fs) (pos + frames_size pre) fuel (fit, left) lt

  -- The reader that the seek gives.
  pub seek_in-drain :
      (target offset : ℕ) (pre fs : List Frame) (fuel : ℕ)
      → content e.id ≡ pre ++ fs
      → All (λ f. f.0 < target) pre
      → StartsAt target fs
      → length (fs ++ log_of content back) < fuel
      → drain fuel d state (seek_in d target (e.id, offset)) ≡ some (fs ++ log_of content back)
  seek_in-drain target offset pre fs fuel split below starts lt =
      let live = behind_live d state content held front back e same in
      let (fits, left) = All-split Fits pre fs (subst (All Fits) split (held.fits e.id live)) in
      ap (drain fuel d state) (seek_in_lem target offset)
      ∙ ap (λ b. drain fuel d state (sought e.id (seek_to_id target (at b offset))))
          (ap frames_bytes split ∙ frames_bytes-append pre fs)
      ∙ drain-sought target offset pre fs fuel fits left below starts lt

-- In a store that agrees with its disk, a scan from `from`, not behind the last entry, that starts in the
-- segment `e` (the index's, or the first), where the frames of `e` before `from` stand before those from it
-- on, gives a reader with which a client reads, in one round more than there are entries, those
-- frames and all of the segments behind.
pub scan-drain :
    ⦃h : Hasher⦄
    → ⦃y : Yatlv⦄
    → (es : List ManifestOp) (content : Content) (w : World) (from offset : ℕ)
      (front back : List SegmentEntry) (e : SegmentEntry) (pre fs : List Frame)
    → Consistent es content w
    → w.store.state.segments ≡ front ++ (e ∷ back)
    → is_behind (max from w.store.state.first_entry) (last_entry_id w.store) ≡ false
    → scan_start w.store (max from w.store.state.first_entry) ≡ some (e.id, offset)
    → content e.id ≡ pre ++ fs
    → All (λ f. f.0 < max from w.store.state.first_entry) pre
    → StartsAt (max from w.store.state.first_entry) fs
    → (reader : StoreReader) × (scan w.store w.disk from ≡ some reader)
      × (drain (suc (length (fs ++ log_of content back))) w.disk w.store.state reader
          ≡ some (fs ++ log_of content back))
unfolding scan
scan-drain es content w from offset front back e pre fs c same visible start split below starts =
    let target = max from w.store.state.first_entry in
    (
      seek_in w.disk target (e.id, offset),
      ground arith,
      seek_in-drain w.disk w.store.state content c.held c.apart front back e same target offset pre
          fs (suc (length (fs ++ log_of content back))) split below starts (omega arith),
    )
