-- ===== src/Store/Crash.antt =====
-- Opening a store (src/store.rs) after a crash inside a batch, or with other bytes behind its frames.
pub mod Append
pub mod Orphan
pub mod Deleted
pub mod Reached
use woodshed.Base.{
  ℕ, ◌+◌, ◌≡◌, ◌⊎◌, refl, inl, inr, sym, ap, subst, ◌∙◌, false, List, [], ◌++◌, append-nil,
  append_assoc, take, All, All-split, some, ok, arith, ==_refl,
}
use woodshed.Base.Dict.{lookup, insert, lookup-insert, insert-insert}
use woodshed.Hash.{Hasher}
use woodshed.Yatlv.{Yatlv}
use woodshed.File.{set_len-append}
use woodshed.Files
use woodshed.Files.{Disk, magic_len, segment_magic}
use woodshed.Frame.Format.{Fits}
use woodshed.Frame.Frames.{Frame, frames_size, frames_bytes, length-frames_bytes}
use woodshed.Frame.Summary.{ScanStatus}
use woodshed.Frame.Summary.Verdict.{Ends, at_end, cut_header, cut_payload, bad_checksum}
use woodshed.Frame.Partial.{Behind, frames-Partial}
use woodshed.Frame.Split.{Parts, split_file}
use woodshed.Base.Bytes.{IsByte}
use woodshed.Issue
use woodshed.Recovery
use woodshed.Recovery.Single.{attempt_recovery-one}
use woodshed.Recovery.{attempt_recovery, cut_segment}
use woodshed.State.{SegmentId, ManifestOp}
use woodshed.Scan.Segments.{Content, segment_content}
use woodshed.Scan.Torn.{IsBroken, torn_issue, torn_disk, open_segment-torn}
use woodshed.Scan.TornStore.{scan_torn_lem}
use woodshed.Store.{Store, World}
use woodshed.Store.Open.{open_store, rescan}
use woodshed.Store.Batch.{after_batch, frames_bytes-append}
use woodshed.Store.Reopen.{
  reopened, reopened-Consistent, open_store-mended, open_store-Consistent, is_live-nonempty,
}
use woodshed.Store.Consistent.{Consistent}
use woodshed.Store.Keeps.Held.{update_self}
use woodshed.Store.Keeps.Write.{appended, active_is_live, active_unsealed, after_batch-Consistent}
use woodshed.Store.Torn.{Ends-cases, torn, open_store-torn}

module _ ⦃h : Hasher⦄ ⦃y : Yatlv⦄ (es : List ManifestOp) (content : Content) (w : World)
    (c : Consistent es content w) where
  -- The disk where more bytes stand behind the frames of the active segment.
  abbrev pub crashed : List ℕ → Disk
  crashed more = record w.disk {
    segments =
        insert w.store.active_id (segment_content (content w.store.active_id) ++ more)
          w.disk.segments;
  }

  module _ (more : List ℕ) (p : Parts more) where
    abbrev after : World
    after = after_batch w.store w.disk (content w.store.active_id) c.logs 0 p.frames

    abbrev after_content : Content
    after_content = appended es content w c p.frames

    after-Consistent : Consistent es after_content after
    after-Consistent = after_batch-Consistent es content w c 0 p.frames p.fits

    file_lem :
        segment_content (after_content w.store.active_id) ++ p.tail
        ≡ segment_content (content w.store.active_id) ++ more
    file_lem =
        let fs = content w.store.active_id in
        ap (λ l. segment_content l ++ p.tail)
          (update_self content w.store.active_id (fs ++ p.frames))
        ∙ ap (λ l. segment_magic ++ (l ++ p.tail)) (frames_bytes-append fs p.frames)
        ∙ ap (λ l. segment_magic ++ l)
            (append_assoc (frames_bytes fs) (frames_bytes p.frames) p.tail)
        ∙ ap (λ l. segment_magic ++ (frames_bytes fs ++ l)) (sym p.whole)

    -- The file with the whole frames.
    whole_file :
        insert w.store.active_id (segment_content (after_content w.store.active_id)) w.disk.segments
        ≡ after.disk.segments
    whole_file =
        ap (λ l. insert w.store.active_id l w.disk.segments)
          (ap segment_content
              (update_self content w.store.active_id (content w.store.active_id ++ p.frames))
            ∙ ap (λ l. segment_magic ++ l)
                (frames_bytes-append (content w.store.active_id) p.frames))

    after_file :
        insert w.store.active_id
          (segment_content (after_content w.store.active_id))
          after.disk.segments
        ≡ after.disk.segments
    after_file =
        insert-insert w.store.active_id (segment_content (after_content w.store.active_id)) _
          w.disk.segments
        ∙ whole_file

    torn_same :
        (broken : IsBroken p.status)
        → torn es after_content after after-Consistent p.tail p.ends broken ≡ crashed more
    torn_same broken =
        ap (λ l. record w.disk { segments = l })
          (insert-insert w.store.active_id
              (segment_content (after_content w.store.active_id) ++ p.tail) _ w.disk.segments
            ∙ ap (λ l. insert w.store.active_id l w.disk.segments) file_lem)

    clean_same : p.tail ≡ [] → crashed more ≡ after.disk
    clean_same none_left =
        ap (λ l. record w.disk { segments = l })
          (ap (λ l. insert w.store.active_id l w.disk.segments)
              (sym file_lem
                ∙ ap (λ t. segment_content (after_content w.store.active_id) ++ t) none_left
                ∙ append-nil (segment_content (after_content w.store.active_id)))
            ∙ whole_file)

    reopened_end :
        (trigger : ℕ)
        → (p.tail ≡ []) ⊎ IsBroken p.status
        → (s : Store) × (open_store trigger (crashed more) ≡ (ok s, after.disk))
          × Consistent es after_content (record { store = s; disk = after.disk })
    reopened_end trigger (inl none_left) =
        let (s, run, agrees, _, _, _, _, _) =
          open_store-Consistent trigger es after_content after after-Consistent in
        (s, ap (open_store trigger) (clean_same none_left) ∙ run, agrees)
    reopened_end trigger (inr broken) = (
      reopened trigger es after_content after after-Consistent,
      ap (open_store trigger) (sym (torn_same broken))
          ∙ open_store-torn es after_content after after-Consistent p.tail p.ends broken trigger
              after_file,
      reopened-Consistent trigger es after_content after after-Consistent,
    )

  -- Opening a store whose last batch, of frames that fit, reached the active segment's file with any
  -- number of its bytes, and nothing else changed, succeeds without an approval: the store agrees
  -- with the disk that opening leaves, the active segment holds the frames that it held and the
  -- first of the batch's, and the rest of the batch is lost, whose first frame did not reach the
  -- file in whole.
  pub open_store-crashed :
      (batch : List Frame) (trigger k : ℕ)
      → All Fits batch
      → (kept lost : List Frame) × (batch ≡ kept ++ lost)
        × Behind k kept lost
        × (s : Store) × (d : Disk) × (open_store trigger (crashed (take k (frames_bytes batch)))
            ≡ (ok s, d))
        × Consistent es (appended es content w c kept) (record { store = s; disk = d })
  open_store-crashed batch trigger k fits =
      let q = frames-Partial batch k fits in
      let p : Parts (take k (frames_bytes batch)) = record {
        frames = q.written;
        tail = q.tail;
        status = q.status;
        whole = q.bytes;
        fits = (All-split Fits q.written q.lost (subst (All Fits) q.whole fits)).0;
        ends = q.ends;
      } in
      let more = take k (frames_bytes batch) in
      let (s, run, agrees) = reopened_end more p trigger (Ends-cases p.ends) in
      (q.written, q.lost, q.whole, q.beyond, s, (after more p).disk, run, agrees)

  -- Opening a store where any bytes stand behind the frames of the active segment's file, and nothing
  -- else changed, succeeds without an approval: the store agrees with the disk that opening leaves,
  -- the active segment holds the frames that it held and those that the bytes begin with, up to the end,
  -- a frame that is cut or the first of a wrong checksum.
  pub open_store-anything :
      (more : List ℕ) (trigger : ℕ)
      → All IsByte more
      → (p : Parts more) × (s : Store) × (d : Disk) × (open_store trigger (crashed more)
          ≡ (ok s, d))
        × Consistent es (appended es content w c p.frames) (record { store = s; disk = d })
  open_store-anything more trigger bytes =
      let p = split_file more bytes in
      let (s, run, agrees) = reopened_end more p trigger (Ends-cases p.ends) in
      (p, s, (after more p).disk, run, agrees)
