-- ===== src/Store/Torn.antt =====
-- Opening a store (src/store.rs) whose active segment ends in a frame that is cut or of a wrong checksum.
use woodshed.Base.{
  ℕ, ◌+◌, ◌≡◌, ◌⊎◌, refl, inl, inr, ap, ◌∙◌, false, List, [], ◌++◌, some, ok, arith, ==_refl,
}
use woodshed.Base.Dict.{lookup, insert, lookup-insert, insert-insert}
use woodshed.Hash.{Hasher}
use woodshed.Yatlv.{Yatlv}
use woodshed.File.{set_len-append}
use woodshed.Files
use woodshed.Files.{Disk, magic_len, segment_magic}
use woodshed.Frame.Frames.{frames_size, length-frames_bytes}
use woodshed.Frame.Summary.{ScanStatus}
use woodshed.Frame.Summary.Verdict.{Ends, at_end, cut_header, cut_payload, bad_checksum}
use woodshed.Recovery
use woodshed.Recovery.Single.{attempt_recovery-one}
use woodshed.Recovery.{attempt_recovery, cut_segment}
use woodshed.State.{SegmentId, ManifestOp}
use woodshed.Scan.Segments.{Content, segment_content}
use woodshed.Scan.Torn.{IsBroken, torn_issue, torn_disk, open_segment-torn}
use woodshed.Scan.TornStore.{scan_torn_lem}
use woodshed.Store.{World}
use woodshed.Store.Open.{open_store}
use woodshed.Store.Reopen.{reopened, open_store-mended, is_live-nonempty}
use woodshed.Store.Consistent.{Consistent}
use woodshed.Store.Keeps.Write.{active_is_live, active_unsealed}

-- A file ends with its frames, or it is broken.
pub Ends-cases :
    ⦃h : Hasher⦄
    → {tail : List ℕ} {status : ScanStatus} → Ends tail status
    → (tail ≡ []) ⊎ IsBroken status
Ends-cases at_end = inl refl
Ends-cases (cut_header short) = inr tt
Ends-cases (cut_payload hdr part n short) = inr tt
Ends-cases (bad_checksum hdr payload rest n m bad) = inr tt

module _ ⦃h : Hasher⦄ ⦃y : Yatlv⦄ (es : List ManifestOp) (content : Content) (w : World)
    (c : Consistent es content w) (tail : List ℕ) {status : ScanStatus} (ends : Ends tail status)
    (broken : IsBroken status) where
  abbrev id : SegmentId
  id = w.store.active_id

  abbrev pub torn : Disk
  torn =
      torn_disk w.store.state w.disk content c.held id tail ends broken
        (active_is_live es content w c) (active_unsealed es content w c)

  torn_file : lookup id torn.segments ≡ some (segment_content (content id) ++ tail)
  torn_file = ground (
    arith,
    ==_refl id,
    lookup-insert id id (segment_content (content id) ++ tail) w.disk.segments,
  )

  -- The file is cut where its frames end.
  abbrev mended : Disk
  mended = record w.disk { segments = insert id (segment_content (content id)) w.disk.segments }

  cut_segment-torn : cut_segment id (magic_len + frames_size (content id)) torn ≡ (ok tt, mended)
  unfolding cut_segment Files.put_segment
  cut_segment-torn = ground (
    arith,
    open_segment-torn torn id (content id) tail torn_file
        (c.held.fits id (active_is_live es content w c)) ends broken,
    set_len-append (segment_content (content id)) tail (magic_len + frames_size (content id))
        (omega (arith, length-frames_bytes (content id))),
    insert-insert id (segment_content (content id)) (segment_content (content id) ++ tail)
        w.disk.segments,
  )

  recovery-torn : attempt_recovery (torn_issue id (content id)) false torn ≡ (ok tt, mended)
  unfolding Recovery.create_fix_up Recovery.fix_up_for Recovery.segment_id Recovery.apply
  recovery-torn = attempt_recovery-one _ _ false torn mended refl refl cut_segment-torn

  -- The active segment's file already has the frames.
  mended_same :
      insert id (segment_content (content id)) w.disk.segments ≡ w.disk.segments → mended ≡ w.disk
  mended_same e = ap (λ l. record w.disk { segments = l }) e

  pub open_store-torn :
      (trigger : ℕ)
      → insert id (segment_content (content id)) w.disk.segments ≡ w.disk.segments
      → open_store trigger torn ≡ (ok (reopened trigger es content w c), w.disk)
  open_store-torn trigger e =
      open_store-mended trigger es content w c torn _ []
        (scan_torn_lem w.store.state w.disk content c.held id tail ends broken
          (active_is_live es content w c) (active_unsealed es content w c) es c.apart
          c.recorded.there c.recorded.holds c.recorded.carried c.recorded.replays
          (is_live-nonempty id w.store.state.segments (active_is_live es content w c)))
        (recovery-torn ∙ ap (λ d. (ok tt, d)) (mended_same e))
