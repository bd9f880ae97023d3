-- ===== src/Store/Log.antt =====
-- The entries of a store (src/store.rs) as one log: the frames of the live segments in their order.
use woodshed.Base.{
  ◌≡◌, refl, sym, ap, ◌∙◌, false, List, [], ◌∷◌, ◌++◌, append-nil, append_assoc, some, arith,
  ==_refl,
}
use woodshed.Frame.Frames.{Frame}
use woodshed.State.{SegmentEntry, SegmentId, is_live}
use woodshed.Scan.Segments.{Content}
use woodshed.Store.Reader.{Apart}
use woodshed.Store.Order.{tip, tip-is_live}
use woodshed.Store.Keeps.Held.{update}

-- The frames of the segments one after the other.
unfoldable pub log_of : Content → List SegmentEntry → List Frame
log_of content [] = []
log_of content (e ∷ es) = content e.id ++ log_of content es

pub log_of-append :
    (content : Content) (es fs : List SegmentEntry)
    → log_of content (es ++ fs) ≡ log_of content es ++ log_of content fs
unfolding log_of
log_of-append content [] fs = refl
log_of-append content (e ∷ es) fs =
    ap (λ l. content e.id ++ l) (log_of-append content es fs)
    ∙ sym (append_assoc (content e.id) (log_of content es) (log_of content fs))

module _ (content : Content) where
  -- The frames of a segment that is not in the list do not matter.
  pub log_of-update :
      (id : SegmentId) (fs : List Frame) (es : List SegmentEntry)
      → is_live id es ≡ false
      → log_of (update content id fs) es ≡ log_of content es
  unfolding log_of is_live
  log_of-update id fs [] n = refl
  log_of-update id fs (e ∷ es) n = ground (arith, log_of-update id fs es)

  -- A batch behind the frames of the last segment is behind the log.
  pub log_of-write :
      (id : SegmentId) (batch : List Frame) (es : List SegmentEntry)
      → Apart es
      → tip es ≡ some id
      → log_of (update content id (content id ++ batch)) es ≡ log_of content es ++ batch
  unfolding log_of tip
  log_of-write id batch [] a t = absurd (ground arith)
  log_of-write id batch (e ∷ []) a t =
      ground (arith, append-nil (content id ++ batch), append-nil (content id))
  log_of-write id batch (e ∷ x ∷ es) (p, a) t = ground (
    arith,
    log_of-write id batch (x ∷ es) a t,
    append_assoc (content e.id) (log_of content (x ∷ es)) batch,
    p,
    tip-is_live (x ∷ es) id t,
  )

  -- The log around an entry of the segment `e`.
  pub log_of-middle :
      (front back : List SegmentEntry) (e : SegmentEntry) (before after : List Frame) (f : Frame)
      → content e.id ≡ before ++ (f ∷ after)
      → log_of content (front ++ (e ∷ back))
        ≡ (log_of content front ++ before) ++ (f ∷ (after ++ log_of content back))
  unfolding log_of
  log_of-middle front back e before after f same =
      log_of-append content front (e ∷ back)
      ∙ ap (λ l. log_of content front ++ (l ++ log_of content back)) same
      ∙ ap (λ l. log_of content front ++ l) (append_assoc before (f ∷ after) (log_of content back))
      ∙ sym (append_assoc (log_of content front) before (f ∷ (after ++ log_of content back)))

  -- The log where the segment `e` is the last and ends with the entry.
  pub log_of-cut :
      (front : List SegmentEntry) (e : SegmentEntry) (before : List Frame) (f : Frame)
      → is_live e.id front ≡ false
      → log_of (update content e.id (before ++ (f ∷ []))) (front ++ (e ∷ []))
        ≡ (log_of content front ++ before) ++ (f ∷ [])
  unfolding log_of
  log_of-cut front e before f n =
      let kept = before ++ (f ∷ []) in
      ground (
        arith,
        log_of-append (update content e.id kept) front (e ∷ []),
        log_of-update e.id kept front n,
        append-nil kept,
        append_assoc (log_of content front) before (f ∷ []),
        ==_refl e.id,
      )
