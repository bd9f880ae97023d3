-- ===== src/Store/Drain.antt =====
-- A client that reads every entry of a store with `StoreReader::next` (src/store.rs).
use woodshed.Base.{
  ℕ, zero, suc, ◌<◌, ◌≡◌, refl, sym, ap, ap₂, subst, ◌∙◌, true, List, [], ◌∷◌, ◌++◌, append_assoc,
  length, length-append, All, Option, none, some, Result, ok, err, arith, ==_refl,
}
use woodshed.Hash.{Hasher}
use woodshed.File
use woodshed.Files.{Disk, magic_len}
use woodshed.Frame.Format.{Fits}
use woodshed.Frame.Frames.{Frame, frames_bytes}
use woodshed.Frame.Scanner
use woodshed.Frame.Scanner.{FrameReader, ScanError, ReadError, read_to_end, drop_reader}
use woodshed.Frame.Scanner.Step.{at}
use woodshed.Frame.Payload.{reading, read-frame, read_end, read_to_end_lem}
use woodshed.State.{StoreState, SegmentEntry, SegmentId, is_live}
use woodshed.State.View.{is_live-append}
use woodshed.Scan.Segments.{Content, Held, open_segment-content}
use woodshed.Store.Read.{
  Item, StoreReader, Position, nothing, ended, entry, next_segment, advance, next_step, next_loop,
  next,
}
use woodshed.Store.Reader.{Apart}
use woodshed.Store.Order.{is_live-here}
use woodshed.Store.Log.{log_of}

-- The entry's reader is read to the end and dropped, and the scanner goes on.
abbrev pub dropped : SegmentId → FrameReader → StoreReader
dropped id r = record { scanner = some (id, drop_reader (read_to_end r).1) }

abbrev pub frame_of : FrameReader → Result ReadError (List ℕ) → Option Frame
frame_of r (ok payload) = some (r.id, payload)
frame_of r (err _) = none

abbrev pub in_front : Option Frame → Option (List Frame) → Option (List Frame)
in_front (some f) (some fs) = some (f ∷ fs)
in_front _ _ = none

abbrev pub drain_item : Option Item → (StoreReader → Option (List Frame)) → Option (List Frame)
drain_item (some (ended _)) go = some []
drain_item (some (entry id r)) go = in_front (frame_of r (read_to_end r).0) (go (dropped id r))
drain_item _ go = none

-- `next` until it gives the end, on fuel; `none` where it gives an error or there is no fuel left.
unfoldable pub drain : ℕ → Disk → StoreState → StoreReader → Option (List Frame)
drain zero d state reader = none
drain (suc fuel) d state reader = drain_item (next d state reader) (drain fuel d state)

next_segment-middle :
    (front back : List SegmentEntry) (e : SegmentEntry)
    → Apart (front ++ (e ∷ back))
    → next_segment e.id (front ++ (e ∷ back)) ≡ (elim back [ [] ↦ none | n ∷ _ ↦ some n.id ])
unfolding next_segment
next_segment-middle [] [] e a = ground (arith, ==_refl e.id)
next_segment-middle [] (x ∷ back) e a = ground (arith, ==_refl e.id)
next_segment-middle (x ∷ front) back e (p, a) = ground (
  arith,
  next_segment-middle front back e a,
  p,
  is_live-append x.id front (e ∷ back),
  is_live-here e back,
)

module _ ⦃h : Hasher⦄ (d : Disk) (state : StoreState) (content : Content)
    (held : Held state d.segments content) where
  -- A reader that stands before the frames `fs` of a segment.
  abbrev pub before : SegmentId → List Frame → ℕ → Position
  before id fs pos = (id, at (frames_bytes fs) pos)

  -- What `next` gives there, where the segments `back` follow.
  unfoldable pub first_item : SegmentId → List Frame → ℕ → List SegmentEntry → Item
  first_item id ((i, payload) ∷ fs) pos back =
      entry id (reading i (length payload) pos (payload ++ frames_bytes fs))
  first_item id [] pos [] = ended nothing
  first_item id [] pos (e ∷ back) = first_item e.id (content e.id) magic_len back

  next_step-frame :
      (id i : ℕ) (payload : List ℕ) (fs : List Frame) (pos : ℕ) (go : Position → Option Item)
      → Fits (i, payload)
      → next_step d state id (Scanner.read (at (frames_bytes ((i, payload) ∷ fs)) pos)) go
        ≡ some (entry id (reading i (length payload) pos (payload ++ frames_bytes fs)))
  unfolding next_step frames_bytes
  next_step-frame id i payload fs pos go fit =
      ap (λ r. next_step d state id r go) (read-frame i payload (frames_bytes fs) pos fit)

  advance-content :
      (id : SegmentId)
      → is_live id state.segments ≡ true
      → advance d (some id) ≡ ok (before id (content id) magic_len)
  unfolding advance Scanner.new File.unread
  advance-content id live =
      ground (arith, open_segment-content d id (content id) (held.files id live))

  -- The end of a segment with none behind it, and with one.
  next_step-last :
      (id pos : ℕ) (go : Position → Option Item)
      → next_segment id state.segments ≡ none
      → next_step d state id (Scanner.read (at (frames_bytes []) pos)) go ≡ some (ended nothing)
  unfolding next_step advance frames_bytes
  next_step-last id pos go e = ap (λ r. next_step d state id r go) (read_end pos) ∙ ground arith

  next_step-more :
      (id n pos : ℕ) (go : Position → Option Item)
      → next_segment id state.segments ≡ some n
      → is_live n state.segments ≡ true
      → next_step d state id (Scanner.read (at (frames_bytes []) pos)) go
        ≡ go (before n (content n) magic_len)
  unfolding next_step frames_bytes
  next_step-more id n pos go e live =
      ap (λ r. next_step d state id r go) (read_end pos)
      ∙ ground (arith, ap (advance d) e, advance-content n live)

  pub behind_live :
      (front back : List SegmentEntry) (e : SegmentEntry)
      → state.segments ≡ front ++ (e ∷ back)
      → is_live e.id state.segments ≡ true
  behind_live front back e same =
      ground
        (arith, ap (is_live e.id) same, is_live-append e.id front (e ∷ back), is_live-here e back)

  shifted :
      (front back : List SegmentEntry) (e x : SegmentEntry)
      → state.segments ≡ front ++ (e ∷ x ∷ back)
      → state.segments ≡ (front ++ (e ∷ [])) ++ (x ∷ back)
  shifted front back e x same = same ∙ sym (append_assoc front (e ∷ []) (x ∷ back))

  next_loop-first :
      (back front : List SegmentEntry) (e : SegmentEntry) (fs : List Frame) (pos fuel : ℕ)
      → state.segments ≡ front ++ (e ∷ back)
      → Apart state.segments
      → All Fits fs
      → length back < fuel
      → next_loop fuel d state (before e.id fs pos) ≡ some (first_item e.id fs pos back)
  unfolding next_loop first_item
  next_loop-first back front e fs pos zero same a fits lt = absurd (omega arith)
  next_loop-first back front e ((i, payload) ∷ fs) pos (suc fuel) same a (fit, fits) lt =
      next_step-frame e.id i payload fs pos (next_loop fuel d state) fit
  next_loop-first [] front e [] pos (suc fuel) same a fits lt =
      next_step-last e.id pos (next_loop fuel d state)
        (ap (next_segment e.id) same ∙ next_segment-middle front [] e (subst Apart same a))
  next_loop-first (x ∷ back) front e [] pos (suc fuel) same a fits lt =
      let live = behind_live (front ++ (e ∷ [])) back x (shifted front back e x same) in
      next_step-more e.id x.id pos (next_loop fuel d state)
        (ap (next_segment e.id) same ∙ next_segment-middle front (x ∷ back) e (subst Apart same a))
        live
      ∙ next_loop-first back (front ++ (e ∷ [])) x (content x.id) magic_len fuel
          (shifted front back e x same) a (held.fits x.id live) (omega arith)

  pub next-first :
      (back front : List SegmentEntry) (e : SegmentEntry) (fs : List Frame) (pos : ℕ)
      → state.segments ≡ front ++ (e ∷ back)
      → Apart state.segments
      → All Fits fs
      → next d state (record { scanner = some (before e.id fs pos) })
        ≡ some (first_item e.id fs pos back)
  unfolding next
  next-first back front e fs pos same a fits =
      next_loop-first back front e fs pos (suc (length state.segments)) same a fits
        (omega (arith, ap length same, length-append front (e ∷ back)))

  -- Reading goes on in the next segment.
  drain-shift :
      (fuel : ℕ) (back front : List SegmentEntry) (e x : SegmentEntry) (pos : ℕ)
      → state.segments ≡ front ++ (e ∷ x ∷ back)
      → Apart state.segments
      → drain fuel d state (record { scanner = some (before e.id [] pos) })
        ≡ drain fuel d state (record { scanner = some (before x.id (content x.id) magic_len) })
  unfolding drain first_item
  drain-shift zero back front e x pos same a = refl
  drain-shift (suc fuel) back front e x pos same a =
      ap (λ o. drain_item o (drain fuel d state))
        (next-first (x ∷ back) front e [] pos same a tt
          ∙ sym (
              next-first back (front ++ (e ∷ [])) x (content x.id) magic_len
                (shifted front back e x same) a
                (held.fits x.id
                  (behind_live (front ++ (e ∷ [])) back x (shifted front back e x same)))))

  -- The frames that are left of a segment come first.
  module _ (back front : List SegmentEntry) (e : SegmentEntry) (rest : List Frame)
      (same : state.segments ≡ front ++ (e ∷ back)) (apart : Apart state.segments)
      (end : (pos fuel : ℕ)
        → length rest < fuel
        → drain fuel d state (record { scanner = some (before e.id [] pos) }) ≡ some rest) where
    pub drain-frames :
        (fs : List Frame) (pos fuel : ℕ)
        → All Fits fs
        → length (fs ++ rest) < fuel
        → drain fuel d state (record { scanner = some (before e.id fs pos) }) ≡ some (fs ++ rest)
    unfolding drain first_item
    drain-frames [] pos fuel fits lt = end pos fuel lt
    drain-frames ((i, payload) ∷ fs) pos zero fits lt = absurd (omega arith)
    drain-frames ((i, payload) ∷ fs) pos (suc fuel) (fit, fits) lt =
        let r = reading i (length payload) pos (payload ++ frames_bytes fs) in
        let (whole, behind) = read_to_end_lem i pos payload (frames_bytes fs) in
        ap (λ o. drain_item o (drain fuel d state))
          (next-first back front e ((i, payload) ∷ fs) pos same apart (fit, fits))
        ∙ ap₂ in_front (ap (frame_of r) whole) (
            ap (λ s. drain fuel d state (record { scanner = some (e.id, s) })) behind
            ∙ drain-frames fs _ fuel fits (omega arith))

  pub drain-rest :
      (back front : List SegmentEntry) (e : SegmentEntry)
      → state.segments ≡ front ++ (e ∷ back)
      → Apart state.segments
      → (pos fuel : ℕ) → length (log_of content back) < fuel
      → drain fuel d state (record { scanner = some (before e.id [] pos) })
        ≡ some (log_of content back)
  unfolding log_of drain first_item
  drain-rest [] front e same a pos zero lt = absurd (omega arith)
  drain-rest [] front e same a pos (suc fuel) lt =
      ap (λ o. drain_item o (drain fuel d state)) (next-first [] front e [] pos same a tt)
  drain-rest (x ∷ back) front e same a pos fuel lt =
      let s = shifted front back e x same in
      drain-shift fuel back front e x pos same a
      ∙ drain-frames back (front ++ (e ∷ [])) x (log_of content back) s a
          (drain-rest back (front ++ (e ∷ [])) x s a) (content x.id) magic_len fuel
          (held.fits x.id (behind_live (front ++ (e ∷ [])) back x s)) lt
