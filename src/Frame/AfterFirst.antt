-- ===== src/Frame/AfterFirst.antt =====
-- What `FrameScanner::scan_to_after` (src/frame.rs) finds in a segment's file.
use woodshed.Base.{
  ℕ, ◌+◌, ◌≡◌, ◌≢◌, sym, ap, subst, ◌∙◌, Bool-cases, inl, inr, List, [], ◌∷◌, ◌++◌, append-nil,
  append_assoc, All, All-append, some, Result, ok, err, arith, ◌==◌, ==_refl, if◌then◌else◌,
}
use woodshed.Hash.{Hasher}
use woodshed.Frame.Format.{Fits, frame_bytes}
use woodshed.Frame.Scanner.{FrameScanner, ScanError, truncated, scan_to_after}
use woodshed.Frame.Scanner.Step.{at}
use woodshed.Frame.Frames.{Frame, frame_size, frames_size, frames_bytes}
use woodshed.Frame.After.{scan_to_after-frame, scan_to_after_end}
use woodshed.State.{EntryId}
use woodshed.Store.Batch.{frames_bytes-append, frames_size-append}

module _ ⦃h : Hasher⦄ (target : EntryId) where
  -- The end of the first frame with the id, and the scanner there.
  abbrev pub after_first : List Frame → ℕ → Result ScanError ℕ × FrameScanner
  after_first [] pos = (err (truncated pos), at [] pos)
  after_first (f ∷ fs) pos =
      let rest = after_first fs (pos + frame_size f) in
      if f.0 == target
      then (ok (pos + frame_size f), at (frames_bytes fs) (pos + frame_size f))
      else rest

  here :
      (pre fs : List Frame) (payload : List ℕ) (pos : ℕ)
      → All Fits pre
      → All (λ f. f.0 ≢ target) pre
      → Fits (target, payload)
      → scan_to_after target
          (at (frames_bytes pre ++ (frame_bytes target payload ++ frames_bytes fs)) pos)
        ≡ some (after_first ((target, payload) ∷ fs) (pos + frames_size pre))
  here pre fs payload pos fits other fit = ground (
    arith,
    scan_to_after-frame target pre payload (frames_bytes fs) pos fits other fit,
    ==_refl target,
  )

  after_frames :
      (pre fs : List Frame) (pos : ℕ)
      → All Fits pre
      → All (λ f. f.0 ≢ target) pre
      → All Fits fs
      → scan_to_after target (at (frames_bytes (pre ++ fs)) pos)
        ≡ some (after_first fs (pos + frames_size pre))
  unfolding frames_bytes
  after_frames pre [] pos fits other fits' =
      ap (λ b. scan_to_after target (at b pos))
        (ap frames_bytes (append-nil pre) ∙ sym (append-nil (frames_bytes pre)))
      ∙ scan_to_after_end target pre pos fits other
  after_frames pre ((id, payload) ∷ fs) pos fits other (fit, fits') =
      elim (Bool-cases (id == target)) [
        | inl same ↦
            ap (λ b. scan_to_after target (at b pos)) (frames_bytes-append pre ((id, payload) ∷ fs))
            ∙ subst
                (λ i.
                  scan_to_after target
                    (at (frames_bytes pre ++ (frame_bytes i payload ++ frames_bytes fs)) pos)
                  ≡ some (after_first ((i, payload) ∷ fs) (pos + frames_size pre)))
                (ground arith)
                (here pre fs payload pos fits other
                  (subst (λ i. Fits (i, payload)) (ground arith) fit))
        | inr apart ↦
            let one : List Frame = (id, payload) ∷ [] in
            let behind : pos + frames_size (pre ++ one)
                ≡ pos + frames_size pre + frame_size (id, payload) =
              omega (arith, frames_size-append pre one) in
            ap (λ l. scan_to_after target (at (frames_bytes l) pos)) (sym (append_assoc pre one fs))
            ∙ after_frames (pre ++ one) fs pos (All-append Fits pre one fits (fit, tt))
                (All-append (λ f. f.0 ≢ target) pre one other
                  ((λ e. absurd (ground (arith, e))), tt))
                fits'
            ∙ ap (λ n. some (after_first fs n)) behind
            ∙ ground arith
      ]

  -- In a file of frames that fit, `scan_to_after` gives the position behind the first frame with the id,
  -- counted from the position that the scanner was given, and stands there; where there is none it
  -- fails with a truncation at the end of the file.
  pub scan_to_after-first :
      (fs : List Frame) (pos : ℕ)
      → All Fits fs
      → scan_to_after target (at (frames_bytes fs) pos) ≡ some (after_first fs pos)
  scan_to_after-first fs pos fits =
      after_frames [] fs pos tt tt fits ∙ ap (λ n. some (after_first fs n)) (omega arith)
