-- ===== src/Frame/After.antt =====
-- `scan_to_after` (src/frame.rs) over frames that `write` wrote.
use woodshed.Base.{
  ℕ, suc, ◌+◌, ◌≡◌, ◌≢◌, ap, ◌∙◌, List, [], ◌∷◌, ◌++◌, some, arith, length, All, ok, err,
}
use woodshed.Hash.{Hasher}
use woodshed.Frame.Format.{checksum, frame_bytes, Fits, header_id-header, header_payload_len-header}
use woodshed.Frame.Scanner.{
  FrameScanner, truncated, stop_after, after_step, after_loop, scan_to_after, Run,
}
use woodshed.Frame.Scanner.Step.{at, peek_header_end}
use woodshed.Frame.Frames.{
  Frame, frame_size, frames_size, frames_bytes, frames_bytes-cons, more, spare, more_enough,
}
use woodshed.Frame.Seek.{consume_lem, peek_header-frame}

module _ ⦃h : Hasher⦄ (target : ℕ) where
  after_loop-frame :
      (k id : ℕ) (payload rest : List ℕ) (pos : ℕ)
      → Fits (id, payload)
      → after_loop (suc k) target (at (frame_bytes id payload ++ rest) pos)
        ≡ stop_after target id (after_loop k target) (at rest (pos + frame_size (id, payload)))
  unfolding after_loop
  after_loop-frame k id payload rest pos fits =
      ap (λ r. after_step target r (after_loop k target)) (peek_header-frame id payload rest pos)
      ∙ ground (
        arith,
        header_id-header id (length payload) (checksum id payload),
        header_payload_len-header id (length payload) (checksum id payload),
        consume_lem payload rest pos,
      )

  stop_after-skip :
      (id : ℕ) (next : FrameScanner → Run ℕ) (s : FrameScanner)
      → id ≢ target
      → stop_after target id next s ≡ next s
  unfolding stop_after
  stop_after-skip id next s ne = ground arith

  after_loop_end :
      (k pos : ℕ) → after_loop (suc k) target (at [] pos) ≡ some (err (truncated pos), at [] pos)
  unfolding after_loop
  after_loop_end k pos = ap (λ r. after_step target r (after_loop k target)) (peek_header_end pos)

  after_loop-frames :
      (fs : List Frame) (k pos : ℕ) (tail : List ℕ)
      → All Fits fs
      → All (λ f. f.0 ≢ target) fs
      → after_loop (more fs k) target (at (frames_bytes fs ++ tail) pos)
        ≡ after_loop k target (at tail (pos + frames_size fs))
  after_loop-frames [] k pos tail fits other = unfold frames_bytes in ground arith
  after_loop-frames ((id, payload) ∷ fs) k pos tail (fit, fits) (ne, other) =
      ap (λ t. after_loop (suc (more fs k)) target (at t pos))
        (frames_bytes-cons id payload fs tail)
      ∙ after_loop-frame (more fs k) id payload (frames_bytes fs ++ tail) pos fit
      ∙ stop_after-skip id _ _ ne
      ∙ after_loop-frames fs k (pos + frame_size (id, payload)) tail fits other
      ∙ ground arith

  scan_to_after-more :
      (fs : List Frame) (tail : List ℕ) (pos : ℕ)
      → scan_to_after target (at (frames_bytes fs ++ tail) pos)
        ≡ after_loop (more fs (spare fs tail)) target (at (frames_bytes fs ++ tail) pos)
  unfolding scan_to_after
  scan_to_after-more fs tail pos =
      ap (λ n. after_loop n target (at (frames_bytes fs ++ tail) pos)) (more_enough fs tail)

  -- Over written frames with other ids and then a frame with the target's id, `scan_to_after`
  -- gives the position behind that frame, counted from the position that the scanner was given.
  pub scan_to_after-frame :
      (fs : List Frame) (payload rest : List ℕ) (pos : ℕ)
      → All Fits fs
      → All (λ f. f.0 ≢ target) fs
      → Fits (target, payload)
      → scan_to_after target (at (frames_bytes fs ++ (frame_bytes target payload ++ rest)) pos)
        ≡ some (
          ok (pos + frames_size fs + frame_size (target, payload)),
          at rest (pos + frames_size fs + frame_size (target, payload)),
        )
  scan_to_after-frame fs payload rest pos fits other fit =
      scan_to_after-more fs (frame_bytes target payload ++ rest) pos
      ∙ after_loop-frames fs _ pos (frame_bytes target payload ++ rest) fits other
      ∙ after_loop-frame _ target payload rest (pos + frames_size fs) fit
      ∙ (unfold stop_after in ground arith)

  -- Where the file has written frames alone and none has the target's id, `scan_to_after` fails
  -- with a truncation at the end of the file.
  pub scan_to_after_end :
      (fs : List Frame) (pos : ℕ)
      → All Fits fs
      → All (λ f. f.0 ≢ target) fs
      → scan_to_after target (at (frames_bytes fs ++ []) pos)
        ≡ some (err (truncated (pos + frames_size fs)), at [] (pos + frames_size fs))
  scan_to_after_end fs pos fits other =
      scan_to_after-more fs [] pos
      ∙ after_loop-frames fs _ pos [] fits other
      ∙ after_loop_end _ (pos + frames_size fs)
