-- ===== src/Frame/Summary/Loop.antt =====
-- `scan_all` (src/frame.rs) over frames that `write` wrote, whatever stands behind them.
use woodshed.Base.{
  ℕ, suc, ◌+◌, ◌%◌, ◌≡◌, refl, ap, ◌∙◌, List, [], ◌∷◌, ◌++◌, Option, some, arith, length, All, ◌==◌,
  if◌then◌else◌, append-nil, append_assoc,
}
use woodshed.Hash.{Hasher}
use woodshed.Frame.Format.{frame_bytes, Fits}
use woodshed.Frame.Scanner.Step.{at}
use woodshed.Frame.Frames.{
  Frame, frame_size, frames_size, frames_bytes, frames_bytes-cons, more, check-frame,
}
use woodshed.Frame.Summary.{Progress, scan_step, count_frame, scan_loop}

-- The id and the offset of each frame whose number is a multiple of `stride`, from number `i` on.
abbrev pub marks : ℕ → ℕ → ℕ → List Frame → List (ℕ × ℕ)
marks stride i pos [] = []
marks stride i pos ((id, payload) ∷ fs) =
    let rest = marks stride (i + 1) (pos + frame_size (id, payload)) fs in
    if i % stride == 0 then (id, pos) ∷ rest else rest

-- The id of the last frame.
abbrev pub last_id_or : Option ℕ → List Frame → Option ℕ
last_id_or last [] = last
last_id_or last ((id, payload) ∷ fs) = last_id_or (some id) fs

abbrev pub progress : ℕ → List (ℕ × ℕ) → Option ℕ → ℕ → Progress
progress count checkpoints last pos = record {
  count = count;
  checkpoints = checkpoints;
  last_id = last;
  last_good = pos;
}

module _ ⦃h : Hasher⦄ (stride : ℕ) where
  -- One round on a good frame.
  pub scan_loop-frame :
      (k : ℕ) (p : Progress) (id : ℕ) (payload rest : List ℕ) (pos : ℕ)
      → Fits (id, payload)
      → scan_loop (suc k) stride p (at (frame_bytes id payload ++ rest) pos)
        ≡ scan_loop k stride
            (count_frame stride p id pos (pos + frame_size (id, payload)))
            (at rest (pos + frame_size (id, payload)))
  unfolding scan_loop
  scan_loop-frame k p id payload rest pos fits =
      ap (λ r. scan_step stride p r (scan_loop k stride)) (check-frame id payload rest pos fits)

  -- The frames are counted one by one, and the loop goes on with what follows them.
  pub scan_loop-frames :
      (fs : List Frame) (k count : ℕ) (cps : List (ℕ × ℕ)) (last : Option ℕ) (pos : ℕ)
      (tail : List ℕ)
      → All Fits fs
      → scan_loop
          (more fs k)
          stride
          (progress count cps last pos)
          (at (frames_bytes fs ++ tail) pos)
        ≡ scan_loop k stride
            (progress
              (count + length fs)
              (cps ++ marks stride count pos fs)
              (last_id_or last fs)
              (pos + frames_size fs))
            (at tail (pos + frames_size fs))
  scan_loop-frames [] k count cps last pos tail fits =
      unfold frames_bytes in ground (arith, append-nil cps)
  scan_loop-frames ((id, payload) ∷ fs) k count cps last pos tail (fit, fits) =
      ap (λ t. scan_loop (suc (more fs k)) stride (progress count cps last pos) (at t pos))
        (frames_bytes-cons id payload fs tail)
      ∙ scan_loop-frame (more fs k) (progress count cps last pos) id payload
          (frames_bytes fs ++ tail) pos fit
      ∙ ap (λ q. scan_loop (more fs k) stride q (at (frames_bytes fs ++ tail) next)) counted
      ∙ scan_loop-frames fs k (count + 1) cps' (some id) next tail fits
      ∙ ground (arith, append_assoc cps ((id, pos) ∷ []) (marks stride (count + 1) next fs))
    where
      next : ℕ
      next = pos + frame_size (id, payload)

      cps' : List (ℕ × ℕ)
      cps' = if count % stride == 0 then cps ++ ((id, pos) ∷ []) else cps

      counted :
          count_frame stride (progress count cps last pos) id pos next
          ≡ progress (count + 1) cps' (some id) next
      counted = unfold count_frame in refl
