-- ===== src/Frame/Summary/Verdict.antt =====
-- The summary of `scan_all` (src/frame.rs) for every way in which a file can end.
use woodshed.Base.{
  ℕ, suc, ◌+◌, ◌<◌, ◌≡◌, ◌≢◌, refl, ap, ◌∙◌, List, [], ◌∷◌, ◌++◌, none, some, arith, length, All,
}
use woodshed.Hash.{Hasher}
use woodshed.Frame.Format.{
  header_len, header_id, header_payload_len, header_checksum, checksum, Fits,
}
use woodshed.Frame.Scanner.Step.{at}
use woodshed.Frame.Frames.{
  Frame, frames_size, frames_bytes, more, spare, more_enough, check_end, check_short, check_corrupt,
  check_cut,
}
use woodshed.Frame.Summary.{
  ScanStatus, ScanSummary, Progress, scan_step, finish, scan_loop, scan_all,
}
use woodshed.Frame.Summary.Loop.{marks, last_id_or, progress, scan_loop-frames}

-- What stands behind the last good frame, and the status that it gives.
pub data Ends ⦃h : Hasher⦄ : List ℕ → ScanStatus → Type 0 where
  at_end : Ends [] ScanStatus.clean
  cut_header :
      {b : ℕ} {bs : List ℕ} → length (b ∷ bs) < header_len → Ends (b ∷ bs) ScanStatus.torn_tail
  cut_payload :
      (hdr part : List ℕ)
      → length hdr ≡ header_len
      → length part < header_payload_len hdr
      → Ends (hdr ++ part) ScanStatus.torn_tail
  bad_checksum :
      (hdr payload rest : List ℕ)
      → length hdr ≡ header_len
      → length payload ≡ header_payload_len hdr
      → checksum (header_id hdr) payload ≢ header_checksum hdr
      → Ends (hdr ++ (payload ++ rest)) ScanStatus.checksum_corrupt

-- The summary of the frames `fs` from `pos` on.
abbrev pub summary : ℕ → ℕ → List Frame → ScanStatus → ScanSummary
summary stride pos fs status = record {
  count = length fs;
  checkpoints = marks stride 0 pos fs;
  last_id = last_id_or none fs;
  next_offset = pos + frames_size fs;
  status = status;
}

module _ ⦃h : Hasher⦄ (stride : ℕ) where
  -- The last round.
  Ends-round :
      {tail : List ℕ} {status : ScanStatus} (p : Progress) (pos k : ℕ)
      → p.last_good ≡ pos
      → Ends tail status
      → scan_loop (suc k) stride p (at tail pos) ≡ some (finish p pos status)
  unfolding scan_loop
  Ends-round p pos k e at_end = ap (λ r. scan_step stride p r (scan_loop k stride)) (check_end pos)
  Ends-round p pos k e (cut_header {b} {bs} n) =
      ap (λ r. scan_step stride p r (scan_loop k stride)) (check_short b bs pos n)
      ∙ ap (λ t. some (finish p t ScanStatus.torn_tail)) e
  Ends-round p pos k e (cut_payload hdr part l n) =
      ap (λ r. scan_step stride p r (scan_loop k stride)) (check_cut hdr part pos l n)
      ∙ ap (λ t. some (finish p t ScanStatus.torn_tail)) e
  Ends-round p pos k e (bad_checksum hdr payload rest l n bad) =
      ap (λ r. scan_step stride p r (scan_loop k stride))
        (check_corrupt hdr payload rest pos l n bad)
      ∙ ap (λ t. some (finish p t ScanStatus.checksum_corrupt)) e

  scan_all-more :
      (fs : List Frame) (tail : List ℕ) (pos : ℕ)
      → scan_all stride (at (frames_bytes fs ++ tail) pos)
        ≡ scan_loop
            (more fs (spare fs tail))
            stride
            (progress 0 [] none pos)
            (at (frames_bytes fs ++ tail) pos)
  unfolding scan_all
  scan_all-more fs tail pos =
      ap (λ n. scan_loop n stride (progress 0 [] none pos) (at (frames_bytes fs ++ tail) pos))
        (more_enough fs tail)

  finish-summary :
      (fs : List Frame) (pos : ℕ) (status : ScanStatus)
      → finish
          (progress
            (0 + length fs)
            ([] ++ marks stride 0 pos fs)
            (last_id_or none fs)
            (pos + frames_size fs))
          (pos + frames_size fs)
          status
        ≡ summary stride pos fs status
  unfolding finish
  finish-summary fs pos status = ground arith

  -- Scanning a file that holds written frames and then ends in one of the four ways gives the
  -- number of the frames, a checkpoint for each `stride`-th, the last id, the offset behind them
  -- and the status of the ending.
  pub scan_all-Ends :
      (fs : List Frame) {tail : List ℕ} {status : ScanStatus} (pos : ℕ)
      → All Fits fs
      → Ends tail status
      → scan_all stride (at (frames_bytes fs ++ tail) pos) ≡ some (summary stride pos fs status)
  scan_all-Ends fs {tail} {status} pos fits ends =
      scan_all-more fs tail pos
      ∙ scan_loop-frames stride fs _ 0 [] none pos tail fits
      ∙ Ends-round _ _ _ refl ends
      ∙ ap some (finish-summary fs pos status)
