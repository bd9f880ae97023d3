-- ===== src/Frame/Summary.antt =====
-- `scan_all` of src/frame.rs: every frame checked, with a checkpoint at each `stride`-th.
pub mod Loop
pub mod Verdict
use woodshed.Base.{
  ℕ, zero, suc, ◌+◌, ◌%◌, List, [], ◌∷◌, ◌++◌, Option, none, some, Result, ok, err, length, ◌==◌,
  if◌then◌else◌,
}
use woodshed.Hash.{Hasher}
use woodshed.Frame.Scanner.{FrameScanner, ScanError, checksum_mismatch, truncated, check}

pub data ScanStatus : Type 0 where
  clean torn_tail checksum_corrupt : ScanStatus

pub record ScanSummary : Type 0 where
  pub count : ℕ
  pub checkpoints : List (ℕ × ℕ)
  pub last_id : Option ℕ
  pub next_offset : ℕ
  pub status : ScanStatus

-- The variables of the loop.
pub record Progress : Type 0 where
  pub count : ℕ
  pub checkpoints : List (ℕ × ℕ)
  pub last_id : Option ℕ
  pub last_good : ℕ

abbrev pub start : ℕ → Progress
start position = record { count = 0; checkpoints = []; last_id = none; last_good = position }

unfoldable pub finish : Progress → ℕ → ScanStatus → ScanSummary
finish p next_offset status = record {
  count = p.count;
  checkpoints = p.checkpoints;
  last_id = p.last_id;
  next_offset = next_offset;
  status = status;
}

-- A good frame, and the position behind it.
unfoldable pub count_frame : ℕ → Progress → ℕ → ℕ → ℕ → Progress
count_frame stride p id frame_offset position = record {
  count = p.count + 1;
  checkpoints =
      if p.count % stride == 0 then p.checkpoints ++ ((id, frame_offset) ∷ []) else p.checkpoints;
  last_id = some id;
  last_good = position;
}

unfoldable pub scan_step :
    ℕ
    → Progress
    → Result ScanError (Option (ℕ × ℕ)) × FrameScanner
    → (Progress → FrameScanner → Option ScanSummary)
    → Option ScanSummary
unfolding finish count_frame
scan_step stride p (ok none, s) next = some (finish p s.position ScanStatus.clean)
scan_step stride p (ok (some (id, frame_offset)), s) next =
    next (count_frame stride p id frame_offset s.position) s
scan_step stride p (err (truncated _), s) next = some (finish p p.last_good ScanStatus.torn_tail)
scan_step stride p (err (checksum_mismatch _), s) next =
    some (finish p p.last_good ScanStatus.checksum_corrupt)

module _ ⦃h : Hasher⦄ where
  -- `none` says that the fuel ran out.
  unfoldable pub scan_loop : ℕ → ℕ → Progress → FrameScanner → Option ScanSummary
  unfolding check scan_step
  scan_loop zero stride p s = none
  scan_loop (suc fuel) stride p s = scan_step stride p (check s) (scan_loop fuel stride)

  -- Each good frame uses up a header at least, so as many rounds as bytes, and two, are enough.
  unfoldable pub scan_all : ℕ → FrameScanner → Option ScanSummary
  unfolding scan_loop
  scan_all stride s = scan_loop (suc (suc (length s.reader))) stride (start s.position) s
