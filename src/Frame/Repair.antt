-- ===== src/Frame/Repair.antt =====
-- What recovery relies on in `scan_all` (src/frame.rs): it always ends, and a file that is cut at the
-- offset of its summary scans clean.
use woodshed.Base.{
  ℕ, ◌+◌, ◌-◌, ◌≡◌, sym, ap, ◌∙◌, List, some, arith, take, All, take-append, append-nil,
}
use woodshed.Base.Bytes.{IsByte}
use woodshed.Hash.{Hasher}
use woodshed.Frame.Scanner.Step.{at}
use woodshed.Frame.Frames.{frames_size, frames_bytes, length-frames_bytes}
use woodshed.Frame.Summary.{ScanStatus, ScanSummary, scan_all}
use woodshed.Frame.Summary.Verdict.{at_end, summary, scan_all-Ends}
use woodshed.Frame.Split.{Parts, split_file}

module _ ⦃h : Hasher⦄ (stride : ℕ) where
  pub scan_all-Parts :
      (bytes : List ℕ) (pos : ℕ) (p : Parts bytes)
      → scan_all stride (at bytes pos) ≡ some (summary stride pos p.frames p.status)
  scan_all-Parts bytes pos p =
      ap (λ t. scan_all stride (at t pos)) p.whole ∙ scan_all-Ends stride p.frames pos p.fits p.ends

  -- The scan of any bytes gives a summary, and the scan of the bytes before its `next_offset`
  -- gives the same summary with the status `clean`.
  pub scan_all-take :
      (bytes : List ℕ) (pos : ℕ)
      → All IsByte bytes
      → (s : ScanSummary) × (scan_all stride (at bytes pos) ≡ some s)
        × (scan_all stride (at (take (s.next_offset - pos) bytes) pos)
            ≡ some (record s { status = ScanStatus.clean }))
  scan_all-take bytes pos b =
      let p = split_file bytes b in
      (summary stride pos p.frames p.status, scan_all-Parts bytes pos p, cut p)
    where
      cut :
          (p : Parts bytes)
          → scan_all stride (at (take (pos + frames_size p.frames - pos) bytes) pos)
            ≡ some (summary stride pos p.frames ScanStatus.clean)
      cut p =
          ap (λ t. scan_all stride (at t pos))
            (ap (take (pos + frames_size p.frames - pos)) p.whole
              ∙ take-append (pos + frames_size p.frames - pos) (frames_bytes p.frames) p.tail
                  (omega (arith, length-frames_bytes p.frames))
              ∙ sym (append-nil (frames_bytes p.frames)))
          ∙ scan_all-Ends stride p.frames pos p.fits at_end
