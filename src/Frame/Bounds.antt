-- ===== src/Frame/Bounds.antt =====
-- What the summary of `scan_all` (src/frame.rs) can say of a file of a given length.
use woodshed.Base.{
  ℕ, ◌+◌, ◌*◌, ◌≤◌, ◌≡◌, ◌∙◌, List, [], ◌∷◌, some, arith, length, length-append, ap, All,
}
use woodshed.Base.Bytes.{IsByte}
use woodshed.Hash.{Hasher}
use woodshed.Frame.Format.{header_len}
use woodshed.Frame.Scanner.Step.{at}
use woodshed.Frame.Frames.{Frame, frames_size, frames_bytes, length-frames_bytes}
use woodshed.Frame.Summary.{ScanSummary, scan_all}
use woodshed.Frame.Summary.Verdict.{summary}
use woodshed.Frame.Split.{split_file}
use woodshed.Frame.Repair.{scan_all-Parts}

-- Each frame takes its header at least.
headers-le-size : (fs : List Frame) → length fs * header_len ≤ frames_size fs
headers-le-size [] = omega arith
headers-le-size (f ∷ fs) = omega (arith, headers-le-size fs)

-- The summary of `size` bytes from `pos` on stays within them.
pub record Within (pos size : ℕ) (s : ScanSummary) : Type 0 where
  pub from_start : pos ≤ s.next_offset
  pub to_end : s.next_offset ≤ pos + size
  pub entries : s.count * header_len ≤ size

-- The scan of any bytes gives a summary whose write frontier is neither before the start nor behind
-- the end of the bytes, and which counts no more frames than their headers have room.
pub scan_all-Within :
    ⦃h : Hasher⦄
    → (stride pos : ℕ) (bytes : List ℕ) → All IsByte bytes
    → (s : ScanSummary) × (scan_all stride (at bytes pos) ≡ some s) × Within pos (length bytes) s
scan_all-Within stride pos bytes b =
    let p = split_file bytes b in
    let room : length bytes ≡ frames_size p.frames + length p.tail =
      ap length p.whole
      ∙ omega (arith, length-append (frames_bytes p.frames) p.tail, length-frames_bytes p.frames) in
    (
      summary stride pos p.frames p.status,
      scan_all-Parts stride bytes pos p,
      record {
        from_start = omega arith;
        to_end = omega (arith, room);
        entries = omega (arith, room, headers-le-size p.frames);
      },
    )
