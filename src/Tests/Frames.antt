-- ===== src/Tests/Frames.antt =====
-- The frame format and the index at concrete inputs.
use woodshed.Base.{ℕ, ◌+◌, ◌-◌, ◌≡◌, refl, List, [], ◌∷◌, ◌++◌, some, ok, All, take, arith}
use woodshed.Tests.Codec.{sum_hasher}
use woodshed.Frame.Format.{Fits}
use woodshed.Frame.Scanner.{seek_to_id, scan_to_after, read_to_end, drop_reader}
use woodshed.Frame.Scanner.Step.{at}
use woodshed.Frame.Frames.{Frame, frames_size, frames_bytes}
use woodshed.Frame.Summary.{ScanStatus, ScanSummary, scan_all}
use woodshed.Frame.Summary.Verdict.{cut_header, summary, scan_all-Ends}
use woodshed.Frame.Repair.{scan_all-take}
use woodshed.Store.Rising.{leading, trailing}
use woodshed.Store.Sought.{before, seek_to_id-leading}
use woodshed.Frame.AfterFirst.{after_first, scan_to_after-first}
use woodshed.Frame.Payload.{reading, read_to_end_lem}
use woodshed.Index.{EntryIndex, find, truncate_end}
use woodshed.Index.Floor.{last_position}
use woodshed.Index.Truncated.{find-truncate_end}

abbrev two_frames : List Frame
two_frames = (1, b'a' ∷ []) ∷ (2, []) ∷ []

two_frames-Fits : All Fits two_frames
two_frames-Fits = ((omega arith, omega arith), ((omega arith, omega arith), tt))

-- A file of bytes: a frame, and three bytes of a header.
abbrev torn_bytes : List ℕ
torn_bytes = 0 ∷ 0 ∷ 7 ∷ []

scan_all-Ends_example :
    scan_all 64 (at (frames_bytes two_frames ++ torn_bytes) 8)
    ≡ some (summary 64 8 two_frames ScanStatus.torn_tail)
scan_all-Ends_example = scan_all-Ends 64 two_frames 8 two_frames-Fits (cut_header (omega arith))

scan_all-take_example :
    (s : ScanSummary) × (scan_all 64 (at torn_bytes 8) ≡ some s)
    × (scan_all 64 (at (take (s.next_offset - 8) torn_bytes) 8)
        ≡ some (record s { status = ScanStatus.clean }))
scan_all-take_example =
    scan_all-take 64 torn_bytes 8 (omega arith, (omega arith, (omega arith, tt)))

seek_to_id-leading_example :
    seek_to_id 2 (at (frames_bytes two_frames) 8)
    ≡ some (ok tt, before (trailing 2 two_frames) (8 + frames_size (leading 2 two_frames)))
seek_to_id-leading_example = seek_to_id-leading 2 two_frames 8 two_frames-Fits

scan_to_after-first_example :
    scan_to_after 2 (at (frames_bytes two_frames) 8) ≡ some (after_first 2 two_frames 8)
scan_to_after-first_example = scan_to_after-first 2 two_frames 8 two_frames-Fits

-- Both frames are before the end, of 21 and of 20 bytes.
after_first_test : after_first 2 two_frames 8 ≡ (ok 49, at [] 49)
unfolding frames_bytes
after_first_test = refl

read_to_end_lem_example :
    ((read_to_end (reading 4 2 8 ((b'x' ∷ b'y' ∷ []) ++ torn_bytes))).0 ≡ ok (b'x' ∷ b'y' ∷ []))
    × (drop_reader (read_to_end (reading 4 2 8 ((b'x' ∷ b'y' ∷ []) ++ torn_bytes))).1
        ≡ at torn_bytes 30)
read_to_end_lem_example = read_to_end_lem 4 8 (b'x' ∷ b'y' ∷ []) torn_bytes

abbrev two_segments : EntryIndex
two_segments = record {
  segments =
      (1, record { checkpoints = (1, 8) ∷ (65, 2000) ∷ [] })
      ∷ (2, record { checkpoints = (129, 8) ∷ [] })
      ∷ [];
}

find-truncate_end_example :
    (find two_segments 130 ≡ last_position 130 two_segments.segments)
    × (find (truncate_end two_segments 100) 130 ≡ last_position 100 two_segments.segments)
find-truncate_end_example = find-truncate_end two_segments 130 100 (
  tt,
  ((omega arith, tt), (tt, tt)),
  (((omega arith, tt), tt), (((omega arith, tt), tt), tt)),
  (tt, (tt, tt), (tt, tt), tt),
)

find_test :
    find two_segments 100 ≡ some (record { segment = 1; checkpoint = 65; byte_offset = 2000 })
unfolding find
find_test = refl
