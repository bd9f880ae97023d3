-- ===== src/Tests/Crash.antt =====
-- A crash inside a batch, torn files and file names at concrete inputs.
use woodshed.Base.{◌≡◌, refl, take, true, List, [], ◌∷◌, ◌++◌, map, none, some, ok, arith}
use woodshed.Base.Dict.{lookup}
use woodshed.Tests.Codec.{sum_hasher, plain_codec}
use woodshed.Tests.Log.{frames, content, disk, world, batch, creation-Carried, world-Consistent}
use woodshed.Files.{Disk, sort}
use woodshed.Files.Names.{segment_name, parse_segment_path, ids_of_names}
use woodshed.Files.Names.RoundTrip.{manifest_name, ids_of_names-segment_name}
use woodshed.Frame.Frames.{Frame, frames_bytes}
use woodshed.Frame.Scanner.Step.{at}
use woodshed.Frame.Summary.{ScanStatus, ScanSummary, scan_all}
use woodshed.Frame.Summary.Verdict.{Ends, cut_header}
use woodshed.Frame.Partial.{Behind}
use woodshed.Frame.Bounds.{Within, scan_all-Within}
use woodshed.State
use woodshed.State.{is_live}
use woodshed.Scan.{scan}
use woodshed.Scan.Torn.{torn_issue, torn_disk}
use woodshed.Scan.TornStore.{scan_torn_lem}
use woodshed.Store.{Store}
use woodshed.Store.Open.{open_store}
use woodshed.Store.Create.{creation, created}
use woodshed.Store.Consistent.{Consistent}
use woodshed.Store.Keeps.Write.{appended}
use woodshed.Store.Crash.{crashed, open_store-crashed}

-- The header of the batch's frame reached the file, and its payload did not.
open_store-crashed_example :
    (kept lost : List Frame) × (batch ≡ kept ++ lost)
    × Behind 20 kept lost
    × (s : Store) × (d : Disk) × (open_store 100
          (crashed (creation ∷ []) content world world-Consistent (take 20 (frames_bytes batch)))
        ≡ (ok s, d))
    × Consistent
        (creation ∷ [])
        (appended (creation ∷ []) content world world-Consistent kept)
        (record { store = s; disk = d })
open_store-crashed_example =
    open_store-crashed (creation ∷ []) content world world-Consistent batch 100 20
      ((omega arith, omega arith), tt)

segment_live : is_live 1 created.segments ≡ true
unfolding is_live
segment_live = refl

segment_unsealed : lookup 1 created.seals ≡ none
unfolding lookup
segment_unsealed = refl

two_bytes : Ends (0 ∷ 0 ∷ []) ScanStatus.torn_tail
two_bytes = cut_header (omega arith)

scan_torn_lem_example :
    (scan (
      torn_disk created disk content world-Consistent.held 1
        (0 ∷ 0 ∷ [])
        two_bytes
        tt
        segment_live
        segment_unsealed)).issues
    ≡ torn_issue 1 frames
unfolding State.is_empty
scan_torn_lem_example =
    scan_torn_lem created disk content world-Consistent.held 1 (0 ∷ 0 ∷ []) two_bytes tt
      segment_live segment_unsealed (creation ∷ []) world-Consistent.apart refl
      world-Consistent.recorded.holds (creation-Carried, tt) world-Consistent.recorded.replays refl

scan_all-Within_example :
    (s : ScanSummary) × (scan_all 1 (at (1 ∷ 2 ∷ 3 ∷ []) 8) ≡ some s) × Within 8 3 s
scan_all-Within_example =
    scan_all-Within 1 8 (1 ∷ 2 ∷ 3 ∷ []) (omega arith, (omega arith, (omega arith, tt)))

-- Names that are not of eight digits are parsed too.
short_name : parse_segment_path (b'1' ∷ b'.' ∷ b's' ∷ b'e' ∷ b'g' ∷ []) ≡ some 1
unfolding parse_segment_path
short_name = refl

signed_name : parse_segment_path (b'+' ∷ b'f' ∷ b'F' ∷ b'.' ∷ b's' ∷ b'e' ∷ b'g' ∷ []) ≡ some 255
unfolding parse_segment_path
signed_name = refl

ids_of_names-segment_name_example :
    ids_of_names (manifest_name ∷ map segment_name (12 ∷ 3 ∷ [])) ≡ sort (12 ∷ 3 ∷ [])
ids_of_names-segment_name_example =
    ids_of_names-segment_name (12 ∷ 3 ∷ []) (omega arith, (omega arith, tt))
