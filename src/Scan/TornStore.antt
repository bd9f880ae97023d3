-- ===== src/Scan/TornStore.antt =====
-- The scan (src/scan.rs) of the directory whose active segment ends inside a frame or in a frame of a wrong checksum.
use woodshed.Base.{ℕ, ◌≡◌, true, false, List, [], All, none, ok}
use woodshed.Base.Dict.{lookup}
use woodshed.Hash.{Hasher}
use woodshed.Yatlv.{Yatlv}
use woodshed.Files.{Disk}
use woodshed.Frame.Summary.{ScanStatus}
use woodshed.Frame.Summary.Verdict.{Ends}
use woodshed.State
use woodshed.State.{StoreState, SegmentEntry, SealInfo, SegmentId, ManifestOp, is_live}
use woodshed.Manifest.Replay.{Carried, apply_all}
use woodshed.Manifest.Held.{Holds}
use woodshed.Scan.Torn.{IsBroken, torn_issue, torn_disk, torn-Damage}
use woodshed.Scan.Damaged.{scan-damaged}
use woodshed.Scan.{scan}
use woodshed.Scan.Segments.{Content, Held}
use woodshed.Store.Reader.{Apart}

module _ ⦃h : Hasher⦄ ⦃y : Yatlv⦄ (s : StoreState) (d : Disk) (content : Content)
    (held : Held s d.segments content) (id : SegmentId) (tail : List ℕ) {status : ScanStatus}
    (ends : Ends tail status) (broken : IsBroken status) (live : is_live id s.segments ≡ true)
    (unsealed : lookup id s.seals ≡ none) where
  -- A directory as `scan_clean` has it, but that one live segment without a seal has bytes behind its
  -- frames that end inside a frame or begin with a whole frame of a wrong checksum, scans with the one
  -- issue that says where the segment is torn, the same in both cases.
  pub scan_torn_lem :
      (es : List ManifestOp)
      → Apart s.segments
      → d.exists ≡ true
      → Holds d es []
      → All Carried es
      → apply_all State.empty es ≡ ok s
      → State.is_empty s.segments ≡ false
      → (scan (torn_disk s d content held id tail ends broken live unsealed)).issues
        ≡ torn_issue id (content id)
  scan_torn_lem es apart there holds c e full =
      scan-damaged s d content held id
        (torn_disk s d content held id tail ends broken live unsealed) (torn_issue id (content id))
        (torn-Damage s d content held id tail ends broken live unsealed) es apart there holds c e
        full
