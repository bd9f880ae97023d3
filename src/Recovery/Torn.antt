-- ===== src/Recovery/Torn.antt =====
-- A manifest with a torn tail: what src/scan.rs reports and what src/recovery.rs does about it.
use woodshed.Base.{
  ℕ, ◌<◌, ◌≡◌, sym, ap, ◌∙◌, Bool, true, false, List, [], ◌∷◌, ◌++◌, map, length, All, append-nil,
  some, ok, err, arith,
}
use woodshed.Hash.{Hasher}
use woodshed.Yatlv.{Yatlv}
use woodshed.File
use woodshed.File.{File, set_len, set_len-append}
use woodshed.Issue
use woodshed.Frame.Format.{header_len, header_payload_len}
use woodshed.Frame.Scanner
use woodshed.Frame.Frames.{frames_bytes, length-frames_bytes}
use woodshed.Frame.Summary.{ScanStatus}
use woodshed.Frame.Summary.Verdict.{Ends, cut_header, cut_payload, scan_all-Ends}
use woodshed.Issue.{FileIssue, IssueReport, manifest, manifest_torn_tail, manifest_not_readable}
use woodshed.Files.{Disk, manifest_magic, magic_len}
use woodshed.State.{StoreState, ManifestOp, empty}
use woodshed.Manifest.{replay}
use woodshed.Manifest.Replay.{
  op_frame, Carried, apply_all, manifest_file, manifest_size, replay-cut_header, replay-cut_payload,
}
use woodshed.Manifest.Held.{Carried-Fits, Holds, open_manifest-Holds}
use woodshed.Scan
use woodshed.Scan.{integrity_phase, replay_phase, empty_report, scan}
use woodshed.Recovery
use woodshed.Recovery.{not_possible, attempt_recovery}

abbrev pub torn_at : ℕ → FileIssue
torn_at n = record { file = manifest; issue = manifest_torn_tail n }

abbrev pub unreadable : FileIssue
unreadable = record { file = manifest; issue = manifest_not_readable }

module _ ⦃h : Hasher⦄ ⦃y : Yatlv⦄ where
  set_len-frames :
      (es : List ManifestOp) (tail : List ℕ)
      → set_len ((manifest_file es tail).content) (manifest_size es) ≡ (manifest_file es []).content
  set_len-frames es tail =
      set_len-append (manifest_magic ++ frames_bytes (map op_frame es)) tail (manifest_size es)
        (omega (arith, length-frames_bytes (map op_frame es)))
      ∙ ap (λ t. manifest_magic ++ t) (sym (append-nil (frames_bytes (map op_frame es))))

  integrity-torn :
      (es : List ManifestOp) (tail : List ℕ)
      → All Carried es
      → Ends tail ScanStatus.torn_tail
      → integrity_phase (manifest_file es tail, magic_len) ≡ ok (torn_at (manifest_size es) ∷ [])
  unfolding integrity_phase Scanner.new File.unread Issue.push
  integrity-torn es tail c ends =
      ground (arith, scan_all-Ends 1 (map op_frame es) magic_len (Carried-Fits es c) ends)

  recovery-cut_lem :
      (d : Disk) (es : List ManifestOp) (tail : List ℕ)
      → Holds d es tail
      → attempt_recovery (torn_at (manifest_size es) ∷ []) false d
        ≡ (ok tt, record d { manifest = some ((manifest_file es []).content) })
  unfolding attempt_recovery Recovery.collect Recovery.sort_by_phase Recovery.apply_all
  recovery-cut_lem d es tail holds =
      ground (arith, open_manifest-Holds d es tail holds, set_len-frames es tail)

  scan-cut_lem :
      (d : Disk) (es : List ManifestOp) (t : StoreState) (hdr part : List ℕ)
      → All Carried es
      → apply_all empty es ≡ ok t
      → length hdr ≡ header_len
      → length part < header_payload_len hdr
      → d.exists ≡ true
      → Holds d es (hdr ++ part)
      → scan d ≡ empty_report (torn_at (manifest_size es) ∷ unreadable ∷ [])
  unfolding scan Scan.scan_phases Scan.open_phase replay_phase Scan.replayed Issue.push
  scan-cut_lem d es t hdr part c e whole cut there holds = ground (
    arith,
    open_manifest-Holds d es (hdr ++ part) holds,
    integrity-torn es (hdr ++ part) c (cut_payload hdr part whole cut),
    replay-cut_payload es t hdr part c e whole cut,
  )

  refused_lem :
      (d : Disk) (n : ℕ) (approved : Bool)
      → attempt_recovery (torn_at n ∷ unreadable ∷ []) approved d ≡ (err not_possible, d)
  unfolding attempt_recovery Recovery.collect
  refused_lem d n approved = ground arith

  -- A manifest of operations that the codec can carry and that apply in order, and of a part of a
  -- header behind them: its torn tail is the issue of the integrity check and the replay gives
  -- the state of the operations, an unapproved recovery from that issue cuts the tail off and
  -- changes nothing else, and the frames of the operations alone are left.
  pub attempt_recovery-cut_header :
      (d : Disk) (es : List ManifestOp) (t : StoreState) (b : ℕ) (bs : List ℕ)
      → All Carried es
      → apply_all empty es ≡ ok t
      → length (b ∷ bs) < header_len
      → Holds d es (b ∷ bs)
      → (integrity_phase (manifest_file es (b ∷ bs), magic_len)
          ≡ ok (torn_at (manifest_size es) ∷ []))
        × (replay (manifest_file es (b ∷ bs)) magic_len
            ≡ some (ok (record { state = t; next_offset = manifest_size es })))
        × (attempt_recovery (torn_at (manifest_size es) ∷ []) false d
            ≡ (ok tt, record d { manifest = some ((manifest_file es []).content) }))
  attempt_recovery-cut_header d es t b bs c e short holds = (
    integrity-torn es (b ∷ bs) c (cut_header short),
    replay-cut_header es t b bs c e short,
    recovery-cut_lem d es (b ∷ bs) holds,
  )

  -- In a directory that exists, a manifest of operations that the codec can carry and that apply
  -- in order, and of a whole header and a part of its payload behind them: the scan stops with
  -- the torn tail and a manifest that is not readable, and recovery from that is refused even
  -- with approval.
  pub attempt_recovery-cut_payload :
      (d : Disk) (es : List ManifestOp) (t : StoreState) (hdr part : List ℕ) (approved : Bool)
      → All Carried es
      → apply_all empty es ≡ ok t
      → length hdr ≡ header_len
      → length part < header_payload_len hdr
      → d.exists ≡ true
      → Holds d es (hdr ++ part)
      → (scan d ≡ empty_report (torn_at (manifest_size es) ∷ unreadable ∷ []))
        × (attempt_recovery ((scan d).issues) approved d ≡ (err not_possible, d))
  attempt_recovery-cut_payload d es t hdr part approved c e whole cut there holds =
      let s = scan-cut_lem d es t hdr part c e whole cut there holds in
      (
        s,
        ap (λ r. attempt_recovery (r.issues) approved d) s
            ∙ refused_lem d (manifest_size es) approved,
      )
