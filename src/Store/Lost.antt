-- ===== src/Store/Lost.antt =====
-- Opening and recovering a store (src/store.rs) where the file of a sealed segment is gone or has another
-- size than its seal says.
use woodshed.Base.{ℕ, ◌≡◌, refl, Bool, true, false, List, Option, none, some, err, arith}
use woodshed.Base.Dict.{lookup}
use woodshed.Hash.{Hasher}
use woodshed.Yatlv.{Yatlv}
use woodshed.Issue
use woodshed.Recovery
use woodshed.Recovery.{attempt_recovery, not_possible}
use woodshed.State.{SealInfo, SegmentId, ManifestOp, is_live}
use woodshed.Scan.{scan}
use woodshed.Scan.Segments.{Content}
use woodshed.Scan.Damaged.{scan-damaged}
use woodshed.Scan.Lost.{replace, loss_issue, HasOtherSize, loss-Damage}
use woodshed.Files.{Disk}
use woodshed.Store.{World}
use woodshed.Store.Open.{open_store, rescan, recover, recovery_not_possible}
use woodshed.Store.Consistent.{Consistent}
use woodshed.Store.Reopen.{is_live-nonempty}

recovery-loss :
    ⦃h : Hasher⦄
    → ⦃y : Yatlv⦄
    → (id : SegmentId) (size : ℕ) (file : Option (List ℕ)) (approved : Bool) (d : Disk)
    → attempt_recovery (loss_issue id size file) approved d ≡ (err not_possible, d)
unfolding attempt_recovery Recovery.collect Recovery.create_fix_up Recovery.fix_up_for
recovery-loss id size none approved d = refl
recovery-loss id size (some bytes) approved d = refl

module _ ⦃h : Hasher⦄ ⦃y : Yatlv⦄ (es : List ManifestOp) (content : Content) (w : World)
    (c : Consistent es content w) (id : SegmentId) (info : SealInfo) (file : Option (List ℕ)) where
  scan_lost :
      is_live id w.store.state.segments ≡ true
      → lookup id w.store.state.seals ≡ some info
      → HasOtherSize info.final_size file
      → (scan (replace id file w.disk)).issues ≡ loss_issue id info.final_size file
  scan_lost live sealed other =
      scan-damaged w.store.state w.disk content c.held id (replace id file w.disk)
        (loss_issue id info.final_size file)
        (loss-Damage w.store.state w.disk content c.held id info file live
          (ground (arith, (c.well_formed id).dead_apart)) sealed other)
        es c.apart c.recorded.there c.recorded.holds c.recorded.carried c.recorded.replays
        (is_live-nonempty id w.store.state.segments live)

  -- A store whose disk agrees with it, but that the file of a sealed live segment is gone or has another
  -- size than the seal says, is neither opened nor recovered, with an approval or without: opening says
  -- that no recovery is possible and names the segment, and nothing on the disk changes.
  pub open_store-lost :
      (trigger : ℕ)
      → is_live id w.store.state.segments ≡ true
      → lookup id w.store.state.seals ≡ some info
      → HasOtherSize info.final_size file
      → (open_store trigger (replace id file w.disk) ≡ (
        err (recovery_not_possible (loss_issue id info.final_size file)),
        replace id file w.disk,
      ))
        × (recover (replace id file w.disk) ≡ (err not_possible, replace id file w.disk))
  unfolding open_store rescan recover Issue.is_empty
  open_store-lost trigger live sealed other =
      let found = scan_lost live sealed other in
      (
        ground (arith, found, recovery-loss id info.final_size file false (replace id file w.disk)),
        ground (arith, found, recovery-loss id info.final_size file true (replace id file w.disk)),
      )
