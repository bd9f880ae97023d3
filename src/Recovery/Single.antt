-- ===== src/Recovery/Single.antt =====
-- `attempt_recovery` (src/recovery.rs) where there is one issue.
use woodshed.Base.{◌≡◌, Bool, false, not, ◌&&◌, [], ◌∷◌, some, ok, arith}
use woodshed.Hash.{Hasher}
use woodshed.Yatlv.{Yatlv}
use woodshed.Files.{Disk}
use woodshed.Issue.{FileIssue}
use woodshed.Recovery.{
  FixUp, create_fix_up, collect, insert_fix_up, sort_by_phase, apply, apply_all, attempt_recovery,
}

-- Its fix-up is applied, where it needs no approval or there is one.
pub attempt_recovery-one :
    ⦃h : Hasher⦄
    → ⦃y : Yatlv⦄ → (i : FileIssue) (f : FixUp) (approved : Bool) (d e : Disk)
    → create_fix_up i ≡ some f
    → (f.approval_required && not approved) ≡ false
    → apply f.action d ≡ (ok tt, e)
    → attempt_recovery (i ∷ []) approved d ≡ (ok tt, e)
unfolding attempt_recovery collect sort_by_phase insert_fix_up apply_all
attempt_recovery-one i f approved d e fix allowed run = ground (arith, fix, allowed, run)
