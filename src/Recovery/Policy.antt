-- ===== src/Recovery/Policy.antt =====
-- What recovery (src/recovery.rs) is allowed to do, and in which order it does it.
use woodshed.Base.{
  ℕ, ◌≡◌, refl, sym, ap, ◌∙◌, Bool, true, false, not, ◌&&◌, ◌⊎◌, inl, inr, List, [], ◌∷◌, ◌++◌,
  append-nil, some, ok, err, Result-cases, leb, ◌==◌, arith, if◌then◌else◌,
}
use woodshed.Hash.{Hasher}
use woodshed.Yatlv.{Yatlv}
use woodshed.Files.{Disk}
use woodshed.Issue.{FileIssue, IssueReport}
use woodshed.Recovery.{
  RecoveryError, not_possible, approval_required, FixUp, FixUpPhase, rank, create_fix_up, collect,
  insert_fix_up, sort_by_phase, apply_all, attempt_recovery,
}

-- The fix-up of an issue is there, and approval is given or not needed.
abbrev pub MayFix : Bool → FileIssue → FixUp → Type 0
MayFix approved i f = (create_fix_up i ≡ some f) × ((f.approval_required && not approved) ≡ false)

-- Each issue has its fix-up, in order.
abbrev pub Fixes : Bool → IssueReport → List FixUp → Type 0
Fixes approved [] [] = Unit
Fixes approved (i ∷ is) (f ∷ fs) = MayFix approved i f × Fixes approved is fs
Fixes approved [] (f ∷ fs) = ⊥
Fixes approved (i ∷ is) [] = ⊥

collect-Fixes :
    (approved : Bool) (is : IssueReport) (fs : List FixUp)
    → collect approved is ≡ ok fs
    → Fixes approved is fs
unfolding collect
collect-Fixes approved [] [] e = tt
collect-Fixes approved [] (f ∷ fs) e = absurd (ground arith)
collect-Fixes approved (i ∷ is) [] e = absurd (ground arith)
collect-Fixes approved (i ∷ is) (f ∷ fs) e = ground (arith, collect-Fixes approved is fs)

-- The fix-ups of one phase, in their order.
unfoldable pub in_phase : ℕ → List FixUp → List FixUp
in_phase r [] = []
in_phase r (f ∷ fs) = let rest = in_phase r fs in if rank f.phase == r then f ∷ rest else rest

abbrev pub phase_by_phase : List FixUp → List FixUp
phase_by_phase fs = in_phase 0 fs ++ (in_phase 1 fs ++ in_phase 2 fs)

insert_past :
    (f : FixUp) (r : ℕ) (xs gs : List FixUp)
    → leb (rank f.phase) r ≡ false
    → insert_fix_up f (in_phase r xs ++ gs) ≡ in_phase r xs ++ insert_fix_up f gs
unfolding insert_fix_up in_phase
insert_past f r [] gs e = refl
insert_past f r (x ∷ xs) gs e = ground (arith, insert_past f r xs gs e)

insert_before :
    (f : FixUp) (r : ℕ) (xs gs : List FixUp)
    → leb (rank f.phase) r ≡ true
    → insert_fix_up f gs ≡ f ∷ gs
    → insert_fix_up f (in_phase r xs ++ gs) ≡ f ∷ (in_phase r xs ++ gs)
unfolding insert_fix_up in_phase
insert_before f r [] gs e h = h
insert_before f r (x ∷ xs) gs e h = ground (arith, insert_before f r xs gs e h)

insert_last : (f : FixUp) (xs : List FixUp) → insert_fix_up f (in_phase 2 xs) ≡ f ∷ in_phase 2 xs
insert_last f xs =
    ap (insert_fix_up f) (sym (append-nil (in_phase 2 xs)))
    ∙ insert_before f 2 xs [] (rank_le f.phase) (unfold insert_fix_up in refl)
    ∙ ap (λ t. f ∷ t) (append-nil (in_phase 2 xs))
  where
    rank_le : (p : FixUpPhase) → leb (rank p) 2 ≡ true
    rank_le p = ground arith

insert-phase_by_phase :
    (f : FixUp) (fs : List FixUp) → insert_fix_up f (phase_by_phase fs) ≡ phase_by_phase (f ∷ fs)
unfolding in_phase
insert-phase_by_phase f fs = ground (
  arith,
  insert_past f 0 fs (in_phase 1 fs ++ in_phase 2 fs),
  insert_past f 1 fs (in_phase 2 fs),
  insert_before f 0 fs (in_phase 1 fs ++ in_phase 2 fs),
  insert_before f 1 fs (in_phase 2 fs),
  insert_last f fs,
)

sort-phase_by_phase : (fs : List FixUp) → sort_by_phase fs ≡ phase_by_phase fs
unfolding sort_by_phase in_phase
sort-phase_by_phase [] = refl
sort-phase_by_phase (f ∷ fs) =
    ap (insert_fix_up f) (sort-phase_by_phase fs) ∙ insert-phase_by_phase f fs

Fixes-collect :
    (approved : Bool) (is : IssueReport) (fs : List FixUp)
    → Fixes approved is fs
    → collect approved is ≡ ok fs
unfolding collect
Fixes-collect approved [] [] e = refl
Fixes-collect approved [] (f ∷ fs) e = absurd e
Fixes-collect approved (i ∷ is) [] e = absurd e
Fixes-collect approved (i ∷ is) (f ∷ fs) ((e, g), es) =
    ground (arith, Fixes-collect approved is fs es)

abbrev pub IsRefusal : RecoveryError → Type 0
IsRefusal e = (e ≡ not_possible) ⊎ (e ≡ approval_required)

collect-IsRefusal :
    (approved : Bool) (is : IssueReport) (e : RecoveryError)
    → collect approved is ≡ err e
    → IsRefusal e
unfolding collect
collect-IsRefusal approved [] e h = absurd (ground arith)
collect-IsRefusal approved (i ∷ is) e h = ground (arith, collect-IsRefusal approved is e)

module _ ⦃h : Hasher⦄ ⦃y : Yatlv⦄ where
  abbrev pub Outcome : IssueReport → Bool → Disk → Type 0
  Outcome is approved d =
      ((fs : List FixUp) × Fixes approved is fs
        × (attempt_recovery is approved d ≡ apply_all (phase_by_phase fs) d))
      ⊎ ((e : RecoveryError) × IsRefusal e
          × ((fs : List FixUp) → Fixes approved is fs → ⊥)
          × (attempt_recovery is approved d ≡ (err e, d)))

  attempt_recovery-ok :
      (is : IssueReport) (approved : Bool) (d : Disk) (fs : List FixUp)
      → collect approved is ≡ ok fs
      → attempt_recovery is approved d ≡ apply_all (phase_by_phase fs) d
  unfolding attempt_recovery
  attempt_recovery-ok is approved d fs e = ground (arith, sort-phase_by_phase fs)

  attempt_recovery-err :
      (is : IssueReport) (approved : Bool) (d : Disk) (e : RecoveryError)
      → collect approved is ≡ err e
      → attempt_recovery is approved d ≡ (err e, d)
  unfolding attempt_recovery
  attempt_recovery-err is approved d x e = ground arith

  -- A recovery either applies the fix-up of every issue, phase by phase and in each phase in the
  -- order of the issues, or it is refused and leaves the disk as it was. It is refused just where
  -- an issue has no fix-up, or has one that needs an approval that was not given.
  pub attempt_recovery-Outcome :
      (is : IssueReport) (approved : Bool) (d : Disk) → Outcome is approved d
  attempt_recovery-Outcome is approved d = elim (Result-cases (collect approved is)) [
    | inl (fs, e) ↦ inl (fs, collect-Fixes approved is fs e, attempt_recovery-ok is approved d fs e)
    | inr (x, e) ↦ inr (
      x,
      collect-IsRefusal approved is x e,
      (λ fs g. not_both x fs e (Fixes-collect approved is fs g)),
      attempt_recovery-err is approved d x e,
    )
  ]
    where
      not_both :
          (x : RecoveryError) (fs : List FixUp)
          → collect approved is ≡ err x
          → collect approved is ≡ ok fs
          → ⊥
      not_both x fs e g = ground arith
