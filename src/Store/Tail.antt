-- ===== src/Store/Tail.antt =====
-- The operation of `truncate_end` (src/store.rs, src/state.rs) always applies.
use woodshed.Base.{
  ℕ, zero, suc, ◌+◌, ◌-◌, ◌≡◌, refl, inl, inr, true, List, [], ◌∷◌, map, drop, get_elem?, All, none,
  some, Option-cases, ok, arith, leb,
}
use woodshed.Base.Dict.{remove}
use woodshed.Index.{partition_point}
use woodshed.State
use woodshed.State.{
  SegmentEntry, SegmentId, EntryId, StoreState, is_live, kill_all, first_unknown,
  apply_truncate_end, apply_op, apply, ManifestOp, bare, truncate_end,
}
use woodshed.Store.Truncate.{tail_split}

is_live-get :
    (es : List SegmentEntry) (i : ℕ) (e : SegmentEntry)
    → get_elem? es i ≡ some e
    → is_live e.id es ≡ true
unfolding is_live
is_live-get [] i e h = absurd (ground arith)
is_live-get (x ∷ es) zero e h = ground arith
is_live-get (x ∷ es) (suc i) e h = ground (arith, is_live-get es i e h)

AllLive : List SegmentId → List SegmentEntry → Type 0
AllLive ids es = All (λ i. is_live i es ≡ true) ids

AllLive-cons :
    (ids : List SegmentId) (x : SegmentEntry) (es : List SegmentEntry)
    → AllLive ids es
    → AllLive ids (x ∷ es)
unfolding AllLive is_live
AllLive-cons [] x es h = tt
AllLive-cons (i ∷ ids) x es (h, hs) = (ground arith, AllLive-cons ids x es hs)

AllLive-drop : (n : ℕ) (es : List SegmentEntry) → AllLive (map (λ s. s.id) (drop n es)) es
unfolding AllLive is_live
AllLive-drop zero [] = tt
AllLive-drop zero (x ∷ es) = (ground arith, AllLive-cons _ x es (AllLive-drop zero es))
AllLive-drop (suc n) [] = tt
AllLive-drop (suc n) (x ∷ es) = AllLive-cons _ x es (AllLive-drop n es)

first_unknown-none :
    (ids : List SegmentId) (es : List SegmentEntry) → AllLive ids es → first_unknown ids es ≡ none
unfolding AllLive first_unknown
first_unknown-none [] es h = refl
first_unknown-none (i ∷ ids) es (h, hs) = ground (arith, first_unknown-none ids es hs)

tail_split-live :
    (segs : List SegmentEntry) (v : EntryId) (id : SegmentId) (dropped : List SegmentId)
    → tail_split segs v ≡ some (id, dropped)
    → (is_live id segs ≡ true) × (first_unknown dropped segs ≡ none)
unfolding tail_split
tail_split-live segs v id dropped e = elim (Option-cases (get_elem? segs (p - 1))) [
  | inl n ↦ absurd (ground arith)
  | inr (x, q) ↦ ground (arith, is_live-get segs (p - 1) x q, unknown)
]
  where
    p : ℕ
    p = partition_point (λ s. leb s.first_entry v) segs

    unknown : first_unknown (map (λ s. s.id) (drop (p - 1 + 1) segs)) segs ≡ none
    unknown = first_unknown-none _ segs (AllLive-drop (p - 1 + 1) segs)

-- The state after the operation.
abbrev pub rolled : StoreState → SegmentId → List SegmentId → StoreState
rolled s id dropped =
    let s' = kill_all s dropped in
    record s' { seals = remove id s'.seals; active_segment_id = some id }

-- The segments that `truncate_end` names are live, so that its operation applies.
pub tail_split-applies :
    (s : StoreState) (v : EntryId) (id : SegmentId) (dropped : List SegmentId) (n : ℕ)
    → tail_split s.segments v ≡ some (id, dropped)
    → apply s (bare (truncate_end id n dropped)) ≡ ok (rolled s id dropped)
unfolding apply apply_op apply_truncate_end State.set_all
tail_split-applies s v id dropped n e = ground (arith, tail_split-live s.segments v id dropped e)
