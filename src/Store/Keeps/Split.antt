-- ===== src/Store/Keeps/Split.antt =====
-- What `truncate_end` (src/store.rs, src/state.rs) does to the live segments.
use woodshed.Base.{
  ◌≡◌, ◌⊎◌, inl, inr, refl, ap, ◌∙◌, sym, subst, append_assoc, Bool, true, false, List, [], ◌∷◌,
  ◌++◌, some, arith, ◌==◌, ==_refl,
}
use woodshed.Base.Dict.{contains}
use woodshed.State.{StoreState, SegmentEntry, SegmentId, EntryId, is_live, find_segment, kill_all}
use woodshed.State.View.{is_live-append}
use woodshed.Store.Truncate.{tail_split}
use woodshed.Store.Reader.{Apart}
use woodshed.Store.Order.{
  tip, ids_of, tip-append, contains-tip, contains-ids_of, kill_all-back, Apart-split,
  find_segment-append, tail_split-split,
}

-- What a rollback to the segment `id` does to the live segments.
pub record Split (s : StoreState) (id : SegmentId) (dropped : List SegmentId) : Type 0 where
  pub kept : is_live id s.segments ≡ true
  pub apart_from : contains id dropped ≡ false
  pub were_live : (j : SegmentId) → contains j dropped ≡ true → is_live j s.segments ≡ true
  pub last : tip (kill_all s dropped).segments ≡ some id
  pub first : EntryId
  pub entry :
      find_segment id (kill_all s dropped).segments ≡ some (record { id = id; first_entry = first })
  pub behind : (j : SegmentId) → tip s.segments ≡ some j → (contains j dropped ≡ true) ⊎ (j ≡ id)

Split-back :
    (s : StoreState) (front back : List SegmentEntry) (e : SegmentEntry)
    → s.segments ≡ front ++ (e ∷ back)
    → Apart s.segments
    → Split s e.id (ids_of back)
unfolding is_live contains tip
Split-back s front back e same apart =
    let a = subst Apart same apart in
    let (before, after) = Apart-split front back e a in
    let left =
      kill_all-back back (front ++ (e ∷ [])) s (same ∙ sym (append_assoc front (e ∷ []) back))
        (subst Apart (sym (append_assoc front (e ∷ []) back)) a) in
    record {
      kept =
          ground
            (arith, ap (is_live e.id) same, is_live-append e.id front (e ∷ back), ==_refl e.id);
      apart_from = after;
      were_live = λ j k.
          ground
            (arith, ap (is_live j) same, is_live-append j front (e ∷ back), contains-ids_of back j);
      last = ap tip left ∙ tip-append front [] e;
      first = e.first_entry;
      entry = ap (find_segment e.id) left ∙ find_segment-append front e before;
      behind = λ j t.
          behind_or j (e.id == j) refl
            (contains-tip (e ∷ back) j (sym (ap tip same ∙ tip-append front back e) ∙ t));
    }
  where
    behind_or :
        (j : SegmentId) (b : Bool)
        → (e.id == j) ≡ b
        → contains j (ids_of (e ∷ back)) ≡ true
        → (contains j (ids_of back) ≡ true) ⊎ (j ≡ e.id)
    behind_or j true p k = inr (ground arith)
    behind_or j false p k = inl (ground arith)

pub split_lem :
    (s : StoreState) (v : EntryId) (id : SegmentId) (dropped : List SegmentId)
    → tail_split s.segments v ≡ some (id, dropped)
    → Apart s.segments
    → Split s id dropped
split_lem s v id dropped found apart =
    let (front, e, back, same, this, those) = tail_split-split s.segments v id dropped found in
    subst (λ i. Split s i dropped) this
      (subst (Split s e.id) those (Split-back s front back e same apart))
