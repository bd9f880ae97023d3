-- ===== src/Store/Survivors.antt =====
-- What `truncate_start` (src/store.rs) leaves of the segments.
use woodshed.Base.{
  ◌<◌, ◌≤◌, ◌≡◌, refl, sym, subst, ◌∙◌, Bool, true, false, ◌&&◌, List, [], ◌∷◌, some, inl, inr,
  Option-cases, arith, ==_refl, if◌then◌else◌,
}
use woodshed.Base.Dict.{lookup, contains}
use woodshed.State.{
  StoreState, SegmentEntry, SegmentId, EntryId, SealInfo, seal, is_live, without, kill_segment,
  kill_all,
}
use woodshed.Store.Truncate.{is_evicted, to_evict}

-- The seals say of the segment that its last entry is before `first`.
pub record Evicted (s : StoreState) (first : EntryId) (e : SegmentEntry) : Type 0 where
  pub info : SealInfo
  pub is_sealed : lookup e.id s.seals ≡ some info
  pub is_before : info.last_entry < first

-- It is not sealed, or its last entry is not before `first`.
abbrev pub Spared : StoreState → EntryId → SegmentEntry → Type 0
Spared s first e = (info : SealInfo) → lookup e.id s.seals ≡ some info → first ≤ info.last_entry

-- The second list is the first without just the evicted segments.
pub data Survivors (s : StoreState) (first : EntryId)
    : List SegmentEntry → List SegmentEntry → Type 0 where
  done : Survivors s first [] []
  spared :
      {es rest : List SegmentEntry} (e : SegmentEntry)
      → Spared s first e
      → Survivors s first es rest
      → Survivors s first (e ∷ es) (e ∷ rest)
  evicted :
      {es rest : List SegmentEntry} (e : SegmentEntry)
      → Evicted s first e
      → Survivors s first es rest
      → Survivors s first (e ∷ es) rest

pub contains-to_evict :
    (s : StoreState) (first : EntryId) (es : List SegmentEntry) (j : SegmentId)
    → contains j (to_evict s first es) ≡ (is_live j es && is_evicted first (seal s j))
unfolding to_evict contains is_live
contains-to_evict s first [] j = refl
contains-to_evict s first (e ∷ es) j = ground (arith, contains-to_evict s first es j)

-- The segments that are not among the ids.
unfoldable all_without : List SegmentId → List SegmentEntry → List SegmentEntry
unfolding contains
all_without ids [] = []
all_without ids (e ∷ es) =
    let rest = all_without ids es in if contains e.id ids then rest else e ∷ rest

all_without-nil : (es : List SegmentEntry) → all_without [] es ≡ es
unfolding all_without
all_without-nil [] = refl
all_without-nil (e ∷ es) = ground (arith, all_without-nil es)

all_without-without :
    (id : SegmentId) (ids : List SegmentId) (es : List SegmentEntry)
    → all_without ids (without id es) ≡ all_without (id ∷ ids) es
unfolding all_without without contains
all_without-without id ids [] = refl
all_without-without id ids (e ∷ es) = ground (arith, all_without-without id ids es)

kill_all-all_without :
    (s : StoreState) (ids : List SegmentId) → (kill_all s ids).segments ≡ all_without ids s.segments
unfolding kill_all
kill_all-all_without s [] = sym (all_without-nil s.segments)
kill_all-all_without s (id ∷ ids) =
    kill_all-all_without (kill_segment s id) ids ∙ all_without-without id ids s.segments

module _ (s : StoreState) (first : EntryId) where
  is_evicted-Evicted :
      (e : SegmentEntry) → is_evicted first (seal s e.id) ≡ true → Evicted s first e
  unfolding is_evicted seal
  is_evicted-Evicted e t = elim (Option-cases (lookup e.id s.seals)) [
    | inl not_there ↦ absurd (ground arith)
    | inr (info, there) ↦ record { info = info; is_sealed = there; is_before = ground arith }
  ]

  is_evicted-Spared : (e : SegmentEntry) → is_evicted first (seal s e.id) ≡ false → Spared s first e
  unfolding is_evicted seal
  is_evicted-Spared e f info there = ground arith

  Survivors-unless :
      (b : Bool) (e : SegmentEntry) (es rest : List SegmentEntry)
      → b ≡ is_evicted first (seal s e.id)
      → Survivors s first es rest
      → Survivors s first (e ∷ es) (if b then rest else e ∷ rest)
  Survivors-unless true e es rest same a = evicted e (is_evicted-Evicted e (sym same)) a
  Survivors-unless false e es rest same a = spared e (is_evicted-Spared e (sym same)) a

  all_without-Survivors :
      (ids : List SegmentId) (es : List SegmentEntry)
      → ((j : SegmentId) → is_live j es ≡ true → contains j ids ≡ is_evicted first (seal s j))
      → Survivors s first es (all_without ids es)
  unfolding all_without is_live
  all_without-Survivors ids [] same = done
  all_without-Survivors ids (e ∷ es) same =
      Survivors-unless (contains e.id ids) e es (all_without ids es)
        (same e.id (ground (arith, ==_refl e.id)))
        (all_without-Survivors ids es (λ j l. same j (ground arith)))

  pub kill_all-Survivors :
      Survivors s first s.segments (kill_all s (to_evict s first s.segments)).segments
  kill_all-Survivors =
      let ids = to_evict s first s.segments in
      subst (Survivors s first s.segments) (sym (kill_all-all_without s ids)) (
        all_without-Survivors ids s.segments
          (λ j l. ground (arith, contains-to_evict s first s.segments j)))
