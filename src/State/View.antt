-- ===== src/State/View.antt =====
-- What the operations of src/state.rs do to the sets that a state stands for: the live segments, the
-- dead ones, the seals and the metadata.
use woodshed.Base.{
  ℕ, not, ◌&&◌, ◌||◌, ◌≡◌, refl, true, false, ap, ◌∙◌, List, [], ◌∷◌, ◌++◌, Option, none, some,
  arith, ◌==◌, if◌then◌else◌,
}
use woodshed.Base.Dict.{lookup, contains, lookup-remove, contains-add, Once, Once-add}
use woodshed.State.{
  SegmentId, SegmentEntry, StoreState, Meta, is_live, find_segment, without, kill_segment, kill_all,
  set_meta, set_all,
}

pub is_live-without :
    (id j : SegmentId) (es : List SegmentEntry)
    → is_live j (without id es) ≡ (not (id == j) && is_live j es)
unfolding is_live without
is_live-without id j [] = ground arith
is_live-without id j (e ∷ es) = ground (arith, is_live-without id j es)

pub is_live-append :
    (j : SegmentId) (es fs : List SegmentEntry)
    → is_live j (es ++ fs) ≡ (is_live j es || is_live j fs)
unfolding is_live
is_live-append j [] fs = refl
is_live-append j (e ∷ es) fs = ground (arith, is_live-append j es fs)

pub find_segment-is_live :
    (id : SegmentId) (es : List SegmentEntry) (e : SegmentEntry)
    → find_segment id es ≡ some e
    → is_live id es ≡ true
unfolding find_segment is_live
find_segment-is_live id [] e h = absurd (ground arith)
find_segment-is_live id (x ∷ es) e h = ground (arith, find_segment-is_live id es e)

module _ (j : SegmentId) where
  -- The segments that are killed are live no more.
  pub is_live-kill_all :
      (s : StoreState) (ids : List SegmentId)
      → is_live j (kill_all s ids).segments ≡ (not (contains j ids) && is_live j s.segments)
  unfolding kill_all contains
  is_live-kill_all s [] = refl
  is_live-kill_all s (id ∷ ids) =
      is_live-kill_all (kill_segment s id) ids ∙ ground (arith, is_live-without id j s.segments)

  pub contains-kill_all :
      (s : StoreState) (ids : List SegmentId)
      → contains j (kill_all s ids).dead ≡ (contains j ids || contains j s.dead)
  unfolding kill_all contains
  contains-kill_all s [] = refl
  contains-kill_all s (id ∷ ids) =
      contains-kill_all (kill_segment s id) ids ∙ ground (arith, contains-add id j s.dead)

  pub lookup-kill_all :
      (s : StoreState) (ids : List SegmentId)
      → lookup j (kill_all s ids).seals ≡ (if contains j ids then none else lookup j s.seals)
  unfolding kill_all contains
  lookup-kill_all s [] = refl
  lookup-kill_all s (id ∷ ids) =
      lookup-kill_all (kill_segment s id) ids ∙ ground (arith, lookup-remove id j s.seals)

-- The dead segments are still listed once.
pub Once-kill_all :
    (s : StoreState) (ids : List SegmentId) → Once s.dead → Once (kill_all s ids).dead
unfolding kill_all
Once-kill_all s [] o = o
Once-kill_all s (id ∷ ids) o = Once-kill_all (kill_segment s id) ids (Once-add id s.dead o)

find_segment-without :
    (id j : SegmentId) (es : List SegmentEntry)
    → (id == j) ≡ false
    → find_segment j (without id es) ≡ find_segment j es
unfolding find_segment without
find_segment-without id j [] n = refl
find_segment-without id j (e ∷ es) n = ground (arith, find_segment-without id j es n)

-- A segment that is not killed is found as before.
pub find_segment-kill_all :
    (s : StoreState) (ids : List SegmentId) (j : SegmentId)
    → contains j ids ≡ false
    → find_segment j (kill_all s ids).segments ≡ find_segment j s.segments
unfolding kill_all contains
find_segment-kill_all s [] j n = refl
find_segment-kill_all s (id ∷ ids) j n =
    find_segment-kill_all (kill_segment s id) ids j (ground arith)
    ∙ find_segment-without id j s.segments (ground arith)

pub active-kill_all :
    (s : StoreState) (ids : List SegmentId)
    → (kill_all s ids).active_segment_id ≡ s.active_segment_id
unfolding kill_all
active-kill_all s [] = refl
active-kill_all s (id ∷ ids) = active-kill_all (kill_segment s id) ids

pub meta-kill_all : (s : StoreState) (ids : List SegmentId) → (kill_all s ids).meta ≡ s.meta
unfolding kill_all
meta-kill_all s [] = refl
meta-kill_all s (id ∷ ids) = meta-kill_all (kill_segment s id) ids

-- The last value that the pairs give a key, or the one before.
abbrev pub last_value : ℕ → Option (List ℕ) → Meta → Option (List ℕ)
last_value key old [] = old
last_value key old ((k, v) ∷ pairs) = last_value key (if k == key then some v else old) pairs

lookup-set_meta :
    (key j : ℕ) (value : List ℕ) (m : Meta)
    → lookup j (set_meta m key value) ≡ (if key == j then some value else lookup j m)
unfolding lookup set_meta
lookup-set_meta key j value [] = refl
lookup-set_meta key j value ((k, v) ∷ m) = ground (arith, lookup-set_meta key j value m)

-- Metadata pairs that are set one after the other give a key the last value that they have for it,
-- or leave the one that it had.
pub lookup-set_all :
    (j : ℕ) (m pairs : Meta) → lookup j (set_all m pairs) ≡ last_value j (lookup j m) pairs
unfolding set_all
lookup-set_all j m [] = refl
lookup-set_all j m ((key, value) ∷ pairs) =
    lookup-set_all j (set_meta m key value) pairs
    ∙ ap (λ o. last_value j o pairs) (lookup-set_meta key j value m)
