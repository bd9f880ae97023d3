-- ===== src/Store/Order.antt =====
-- The order of the live segments (src/store.rs).
use woodshed.Base.{
  ℕ, zero, suc, ◌+◌, ◌-◌, ◌≡◌, refl, sym, ap, ◌∙◌, Bool, true, false, List, [], ◌∷◌, ◌++◌, map,
  drop, get_elem?, append-nil, Option, none, some, Option-cases, inl, inr, arith, ◌==◌, ==_refl,
  if◌then◌else◌, leb,
}
use woodshed.Base.Dict.{contains}
use woodshed.Index.{partition_point}
use woodshed.State.{
  StoreState, SegmentEntry, SegmentId, EntryId, is_live, find_segment, without, kill_segment,
  kill_all,
}
use woodshed.State.View.{is_live-append}
use woodshed.Store.Truncate.{tail_split}
use woodshed.Store.Reader.{Apart}

-- The id of the last segment of the list.
unfoldable pub tip : List SegmentEntry → Option SegmentId
tip [] = none
tip (e ∷ []) = some e.id
tip (e ∷ x ∷ es) = tip (x ∷ es)

abbrev pub ids_of : List SegmentEntry → List SegmentId
ids_of = map λ e. e.id

pub contains-ids_of :
    (es : List SegmentEntry) (j : SegmentId) → contains j (ids_of es) ≡ is_live j es
unfolding contains is_live
contains-ids_of [] j = refl
contains-ids_of (e ∷ es) j = ground (arith, contains-ids_of es j)

pub tip-append :
    (es fs : List SegmentEntry) (e : SegmentEntry) → tip (es ++ (e ∷ fs)) ≡ tip (e ∷ fs)
unfolding tip
tip-append [] fs e = refl
tip-append (x ∷ []) fs e = refl
tip-append (x ∷ y ∷ es) fs e = tip-append (y ∷ es) fs e

pub contains-tip :
    (es : List SegmentEntry) (j : SegmentId) → tip es ≡ some j → contains j (ids_of es) ≡ true
unfolding tip contains
contains-tip [] j t = absurd (ground arith)
contains-tip (e ∷ []) j t = ground arith
contains-tip (e ∷ x ∷ es) j t = ground (arith, contains-tip (x ∷ es) j t)

pub tip-is_live : (es : List SegmentEntry) (j : SegmentId) → tip es ≡ some j → is_live j es ≡ true
tip-is_live es j t = sym (contains-ids_of es j) ∙ contains-tip es j t

tip-unless :
    (b : Bool) (e : SegmentEntry) (es : List SegmentEntry) (j : SegmentId)
    → tip es ≡ some j
    → tip (if b then es else e ∷ es) ≡ some j
unfolding tip
tip-unless true e es j t = t
tip-unless false e [] j t = absurd (ground arith)
tip-unless false e (x ∷ es) j t = t

tip-without :
    (id j : SegmentId) (es : List SegmentEntry)
    → (id == j) ≡ false
    → tip es ≡ some j
    → tip (without id es) ≡ some j
unfolding tip without
tip-without id j [] n t = absurd (ground arith)
tip-without id j (e ∷ []) n t = ground arith
tip-without id j (e ∷ x ∷ es) n t =
    tip-unless (e.id == id) e (without id (x ∷ es)) j (tip-without id j (x ∷ es) n t)

-- The last segment stays the last where others are killed.
pub tip-kill_all :
    (s : StoreState) (ids : List SegmentId) (j : SegmentId)
    → contains j ids ≡ false
    → tip s.segments ≡ some j
    → tip (kill_all s ids).segments ≡ some j
unfolding kill_all contains
tip-kill_all s [] j n t = t
tip-kill_all s (id ∷ ids) j n t =
    tip-kill_all (kill_segment s id) ids j (ground arith)
      (tip-without id j s.segments (ground arith) t)

without_absent :
    (id : SegmentId) (es : List SegmentEntry) → is_live id es ≡ false → without id es ≡ es
unfolding without is_live
without_absent id [] n = refl
without_absent id (e ∷ es) n = ground (arith, without_absent id es)

-- The segment at a place of the list, and those before and behind it.
pub is_live-here : (e : SegmentEntry) (es : List SegmentEntry) → is_live e.id (e ∷ es) ≡ true
unfolding is_live
is_live-here e es = ground (arith, ==_refl e.id)

without-middle :
    (front back : List SegmentEntry) (e : SegmentEntry)
    → Apart (front ++ (e ∷ back))
    → without e.id (front ++ (e ∷ back)) ≡ front ++ back
unfolding without
without-middle [] back e (p, a) = ground (arith, ==_refl e.id, without_absent e.id back p)
without-middle (x ∷ front) back e (p, a) = ground (
  arith,
  without-middle front back e a,
  p,
  is_live-append x.id front (e ∷ back),
  is_live-here e back,
)

Apart-middle :
    (front back : List SegmentEntry) (e : SegmentEntry)
    → Apart (front ++ (e ∷ back))
    → Apart (front ++ back)
unfolding is_live
Apart-middle [] back e (p, a) = a
Apart-middle (x ∷ front) back e (p, a) = (
  ground (arith, p, is_live-append x.id front (e ∷ back), is_live-append x.id front back),
  Apart-middle front back e a,
)

-- Killing all segments behind a place leaves those before it.
pub kill_all-back :
    (back front : List SegmentEntry) (s : StoreState)
    → s.segments ≡ front ++ back
    → Apart (front ++ back)
    → (kill_all s (ids_of back)).segments ≡ front
unfolding kill_all
kill_all-back [] front s e a = e ∙ append-nil front
kill_all-back (x ∷ back) front s e a =
    kill_all-back back front (kill_segment s x.id)
      (ap (without x.id) e ∙ without-middle front back x a) (Apart-middle front back x a)

-- A segment with another id behind the rest.
pub Apart-append :
    (es : List SegmentEntry) (e : SegmentEntry)
    → Apart es
    → is_live e.id es ≡ false
    → Apart (es ++ (e ∷ []))
unfolding is_live
Apart-append [] e a l = (refl, tt)
Apart-append (x ∷ es) e (p, a) l =
    (ground (arith, is_live-append x.id es (e ∷ [])), Apart-append es e a (ground arith))

pub find_segment-append :
    (es : List SegmentEntry) (e : SegmentEntry)
    → is_live e.id es ≡ false
    → find_segment e.id (es ++ (e ∷ [])) ≡ some e
unfolding find_segment is_live
find_segment-append [] e l = ground (arith, ==_refl e.id)
find_segment-append (x ∷ es) e l = ground (arith, find_segment-append es e)

-- The id of a segment stands neither before it nor behind it.
pub Apart-split :
    (front back : List SegmentEntry) (e : SegmentEntry)
    → Apart (front ++ (e ∷ back))
    → (is_live e.id front ≡ false) × (contains e.id (ids_of back) ≡ false)
unfolding is_live contains
Apart-split [] [] e (p, a) = (refl, refl)
Apart-split [] (x ∷ back) e (p, a) = (refl, ground (arith, p, contains-ids_of (x ∷ back) e.id))
Apart-split (x ∷ front) back e (p, a) =
    ground (arith, p, is_live-append x.id front (e ∷ back), Apart-split front back e a)

split_at :
    (es : List SegmentEntry) (i : ℕ) (e : SegmentEntry)
    → get_elem? es i ≡ some e
    → (front : List SegmentEntry) × (es ≡ front ++ (e ∷ drop (suc i) es))
split_at [] i e h = absurd (ground arith)
split_at (x ∷ es) zero e h = ([], ground arith)
split_at (x ∷ es) (suc i) e h =
    let (front, same) = split_at es i e h in (x ∷ front, ap (λ l. x ∷ l) same)

-- Where `truncate_end` splits the live segments.
pub tail_split-split :
    (segs : List SegmentEntry) (v : EntryId) (id : SegmentId) (dropped : List SegmentId)
    → tail_split segs v ≡ some (id, dropped)
    → (front : List SegmentEntry) × (e : SegmentEntry) × (back : List SegmentEntry) × (segs
        ≡ front ++ (e ∷ back))
      × (e.id ≡ id)
      × (ids_of back ≡ dropped)
unfolding tail_split
tail_split-split segs v id dropped h = elim (Option-cases (get_elem? segs (p - 1))) [
  | inl n ↦ absurd (ground arith)
  | inr (e, q) ↦
      let (front, same) = split_at segs (p - 1) e q in
      (
        front,
        e,
        drop (p - 1 + 1) segs,
        same ∙ ap (λ n. front ++ (e ∷ drop n segs)) {x = suc (p - 1)} (omega arith),
        ground arith,
        ground arith,
      )
]
  where
    p : ℕ
    p = partition_point (λ s. leb s.first_entry v) segs
