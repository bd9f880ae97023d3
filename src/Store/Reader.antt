-- ===== src/Store/Reader.antt =====
-- `StoreReader::next` (src/store.rs) always ends.
use woodshed.Base.{
  ℕ, zero, suc, ◌≤◌, ◌<◌, ◌≡◌, refl, true, false, List, [], ◌∷◌, length, Option, none, some, Result,
  ok, err, arith, ◌==◌, if◌then◌else◌,
}
use woodshed.Files.{Disk}
use woodshed.Frame.Scanner
use woodshed.Frame.Scanner.{FrameScanner, FrameReader, ScanError}
use woodshed.State.{StoreState, SegmentEntry, SegmentId, is_live}
use woodshed.Store.Read.{
  Item, Position, StoreReader, nothing, ended, next_segment, advance, next_step, next_loop, next,
}

-- No id stands in the list twice.
abbrev pub Apart : List SegmentEntry → Type 0
Apart [] = Unit
Apart (e ∷ es) = (is_live e.id es ≡ false) × Apart es

-- How many segments stand behind the first with this id.
unfoldable behind : SegmentId → List SegmentEntry → ℕ
behind id [] = 0
behind id (e ∷ es) = let rest = behind id es in if e.id == id then length es else rest

behind-le-length : (id : SegmentId) (es : List SegmentEntry) → behind id es ≤ length es
unfolding behind
behind-le-length id [] = omega arith
behind-le-length id (e ∷ es) = ground (arith, behind-le-length id es)

next_segment-is_live :
    (id n : SegmentId) (es : List SegmentEntry) → next_segment id es ≡ some n → is_live n es ≡ true
unfolding next_segment is_live
next_segment-is_live id n [] e = ground arith
next_segment-is_live id n (x ∷ []) e = ground arith
next_segment-is_live id n (x ∷ y ∷ es) e = ground (arith, next_segment-is_live id n (y ∷ es))

next_segment-behind :
    (id n : SegmentId) (es : List SegmentEntry)
    → Apart es
    → next_segment id es ≡ some n
    → behind n es < behind id es
unfolding next_segment behind is_live
next_segment-behind id n [] a e = absurd (ground arith)
next_segment-behind id n (x ∷ []) a e = absurd (ground arith)
next_segment-behind id n (x ∷ y ∷ es) (a, b) e =
    ground (arith, next_segment-behind id n (y ∷ es) b, next_segment-is_live id n (y ∷ es))

-- The loop ends where the segments behind are fewer than the rounds.
module _ (d : Disk) (state : StoreState) (apart : Apart state.segments) where
  advance-id :
      (id : SegmentId) (p : Position)
      → advance d (next_segment id state.segments) ≡ ok p
      → next_segment id state.segments ≡ some p.0
  unfolding advance
  advance-id id p e = ground arith

  module _ (id : SegmentId) (go : Position → Option Item)
      (ends : (p : Position)
        → next_segment id state.segments ≡ some p.0
        → (item : Item) × (go p ≡ some item)) where
    advance-ends :
        (r : Result Item Position)
        → advance d (next_segment id state.segments) ≡ r
        → (item : Item) × ((elim r [ err item ↦ some item | ok p ↦ go p ]) ≡ some item)
    advance-ends (err item) e = (item, refl)
    advance-ends (ok p) e = ends p (advance-id id p e)

    next_step-ends :
        (r : Result ScanError (Option FrameReader) × FrameScanner)
        → (item : Item) × (next_step d state id r go ≡ some item)
    unfolding next_step
    next_step-ends (err e, s') = (_, refl)
    next_step-ends (ok (some r), s') = (_, refl)
    next_step-ends (ok none, s') = advance-ends (advance d (next_segment id state.segments)) refl

  next_loop-ends :
      (fuel : ℕ) (p : Position)
      → behind p.0 state.segments < fuel
      → (item : Item) × (next_loop fuel d state p ≡ some item)
  unfolding next_loop
  next_loop-ends zero p b = absurd (omega arith)
  next_loop-ends (suc fuel) (id, s) b =
      next_step-ends id (next_loop fuel d state)
        (λ p e.
          next_loop-ends fuel p (omega (arith, next_segment-behind id p.0 state.segments apart e)))
        (Scanner.read s)

-- Where no two segments of the state have the same id, `next` gives an item in at most one round for
-- each segment, whatever the files hold.
pub next-ends :
    (d : Disk) (state : StoreState) (reader : StoreReader)
    → Apart state.segments
    → (item : Item) × (next d state reader ≡ some item)
unfolding next
next-ends d state reader apart = from reader.scanner
  where
    from :
        (o : Option Position)
        → (item : Item) × ((elim o [
          | none ↦ some (ended nothing)
          | some p ↦ next_loop (suc (length state.segments)) d state p
        ])
            ≡ some item)
    from none = (_, refl)
    from (some p) =
        next_loop-ends d state apart (suc (length state.segments)) p
          (omega (arith, behind-le-length p.0 state.segments))
