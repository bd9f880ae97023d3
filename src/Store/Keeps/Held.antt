-- ===== src/Store/Keeps/Held.antt =====
-- How the agreement of a state with the segment files goes from one state or disk to the next.
use woodshed.Base.{
  ℕ, ◌≡◌, refl, Bool, true, false, ◌||◌, List, [], ◌∷◌, All, none, some, arith, ◌==◌, ==_refl,
  if◌then◌else◌,
}
use woodshed.Base.Dict.{lookup, remove, insert, contains, lookup-insert, lookup-remove}
use woodshed.Hash.{Hasher}
use woodshed.Frame.Format.{Fits}
use woodshed.Frame.Frames.{Frame}
use woodshed.Scan.Segments.{Content, Held, segment_content}
use woodshed.State.{
  StoreState, SegmentEntry, SealInfo, SegmentId, is_live, without, kill_segment, kill_all,
}
use woodshed.State.View.{is_live-without, is_live-kill_all, contains-kill_all, lookup-kill_all}
use woodshed.Store.Reader.{Apart}

-- The frames of one segment are others.
abbrev pub update : Content → SegmentId → List Frame → Content
update content id fs j = if id == j then fs else content j

pub update_self :
    (content : Content) (id : SegmentId) (fs : List Frame) → update content id fs id ≡ fs
update_self content id fs = ground (arith, ==_refl id)

pub All-choice :
    (b : Bool) (fs gs : List Frame)
    → (b ≡ true → All Fits fs)
    → (b ≡ false → All Fits gs)
    → All Fits (if b then fs else gs)
All-choice true fs gs p q = p refl
All-choice false fs gs p q = q refl

module _ ⦃h : Hasher⦄ (s : StoreState) (segments : List (SegmentId × List ℕ)) (content : Content)
    (held : Held s segments content) where
  -- No file changes, no segment is live anew, and each stays live or dead.
  pub Held-state :
      (t : StoreState)
      → ((j : SegmentId) → is_live j t.segments ≡ true → is_live j s.segments ≡ true)
      → ((j : SegmentId) (info : SealInfo)
          → lookup j t.seals ≡ some info
          → lookup j s.seals ≡ some info)
      → ((j : SegmentId)
          → contains j t.dead ≡ true
          → (is_live j s.segments || contains j s.dead) ≡ true)
      → ((j : SegmentId)
          → (is_live j s.segments || contains j s.dead) ≡ true
          → (is_live j t.segments || contains j t.dead) ≡ true)
      → Held t segments content
  Held-state t live seals dead kept = record {
    files = λ j l. held.files j (live j l);
    fits = λ j l. held.fits j (live j l);
    sizes = λ j info e. held.sizes j info (seals j info e);
    dead_there = λ j c. ground (arith, dead j c, held.files j, held.dead_there j);
    known = λ j k. kept j (held.known j k);
  }

  -- The file of a live segment without a seal changes.
  pub Held-insert :
      (id : SegmentId) (fs : List Frame)
      → is_live id s.segments ≡ true
      → lookup id s.seals ≡ none
      → All Fits fs
      → Held s (insert id (segment_content fs) segments) (update content id fs)
  Held-insert id fs live unsealed fits = record {
    files = λ j l. ground (arith, lookup-insert id j (segment_content fs) segments, held.files j l);
    fits = λ j l. All-choice (id == j) fs (content j) (λ b. fits) (λ b. held.fits j l);
    sizes = λ j info e. ground (arith, held.sizes j info e);
    dead_there = λ j c.
        ground (arith, lookup-insert id j (segment_content fs) segments, held.dead_there j c);
    known = λ j k. ground (arith, lookup-insert id j (segment_content fs) segments, held.known j);
  }

  -- The file of a dead segment goes, and the segment is dead no more.
  pub Held-remove :
      (id : SegmentId) (ids : List SegmentId)
      → is_live id s.segments ≡ false
      → contains id ids ≡ false
      → ((j : SegmentId) → contains j s.dead ≡ (id == j || contains j ids))
      → Held (record s { dead = ids }) (remove id segments) content
  Held-remove id ids apart once dead = record {
    files = λ j l. ground (arith, lookup-remove id j segments, held.files j l);
    fits = held.fits;
    sizes = held.sizes;
    dead_there = λ j c. ground (arith, lookup-remove id j segments, dead j, held.dead_there j);
    known = λ j k. ground (arith, lookup-remove id j segments, dead j, held.known j);
  }

  -- Live segments become dead.
  pub Held-killed :
      (ids : List SegmentId) (t : StoreState)
      → ((j : SegmentId) → contains j ids ≡ true → is_live j s.segments ≡ true)
      → t.segments ≡ (kill_all s ids).segments
      → t.dead ≡ (kill_all s ids).dead
      → ((j : SegmentId) (info : SealInfo)
          → lookup j t.seals ≡ some info
          → lookup j (kill_all s ids).seals ≡ some info)
      → Held t segments content
  Held-killed ids t were_live segs dead seals =
      Held-state t (λ j l. ground (arith, is_live-kill_all j s ids))
        (λ j info l. ground (arith, seals j info l, lookup-kill_all j s ids))
        (λ j d. ground (arith, were_live j, contains-kill_all j s ids))
        (λ j k. ground (arith, is_live-kill_all j s ids, contains-kill_all j s ids))

Apart-unless :
    (b : Bool) (e : SegmentEntry) (es : List SegmentEntry)
    → Apart es
    → is_live e.id es ≡ false
    → Apart (if b then es else e ∷ es)
Apart-unless true e es a p = a
Apart-unless false e es a p = (p, a)

Apart-without : (id : SegmentId) (es : List SegmentEntry) → Apart es → Apart (without id es)
unfolding without is_live
Apart-without id [] a = a
Apart-without id (e ∷ es) (p, a) =
    Apart-unless (e.id == id) e (without id es) (Apart-without id es a)
      (ground (arith, p, is_live-without id e.id es))

-- No id of a state stands twice where segments are killed.
pub Apart-kill_all :
    (s : StoreState) (ids : List SegmentId) → Apart s.segments → Apart (kill_all s ids).segments
unfolding kill_all
Apart-kill_all s [] a = a
Apart-kill_all s (id ∷ ids) a =
    Apart-kill_all (kill_segment s id) ids (Apart-without id s.segments a)

-- What is live or dead after it was so before.
pub known-kill_all :
    (s : StoreState) (ids : List SegmentId) (j : SegmentId)
    → (contains j ids ≡ true → is_live j s.segments ≡ true)
    → (is_live j (kill_all s ids).segments || contains j (kill_all s ids).dead) ≡ true
    → (is_live j s.segments || contains j s.dead) ≡ true
known-kill_all s ids j were_live k =
    ground (arith, is_live-kill_all j s ids, contains-kill_all j s ids)
