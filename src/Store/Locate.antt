-- ===== src/Store/Locate.antt =====
-- Where the index of a store that was just opened (src/store.rs, src/index.rs) finds an entry.
use woodshed.Base.{
  ◌+◌, ◌≤◌, ◌<◌, ◌≡◌, ◌⊎◌, refl, sym, ap, subst, ◌∙◌, Bool-cases, inl, inr, List, [], ◌∷◌, ◌++◌,
  All, All-append, All-split, none, some, Option-cases, leb, arith,
}
use woodshed.Files.{magic_len}
use woodshed.Frame.Frames.{Frame, frame_size}
use woodshed.Frame.Summary.Loop.{marks}
use woodshed.Index.{Checkpoint, IndexPosition}
use woodshed.Index.Floor.{or_else, last_upto, position_of, last_position, last_upto_above}
use woodshed.State.{SegmentEntry, EntryId}
use woodshed.Scan.{index_stride}
use woodshed.Scan.Segments.{Content}
use woodshed.Store.Log.{log_of}
use woodshed.Store.Rising.{Rising, Below, FromOn, Rising-split, FromOn-behind}
use woodshed.Store.Indexed.{marks-All, All-weaken, marks_of, indexed}

-- The segment `e` in which an entry is looked for: what is before it is before the entry, what is behind it
-- is not.
pub record Located (content : Content) (target : EntryId) (es : List SegmentEntry) : Type 0 where
  pub front : List SegmentEntry
  pub e : SegmentEntry
  pub back : List SegmentEntry
  pub position : IndexPosition
  pub same : es ≡ front ++ (e ∷ back)
  pub at_segment : position.segment ≡ e.id
  pub found : last_position target (indexed content es) ≡ some position
  pub before : Below target (log_of content front)
  pub behind : FromOn target (log_of content back)
  pub reached : (n : EntryId) → All (λ g. n < g.0) (log_of content es) → n < target

-- No entry is at the target or before it.
abbrev pub Absent : Content → EntryId → List SegmentEntry → Type 0
Absent content target es =
    (last_position target (indexed content es) ≡ none) × FromOn target (log_of content es)

module _ (content : Content) (target : EntryId) where
  Below-across :
      (fs gs : List Frame)
      → ((n : EntryId) → All (λ g. n < g.0) gs → n < target)
      → All (λ f. All (λ g. f.0 < g.0) gs) fs
      → Below target fs
  Below-across [] gs h a = tt
  Below-across (f ∷ fs) gs h (p, a) = (h f.0 p, Below-across fs gs h a)

  Located-front :
      (e : SegmentEntry) (es : List SegmentEntry)
      → All (λ f. All (λ g. f.0 < g.0) (log_of content es)) (content e.id)
      → Located content target es
      → Located content target (e ∷ es)
  unfolding log_of
  Located-front e es across l = record {
    front = e ∷ l.front;
    e = l.e;
    back = l.back;
    position = l.position;
    same = ap (λ t. e ∷ t) l.same;
    at_segment = l.at_segment;
    found =
        ap (λ o. or_else o (position_of e.id (last_upto target (marks_of (content e.id))))) l.found;
    before =
        All-append (λ f. f.0 < target) (content e.id) (log_of content l.front)
          (Below-across (content e.id) (log_of content es) l.reached across) l.before;
    behind = l.behind;
    reached = λ n a. l.reached n (All-split (λ g. n < g.0) (content e.id) (log_of content es) a).1;
  }

  -- The last checkpoint of a segment that starts by the target.
  upto_first :
      (f : Frame) (fs : List Frame)
      → f.0 ≤ target
      → (c : Checkpoint) × (last_upto target (marks_of (f ∷ fs)) ≡ some c)
  upto_first f fs le =
      elim (Option-cases (last_upto target (marks index_stride 1 (magic_len + frame_size f) fs))) [
        | inl bad ↦ ((f.0, magic_len), ground arith)
        | inr (c, good) ↦ (c, ground arith)
      ]

  Located-here :
      (e : SegmentEntry) (es : List SegmentEntry) (f : Frame) (fs : List Frame)
      → content e.id ≡ f ∷ fs
      → f.0 ≤ target
      → Absent content target es
      → Located content target (e ∷ es)
  unfolding log_of
  Located-here e es f fs held le (none_behind, behind) =
      let (c, upto) = upto_first f fs le in
      record {
        front = [];
        e = e;
        back = es;
        position = record { segment = e.id; checkpoint = c.0; byte_offset = c.1 };
        same = refl;
        at_segment = refl;
        found =
            ap (λ o. or_else o (position_of e.id (last_upto target (marks_of (content e.id)))))
              none_behind
            ∙ ap (λ l. position_of e.id (last_upto target (marks_of l))) held
            ∙ ap (position_of e.id) upto;
        before = tt;
        behind = behind;
        reached = λ n a.
            let (low, _) =
              subst (All (λ g. n < g.0)) held
                (All-split (λ g. n < g.0) (content e.id) (log_of content es) a).0 in
            omega (arith, low, le);
      }

  Absent-here :
      (e : SegmentEntry) (es : List SegmentEntry) (f : Frame) (fs : List Frame)
      → content e.id ≡ f ∷ fs
      → target < f.0
      → Rising (f ∷ fs)
      → Absent content target es
      → Absent content target (e ∷ es)
  unfolding log_of
  Absent-here e es f fs held lt (low, _) (none_behind, behind) = (
    ap (λ o. or_else o (position_of e.id (last_upto target (marks_of (content e.id))))) none_behind
        ∙ ap (λ l. position_of e.id (last_upto target (marks_of l))) held
        ∙ ap (position_of e.id) (
            last_upto_above target f.0 (marks_of (f ∷ fs)) lt (
              marks-All (λ n. f.0 ≤ n) index_stride 0 magic_len (f ∷ fs)
                (omega arith, All-weaken f.0 fs low))),
    All-append (λ g. target ≤ g.0) (content e.id) (log_of content es)
        (subst (FromOn target) (sym held)
          (omega (arith, lt), FromOn-behind target f.0 fs (omega (arith, lt)) low))
        behind,
  )

  Absent-empty :
      (e : SegmentEntry) (es : List SegmentEntry)
      → content e.id ≡ []
      → Absent content target es
      → Absent content target (e ∷ es)
  unfolding log_of
  Absent-empty e es held (none_behind, behind) = (
    ap (λ o. or_else o (position_of e.id (last_upto target (marks_of (content e.id))))) none_behind
        ∙ ap (λ l. position_of e.id (last_upto target (marks_of l))) held,
    subst (λ l. FromOn target (l ++ log_of content es)) (sym held) behind,
  )

  locate_in :
      (e : SegmentEntry) (es : List SegmentEntry) (fs : List Frame)
      → content e.id ≡ fs
      → Rising fs
      → Absent content target es
      → Absent content target (e ∷ es) ⊎ Located content target (e ∷ es)
  locate_in e es [] held r a = inl (Absent-empty e es held a)
  locate_in e es (f ∷ fs) held r a = elim (Bool-cases (leb f.0 target)) [
    | inl le ↦ inr (Located-here e es f fs held (ground arith) a)
    | inr gt ↦ inl (Absent-here e es f fs held (ground arith) r a)
  ]

  pub locate :
      (es : List SegmentEntry)
      → Rising (log_of content es)
      → Absent content target es ⊎ Located content target es
  unfolding log_of
  locate [] r = inl (refl, tt)
  locate (e ∷ es) r =
      let (here, there, across) = Rising-split (content e.id) (log_of content es) r in
      elim (locate es there) [
        | inl absent ↦ locate_in e es (content e.id) refl here absent
        | inr located ↦ inr (Located-front e es across located)
      ]
