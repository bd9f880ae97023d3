-- ===== src/Store/Indexed.antt =====
-- The index (src/index.rs) of a store that was just opened (src/store.rs).
use woodshed.Base.{
  ℕ, ◌+◌, ◌%◌, ◌≤◌, ◌<◌, ◌≡◌, refl, sym, ap, ◌∙◌, Bool, true, false, List, [], ◌∷◌, ◌++◌, map,
  append-nil, append_assoc, All, All-split, ◌==◌, arith, if◌then◌else◌,
}
use woodshed.Files.{magic_len}
use woodshed.Frame.Frames.{Frame, frame_size}
use woodshed.Frame.Summary.Loop.{marks}
use woodshed.Index
use woodshed.Index.{Checkpoint, SegmentIndex, EntryIndex, IndexPosition, find}
use woodshed.Index.Floor.{Ascending, Reached, Above, Ordered}
use woodshed.State.{SegmentEntry, SegmentId, EntryId}
use woodshed.Scan.{index_stride}
use woodshed.Scan.Segments.{Content, clean_reports}
use woodshed.Store.Open.{index_of}
use woodshed.Store.Log.{log_of}
use woodshed.Store.Rising.{Rising, Rising-split}

-- The checkpoints of a segment that holds the frames.
abbrev pub marks_of : List Frame → List Checkpoint
marks_of = marks index_stride 0 magic_len

abbrev pub indexed : Content → List SegmentEntry → List (SegmentId × SegmentIndex)
indexed content = map λ e. (e.id, record { checkpoints = marks_of (content e.id) })

index_of-append :
    (content : Content) (es : List SegmentEntry) (before : List (SegmentId × SegmentIndex))
    → index_of (record { segments = before }) (clean_reports content es)
      ≡ record { segments = before ++ indexed content es }
unfolding index_of Index.add_segment
index_of-append content [] before = ap (λ l. record { segments = l }) (sym (append-nil before))
index_of-append content (e ∷ es) before =
    index_of-append content es
      (before ++ ((e.id, record { checkpoints = marks_of (content e.id) }) ∷ []))
    ∙ ap (λ l. record { segments = l })
        (append_assoc before ((e.id, record { checkpoints = marks_of (content e.id) }) ∷ [])
          (indexed content es))

pub index_of-indexed :
    (content : Content) (es : List SegmentEntry)
    → index_of Index.new (clean_reports content es) ≡ record { segments = indexed content es }
index_of-indexed content es = index_of-append content es []

All-unless {κ} :
    (P : ℕ → Type κ) (b : Bool) (c : Checkpoint) (cs : List Checkpoint)
    → P c.0
    → All (λ c. P c.0) cs
    → All (λ c. P c.0) (if b then c ∷ cs else cs)
All-unless P true c cs p h = (p, h)
All-unless P false c cs p h = h

pub marks-All {κ} :
    (P : ℕ → Type κ) (stride i pos : ℕ) (fs : List Frame)
    → All (λ f. P f.0) fs
    → All (λ c. P c.0) (marks stride i pos fs)
marks-All P stride i pos [] h = tt
marks-All P stride i pos ((id, payload) ∷ fs) (p, h) =
    All-unless P (i % stride == 0) (id, pos)
      (marks stride (i + 1) (pos + frame_size (id, payload)) fs) p
      (marks-All P stride (i + 1) (pos + frame_size (id, payload)) fs h)

Ascending-unless :
    (b : Bool) (c : Checkpoint) (cs : List Checkpoint)
    → All (λ d. c.0 ≤ d.0) cs
    → Ascending cs
    → Ascending (if b then c ∷ cs else cs)
Ascending-unless true c cs low a = (low, a)
Ascending-unless false c cs low a = a

pub All-weaken : (n : ℕ) (fs : List Frame) → All (λ g. n < g.0) fs → All (λ g. n ≤ g.0) fs
All-weaken n [] h = tt
All-weaken n (f ∷ fs) (lt, h) = (omega arith, All-weaken n fs h)

marks-Ascending :
    (stride i pos : ℕ) (fs : List Frame) → Rising fs → Ascending (marks stride i pos fs)
marks-Ascending stride i pos [] r = tt
marks-Ascending stride i pos ((id, payload) ∷ fs) (low, r) =
    let rest = marks stride (i + 1) (pos + frame_size (id, payload)) fs in
    Ascending-unless (i % stride == 0) (id, pos) rest
      (marks-All (λ n. id ≤ n) stride (i + 1) (pos + frame_size (id, payload)) fs
        (All-weaken id fs low))
      (marks-Ascending stride (i + 1) (pos + frame_size (id, payload)) fs r)

-- The first frame of a segment has a checkpoint.
marks_of-first :
    (f : Frame) (fs : List Frame)
    → marks_of (f ∷ fs) ≡ (f.0, magic_len) ∷ marks index_stride 1 (magic_len + frame_size f) fs
marks_of-first f fs = refl

-- There is a frame, or no segment behind.
abbrev pub HasFrame : List Frame → List SegmentEntry → Type 0
HasFrame [] [] = Unit
HasFrame [] (e ∷ es) = ⊥
HasFrame (f ∷ fs) es = Unit

-- Every segment but the last has a frame.
abbrev pub Filled : Content → List SegmentEntry → Type 0
Filled content [] = Unit
Filled content (e ∷ es) = HasFrame (content e.id) es × Filled content es

module _ (content : Content) where
  indexed-Reached :
      (fs : List Frame) (es : List SegmentEntry)
      → HasFrame fs es
      → Reached (marks_of fs) (indexed content es)
  indexed-Reached [] [] h = tt
  indexed-Reached [] (e ∷ es) h = absurd h
  indexed-Reached (f ∷ fs) es h = tt

  indexed-Above :
      (n : EntryId) (es : List SegmentEntry)
      → All (λ g. n < g.0) (log_of content es)
      → Above n (indexed content es)
  unfolding log_of
  indexed-Above n [] h = tt
  indexed-Above n (e ∷ es) h =
      let (here, there) = All-split (λ g. n < g.0) (content e.id) (log_of content es) h in
      (
        marks-All (λ i. n ≤ i) index_stride 0 magic_len (content e.id)
            (All-weaken n (content e.id) here),
        indexed-Above n es there,
      )

  All-indexed-Above :
      (fs : List Frame) (es : List SegmentEntry)
      → All (λ f. All (λ g. f.0 < g.0) (log_of content es)) fs
      → All (λ f. Above f.0 (indexed content es)) fs
  All-indexed-Above [] es h = tt
  All-indexed-Above (f ∷ fs) es (p, h) = (indexed-Above f.0 es p, All-indexed-Above fs es h)

  pub indexed-Ordered :
      (es : List SegmentEntry)
      → Rising (log_of content es)
      → Filled content es
      → Ordered (indexed content es)
  unfolding log_of
  indexed-Ordered [] r filled = tt
  indexed-Ordered (e ∷ es) r (has, filled) =
      let (here, there, across) = Rising-split (content e.id) (log_of content es) r in
      (
        indexed-Reached (content e.id) es has,
        marks-Ascending index_stride 0 magic_len (content e.id) here,
        marks-All (λ n. Above n (indexed content es)) index_stride 0 magic_len (content e.id)
            (All-indexed-Above (content e.id) es across),
        indexed-Ordered es there filled,
      )
