-- ===== src/Store/Tracked.antt =====
-- The last entry id of a store and of its seals (src/store.rs), and the frames.
use woodshed.Base.{
  ◌≡◌, ◌≢◌, refl, sym, ap, ◌∙◌, true, List, [], ◌∷◌, ◌++◌, Option, none, some, arith, ◌==◌, ==_refl,
  inl, inr, Bool-cases,
}
use woodshed.Base.Dict.{lookup, remove}
use woodshed.Frame.Frames.{Frame}
use woodshed.Frame.Summary.Loop.{last_id_or}
use woodshed.State
use woodshed.State.{
  StoreState, SegmentEntry, SealInfo, SegmentId, EntryId, is_live, seal, kill_segment, kill_all,
}
use woodshed.State.View.{lookup-kill_all}
use woodshed.State.Invariant.{IsWellFormed}
use woodshed.Scan.Segments.{Content}
use woodshed.Store.{World}
use woodshed.Store.Open.{first_seal, or_else}
use woodshed.Store.Order.{tip}
use woodshed.Store.Keeps.Held.{update, update_self}
use woodshed.Store.Log.{log_of}

abbrev pub last_or_first : Option EntryId → EntryId → EntryId
last_or_first none first = first
last_or_first (some last) first = last

-- The last entry is that of the segment `id`, a seal names the last entry of its segment, or the first
-- id where there is none, and no segment is sealed while `id` is empty.
pub record TrackedAt (content : Content) (s : StoreState) (id : SegmentId) (last : Option EntryId)
    : Type 0 where
  pub is_last : last ≡ last_id_or none (content id)
  pub seals :
      (j : SegmentId) (info : SealInfo)
      → lookup j s.seals ≡ some info
      → info.last_entry ≡ last_or_first (last_id_or none (content j)) info.first_entry
  pub unsealed : content id ≡ [] → s.seals ≡ []

-- The store's last entry and its seals are those of the frames.
abbrev pub Tracked : Content → World → Type 0
Tracked content w = TrackedAt content w.store.state w.store.active_id w.store.last_entry_id

last_id_or-append :
    (o : Option EntryId) (xs ys : List Frame)
    → last_id_or o (xs ++ ys) ≡ last_id_or (last_id_or o xs) ys
last_id_or-append o [] ys = refl
last_id_or-append o ((i, p) ∷ xs) ys = last_id_or-append (some i) xs ys

last_id_or-behind :
    (xs : List Frame) (f : Frame) (fs : List Frame)
    → last_id_or none (xs ++ (f ∷ fs)) ≡ last_id_or none (f ∷ fs)
last_id_or-behind xs (i, p) fs = last_id_or-append none xs ((i, p) ∷ fs)

not_empty : (xs : List Frame) (f : Frame) (fs : List Frame) → xs ++ (f ∷ fs) ≢ []
not_empty [] f fs e = absurd (ground arith)
not_empty (x ∷ xs) f fs e = absurd (ground arith)

-- The segment `to` holds the frames that end with `f ∷ fs`, and the other seals stay.
pub TrackedAt-put :
    (content : Content) (to : SegmentId) (xs : List Frame) (f : Frame) (fs : List Frame)
    (u : StoreState)
    → lookup to u.seals ≡ none
    → ((j : SegmentId) (info : SealInfo)
        → lookup j u.seals ≡ some info
        → info.last_entry ≡ last_or_first (last_id_or none (content j)) info.first_entry)
    → TrackedAt (update content to (xs ++ (f ∷ fs))) u to (last_id_or none (f ∷ fs))
TrackedAt-put content to xs f fs u free seals = record {
  is_last =
      sym (
        ap (last_id_or none) (update_self content to (xs ++ (f ∷ fs))) ∙ last_id_or-behind xs f fs);
  seals = λ j info e. elim (Bool-cases (to == j)) [
    | inl same ↦ absurd (ground arith)
    | inr other ↦ ground (arith, seals j info e)
  ];
  unsealed = λ e. absurd (not_empty xs f fs (sym (update_self content to (xs ++ (f ∷ fs))) ∙ e));
}

module _ (content : Content) (s : StoreState) (id : SegmentId) (last : Option EntryId)
    (t : TrackedAt content s id last) where
  -- Seals only go.
  pub TrackedAt-fewer :
      (u : StoreState)
      → ((j : SegmentId) (info : SealInfo)
          → lookup j u.seals ≡ some info
          → lookup j s.seals ≡ some info)
      → (s.seals ≡ [] → u.seals ≡ [])
      → TrackedAt content u id last
  TrackedAt-fewer u fewer none_left = record {
    is_last = t.is_last;
    seals = λ j info e. t.seals j info (fewer j info e);
    unsealed = λ e. none_left (t.unsealed e);
  }

seals-kill_all :
    (s : StoreState) (ids : List SegmentId) → s.seals ≡ [] → (kill_all s ids).seals ≡ []
unfolding kill_all remove
seals-kill_all s [] e = e
seals-kill_all s (id ∷ ids) e = seals-kill_all (kill_segment s id) ids (ground (arith, e))

pub TrackedAt-killed :
    (content : Content) (s : StoreState) (id : SegmentId) (last : Option EntryId)
    (ids : List SegmentId) (u : StoreState)
    → TrackedAt content s id last
    → u.seals ≡ (kill_all s ids).seals
    → TrackedAt content u id last
TrackedAt-killed content s id last ids u t same =
    TrackedAt-fewer content s id last t u (λ j info e. ground (arith, lookup-kill_all j s ids))
      (λ e. same ∙ seals-kill_all s ids e)

-- What opening finds to be the last entry.
first_seal-none : (s : StoreState) (es : List SegmentEntry) → s.seals ≡ [] → first_seal s es ≡ none
unfolding first_seal seal lookup
first_seal-none s [] e = refl
first_seal-none s (x ∷ es) e = ground (arith, first_seal-none s es e)

some_last :
    (o : Option EntryId) (f : Frame) (fs : List Frame) (g : Option EntryId)
    → or_else (last_id_or none (f ∷ fs)) g ≡ last_id_or none (f ∷ fs)
some_last o (i, p) [] g = refl
some_last o (i, p) (x ∷ fs) g = some_last o x fs g

pub last-reopened :
    (content : Content) (s : StoreState) (id : SegmentId) (last : Option EntryId)
    (es : List SegmentEntry) (fs : List Frame)
    → TrackedAt content s id last
    → content id ≡ fs
    → or_else (last_id_or none (content id)) (first_seal s es) ≡ last
last-reopened content s id last es [] t e =
    ground (arith, e, t.is_last, first_seal-none s es (t.unsealed e))
last-reopened content s id last es (f ∷ fs) t e =
    ap (λ l. or_else (last_id_or none l) (first_seal s es)) e
    ∙ some_last none f fs (first_seal s es)
    ∙ sym (t.is_last ∙ ap (last_id_or none) e)

-- The last of the log.
module _ (content : Content) (id : SegmentId) where
  log_last :
      (o : Option EntryId) (f : Frame) (fs : List Frame) (es : List SegmentEntry)
      → content id ≡ f ∷ fs
      → tip es ≡ some id
      → last_id_or o (log_of content es) ≡ last_id_or none (f ∷ fs)
  unfolding log_of tip
  log_last o f fs [] e t = absurd (ground arith)
  log_last o (i, p) fs (x ∷ []) e t =
      ap (λ j. last_id_or o (content j ++ [])) (ground arith)
      ∙ ap (λ l. last_id_or o (l ++ [])) e
      ∙ last_id_or-append (some i) fs []
  log_last o f fs (x ∷ y ∷ es) e t =
      last_id_or-append o (content x.id) (log_of content (y ∷ es))
      ∙ log_last (last_id_or o (content x.id)) f fs (y ∷ es) e t

  log_empty :
      (es : List SegmentEntry)
      → ((j : SegmentId) → is_live j es ≡ true → content j ≡ [])
      → log_of content es ≡ []
  unfolding log_of is_live
  log_empty [] e = refl
  log_empty (x ∷ es) e = ground (
    arith,
    ==_refl x.id,
    e x.id (ground (arith, ==_refl x.id)),
    log_empty es (λ j l. e j (ground arith)),
  )

  pub last_of_log :
      (s : StoreState) (last : Option EntryId) (fs : List Frame)
      → TrackedAt content s id last
      → IsWellFormed s
      → s.active_segment_id ≡ some id
      → tip s.segments ≡ some id
      → content id ≡ fs
      → last ≡ last_id_or none (log_of content s.segments)
  unfolding State.is_active lookup
  last_of_log s last [] t w active at e =
      t.is_last
      ∙ ap (last_id_or none) e
      ∙ sym (
          ap (last_id_or none) (
            log_empty s.segments (λ j l. elim (Bool-cases (id == j)) [
              | inl same ↦ ap content (ground arith) ∙ e
              | inr other ↦ absurd (ground (arith, (w j).live_sealed, t.unsealed e, active))
            ])))
  last_of_log s last (f ∷ fs) t w active at e =
      t.is_last ∙ ap (last_id_or none) e ∙ sym (log_last none f fs s.segments e at)
