-- ===== src/Index/Truncated.antt =====
-- What `find` (src/index.rs) finds after `truncate_end`.
use woodshed.Base.{
  ℕ, zero, suc, ◌≡◌, refl, sym, ap, subst, ◌∙◌, Bool-cases, inl, inr, true, false, min, take, List,
  [], ◌∷◌, none, All, arith, leb,
}
use woodshed.State.{SegmentId, EntryId}
use woodshed.Index.{
  Checkpoint, SegmentIndex, EntryIndex, partition_point, starts_by, find, trim_last,
  truncate_end_checkpoints, truncate_end,
}
use woodshed.Index.Floor.{
  or_else, position_of, last_upto, Ascending, Reached, Above, Ordered, last_position,
  last_position-Above, last_position-reached, find-last_position,
}
use woodshed.Index.Cut.{upto, last_upto-upto, Ascending-take, cut, Above-cut}

-- What is shown of the segments that are left.
abbrev IsCut :
    EntryId → EntryId → List (SegmentId × SegmentIndex) → List (SegmentId × SegmentIndex) → Type 0
IsCut target last_valid segs left =
    Ordered left × (last_position target left ≡ last_position (min target last_valid) segs)

All-cut :
    (last_valid : EntryId) (segs : List (SegmentId × SegmentIndex)) (cs : List Checkpoint)
    → All (λ c. Above c.0 segs) cs
    → All (λ c. Above c.0 (cut last_valid segs)) cs
All-cut last_valid segs [] a = tt
All-cut last_valid segs (c ∷ cs) (low, a) =
    (Above-cut c.0 last_valid segs low, All-cut last_valid segs cs a)

last_Reached : (cs : List Checkpoint) → Reached cs []
last_Reached [] = tt
last_Reached (c ∷ cs) = tt

last_Above : (cs : List Checkpoint) → All (λ c. Above c.0 []) cs
last_Above [] = tt
last_Above (c ∷ cs) = (tt, last_Above cs)

-- The first segment is the last that is left.
alone :
    (target last_valid id : ℕ) (c : Checkpoint) (cs : List Checkpoint)
    (rest : List (SegmentId × SegmentIndex))
    → Ascending (c ∷ cs)
    → leb c.0 last_valid ≡ true
    → none ≡ last_position (min target last_valid) rest
    → IsCut target last_valid
        ((id, record { checkpoints = c ∷ cs }) ∷ rest)
        ((id, record { checkpoints = upto last_valid (c ∷ cs) }) ∷ [])
alone target last_valid id c cs rest a le behind =
    let left = upto last_valid (c ∷ cs) in
    (
      (
        last_Reached left,
        Ascending-take (partition_point (λ d. leb d.0 last_valid) (c ∷ cs)) (c ∷ cs) a,
        last_Above left,
        tt,
      ),
      ap (position_of id) (last_upto-upto target last_valid (c ∷ cs) a)
          ∙ ap (λ o. or_else o (position_of id (last_upto (min target last_valid) (c ∷ cs))))
              behind,
    )

-- Behind the target there is a position in the segments behind, so that the first one does not count.
later_position :
    (target last_valid id k : ℕ) (c : Checkpoint) (cs : List Checkpoint)
    (rest : List (SegmentId × SegmentIndex))
    → partition_point (starts_by last_valid) rest ≡ suc k
    → or_else
        (last_position (min target last_valid) rest)
        (position_of id (last_upto target (c ∷ cs)))
      ≡ or_else
          (last_position (min target last_valid) rest)
          (position_of id (last_upto (min target last_valid) (c ∷ cs)))
later_position target last_valid id k c cs rest reached =
    elim (Bool-cases (leb target last_valid)) [
      | inl near ↦
          ap
            (λ m.
              or_else (last_position (min target last_valid) rest)
                (position_of id (last_upto m (c ∷ cs))))
            (ground arith)
      | inr far ↦
          let least : min target last_valid ≡ last_valid = ground arith in
          ground (arith, least, last_position-reached last_valid rest k reached)
    ]

-- Further segments are left behind the first.
more :
    (target last_valid id k : ℕ) (c : Checkpoint) (cs : List Checkpoint)
    (rest : List (SegmentId × SegmentIndex))
    → Ascending (c ∷ cs)
    → All (λ d. Above d.0 rest) (c ∷ cs)
    → partition_point (starts_by last_valid) rest ≡ suc k
    → IsCut target last_valid rest (cut last_valid rest)
    → IsCut target last_valid
        ((id, record { checkpoints = c ∷ cs }) ∷ rest)
        ((id, record { checkpoints = c ∷ cs }) ∷ cut last_valid rest)
more target last_valid id k c cs rest a above reached (o, same) = (
  (tt, a, All-cut last_valid rest (c ∷ cs) above, o),
  ap (λ p. or_else p (position_of id (last_upto target (c ∷ cs)))) same
      ∙ later_position target last_valid id k c cs rest reached,
)

-- The four cases of a segment in front.
cut_nothing : (last_valid id : ℕ) → cut last_valid ((id, record { checkpoints = [] }) ∷ []) ≡ []
unfolding partition_point starts_by trim_last
cut_nothing last_valid id = refl

module _ (last_valid id : ℕ) (c : Checkpoint) (cs : List Checkpoint) where
  cut_above :
      (rest : List (SegmentId × SegmentIndex))
      → leb c.0 last_valid ≡ false
      → cut last_valid ((id, record { checkpoints = c ∷ cs }) ∷ rest) ≡ []
  unfolding partition_point starts_by trim_last
  cut_above rest gt = ground arith

  cut_last :
      (rest : List (SegmentId × SegmentIndex))
      → leb c.0 last_valid ≡ true
      → partition_point (starts_by last_valid) rest ≡ 0
      → cut last_valid ((id, record { checkpoints = c ∷ cs }) ∷ rest)
        ≡ (id, record { checkpoints = upto last_valid (c ∷ cs) }) ∷ []
  unfolding partition_point starts_by trim_last truncate_end_checkpoints
  cut_last rest le none_there = ground arith

  cut_more :
      (rest : List (SegmentId × SegmentIndex)) (k : ℕ)
      → leb c.0 last_valid ≡ true
      → partition_point (starts_by last_valid) rest ≡ suc k
      → cut last_valid ((id, record { checkpoints = c ∷ cs }) ∷ rest)
        ≡ (id, record { checkpoints = c ∷ cs }) ∷ cut last_valid rest
  unfolding partition_point starts_by trim_last
  cut_more [] k le there = absurd (ground arith)
  cut_more (r ∷ rest) k le there = ground arith

-- One more segment in front.
front :
    (target last_valid id k : ℕ) (cs : List Checkpoint) (rest : List (SegmentId × SegmentIndex))
    → Reached cs rest
    → Ascending cs
    → All (λ d. Above d.0 rest) cs
    → partition_point (starts_by last_valid) rest ≡ k
    → IsCut target last_valid rest (cut last_valid rest)
    → IsCut target last_valid
        ((id, record { checkpoints = cs }) ∷ rest)
        (cut last_valid ((id, record { checkpoints = cs }) ∷ rest))
unfolding partition_point trim_last
front target last_valid id k [] [] n a above e ih =
    subst (IsCut target last_valid ((id, record { checkpoints = [] }) ∷ []))
      (sym (cut_nothing last_valid id)) (tt, refl)
front target last_valid id k [] (r ∷ rest) n a above e ih = absurd n
front target last_valid id k (c ∷ cs) rest n a above e ih = elim (Bool-cases (leb c.0 last_valid)) [
  | inl le ↦ behind k le e
  | inr gt ↦
      subst (IsCut target last_valid ((id, record { checkpoints = c ∷ cs }) ∷ rest))
        (sym (cut_above last_valid id c cs rest gt))
        (
          tt,
          sym (
              last_position-Above (min target last_valid) c.0
                ((id, record { checkpoints = c ∷ cs }) ∷ rest) (ground arith)
                ((omega arith, a.0), above.0)),
        )
]
  where
    behind :
        (k : ℕ)
        → leb c.0 last_valid ≡ true
        → partition_point (starts_by last_valid) rest ≡ k
        → IsCut target last_valid
            ((id, record { checkpoints = c ∷ cs }) ∷ rest)
            (cut last_valid ((id, record { checkpoints = c ∷ cs }) ∷ rest))
    behind zero le e =
        subst (IsCut target last_valid ((id, record { checkpoints = c ∷ cs }) ∷ rest))
          (sym (cut_last last_valid id c cs rest le e))
          (alone target last_valid id c cs rest a le
            (sym (ap (λ n. last_position target (trim_last last_valid (take n rest))) e) ∙ ih.1))
    behind (suc k) le e =
        subst (IsCut target last_valid ((id, record { checkpoints = c ∷ cs }) ∷ rest))
          (sym (cut_more last_valid id c cs rest k le e))
          (more target last_valid id k c cs rest a above e ih)

truncated :
    (target last_valid : EntryId) (segs : List (SegmentId × SegmentIndex))
    → Ordered segs
    → IsCut target last_valid segs (cut last_valid segs)
unfolding partition_point trim_last
truncated target last_valid [] o = (tt, refl)
truncated target last_valid ((id, index) ∷ rest) (n, a, l, o) =
    front target last_valid id (partition_point (starts_by last_valid) rest) index.checkpoints rest
      n a l refl (truncated target last_valid rest o)

-- On an index whose ids ascend and whose segments but the last have checkpoints, `EntryIndex::find` gives
-- the last position of all whose id is at most the target, and after `EntryIndex::truncate_end` the
-- last of those whose id is at most both the target and the last valid entry.
pub find-truncate_end :
    (index : EntryIndex) (target last_valid : EntryId)
    → Ordered index.segments
    → (find index target ≡ last_position target index.segments)
      × (find (truncate_end index last_valid) target
          ≡ last_position (min target last_valid) index.segments)
unfolding truncate_end
find-truncate_end index target last_valid o =
    let (still, same) = truncated target last_valid index.segments o in
    (
      find-last_position index target o,
      find-last_position (record { segments = cut last_valid index.segments }) target still ∙ same,
    )
