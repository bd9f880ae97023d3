-- ===== src/State/Codec/RoundTrip.antt =====
-- `decode` reads back what `encode` wrote (src/state.rs).
use woodshed.Base.{
  ℕ, ◌^◌, ◌<◌, ◌≡◌, refl, ap, ap₂, ◌∙◌, List, [], ◌∷◌, ◌++◌, All, All-append, length, map, arith,
  ok, append-nil,
}
use woodshed.Yatlv.{Yatlv, Field, frame, FitsField, first, all_of, Each₂, leaves}
use woodshed.State.{
  Op, ManifestOp, Meta, SegmentId, create_segment, roll_segment, truncate_start, truncate_end,
  segment_deleted, record_orphan, metadata,
}
use woodshed.State.Codec.{
  tag_op_type, tag_segment_id, tag_first_entry, tag_last_entry, tag_entry_count, tag_final_size,
  tag_new_segment_id, tag_new_first_entry, tag_byte_offset, tag_drop_id, tag_meta, tag_meta_key,
  tag_meta_value, op_code, op_fields, fields, drop_field, meta_field, meta_leaves, collect, encode,
  decode, decode_op, decode_pair,
}

-- The widths of the fields of an operation.
abbrev pub FitsOp : Op → Type 0
FitsOp (create_segment id first) = (id < 2 ^ 32) × (first < 2 ^ 64)
FitsOp (roll_segment sealed_id first last count size new_id new_first) =
    (sealed_id < 2 ^ 32)
    × (first < 2 ^ 64)
    × (last < 2 ^ 64)
    × (count < 2 ^ 32)
    × (size < 2 ^ 64)
    × (new_id < 2 ^ 32)
    × (new_first < 2 ^ 64)
FitsOp (truncate_start first drop) = (first < 2 ^ 64) × All (λ id. id < 2 ^ 32) drop
FitsOp (truncate_end new_active offset drop) =
    (new_active < 2 ^ 32) × (offset < 2 ^ 64) × All (λ id. id < 2 ^ 32) drop
FitsOp (segment_deleted id) = id < 2 ^ 32
FitsOp (record_orphan id) = id < 2 ^ 32
FitsOp metadata = Unit

abbrev pub FitsEntry : ManifestOp → Type 0
FitsEntry e = FitsOp e.op × All (λ pair. pair.0 < 2 ^ 8) e.meta

drops_fit :
    (ids : List SegmentId) → All (λ id. id < 2 ^ 32) ids → All FitsField (map drop_field ids)
drops_fit [] h = tt
drops_fit (id ∷ ids) (h, hs) = (h, drops_fit ids hs)

metas_fit : (m : Meta) → All (λ pair. pair.0 < 2 ^ 8) m → All FitsField (map meta_field m)
metas_fit [] h = tt
metas_fit (pair ∷ m) (h, hs) = ((h, (tt, tt)), metas_fit m hs)

op_fields_fit : (op : Op) → FitsOp op → All FitsField (op_fields op)
unfolding op_fields
op_fields_fit (create_segment id from) h = (h.0, (h.1, tt))
op_fields_fit (roll_segment a b c d e f g) h = (h.0, (h.1, (h.2, (h.3, (h.4, (h.5, (h.6, tt)))))))
op_fields_fit (truncate_start from drop) h = (h.0, drops_fit drop h.1)
op_fields_fit (truncate_end new_active offset drop) h = (h.0, (h.1, drops_fit drop h.2))
op_fields_fit (segment_deleted id) h = (h, tt)
op_fields_fit (record_orphan id) h = (h, tt)
op_fields_fit metadata h = tt

fields_fit : (e : ManifestOp) → FitsEntry e → All FitsField (fields e)
unfolding fields op_code
fields_fit e h = (
  code_fits e.op,
  All-append FitsField (op_fields e.op) _ (op_fields_fit e.op h.0) (metas_fit e.meta h.1),
)
  where
    code_fits : (op : Op) → op_code op < 2 ^ 8
    code_fits (create_segment _ _) = omega arith
    code_fits (roll_segment _ _ _ _ _ _ _) = omega arith
    code_fits (truncate_start _ _) = omega arith
    code_fits (truncate_end _ _ _) = omega arith
    code_fits (segment_deleted _) = omega arith
    code_fits (record_orphan _) = omega arith
    code_fits metadata = omega arith

all_of-append :
    (tag : ℕ) (fs gs : List Field) → all_of tag (fs ++ gs) ≡ all_of tag fs ++ all_of tag gs
all_of-append tag [] gs = refl
all_of-append tag (f ∷ fs) gs = ground (arith, all_of-append tag fs gs)

drops_of_drops :
    (ids : List SegmentId) → all_of tag_drop_id (map drop_field ids) ≡ map drop_field ids
drops_of_drops [] = refl
drops_of_drops (id ∷ ids) = ap (λ t. drop_field id ∷ t) (drops_of_drops ids)

drops_of_metas : (m : Meta) → all_of tag_drop_id (map meta_field m) ≡ []
drops_of_metas [] = refl
drops_of_metas (pair ∷ m) = drops_of_metas m

metas_of_drops : (ids : List SegmentId) → all_of tag_meta (map drop_field ids) ≡ []
metas_of_drops [] = refl
metas_of_drops (id ∷ ids) = metas_of_drops ids

metas_of_metas :
    (m : Meta)
    → all_of tag_meta (map meta_field m) ≡ map (λ ls. frame tag_meta ls) (map meta_leaves m)
metas_of_metas [] = refl
metas_of_metas (pair ∷ m) = ap (λ t. meta_field pair ∷ t) (metas_of_metas m)

-- Behind the fixed fields stand the ids and then the metadata.
drops_behind :
    (ids : List SegmentId) (m : Meta)
    → all_of tag_drop_id (map drop_field ids ++ map meta_field m) ≡ map drop_field ids
drops_behind ids m =
    all_of-append tag_drop_id (map drop_field ids) (map meta_field m)
    ∙ ap₂ (λ a b. a ++ b) (drops_of_drops ids) (drops_of_metas m)
    ∙ append-nil (map drop_field ids)

metas_behind :
    (ids : List SegmentId) (m : Meta)
    → all_of tag_meta (map drop_field ids ++ map meta_field m)
      ≡ map (λ ls. frame tag_meta ls) (map meta_leaves m)
metas_behind ids m =
    all_of-append tag_meta (map drop_field ids) (map meta_field m)
    ∙ ap₂ (λ a b. a ++ b) (metas_of_drops ids) (metas_of_metas m)

metas_of_entry :
    (e : ManifestOp)
    → all_of tag_meta (fields e) ≡ map (λ ls. frame tag_meta ls) (map meta_leaves e.meta)
unfolding fields op_fields
metas_of_entry e = go e.op
  where
    go :
        (op : Op)
        → all_of tag_meta (op_fields op ++ map meta_field e.meta)
          ≡ map (λ ls. frame tag_meta ls) (map meta_leaves e.meta)
    go (create_segment _ _) = metas_of_metas e.meta
    go (roll_segment _ _ _ _ _ _ _) = metas_of_metas e.meta
    go (truncate_start _ drop) = metas_behind drop e.meta
    go (truncate_end _ _ drop) = metas_behind drop e.meta
    go (segment_deleted _) = metas_of_metas e.meta
    go (record_orphan _) = metas_of_metas e.meta
    go metadata = metas_of_metas e.meta

collect-map_ok : (E : Type 0) {A : Type 0} (xs : List A) → collect {E = E} (map ok xs) ≡ ok xs
unfolding collect
collect-map_ok E [] = refl
collect-map_ok E (x ∷ xs) = rw (collect-map_ok E xs)

module _ ⦃y : Yatlv⦄ where
  read_pairs :
      (ps : List y.Parser) (m : Meta)
      → Each₂ (λ q ls. y.Reads q (leaves ls)) ps (map meta_leaves m)
      → collect (map decode_pair (map ok ps)) ≡ ok m
  unfolding collect decode_pair
  read_pairs [] [] h = refl
  read_pairs [] (pair ∷ m) h = absurd h
  read_pairs (p ∷ ps) [] h = absurd h
  read_pairs (p ∷ ps) ((key, value) ∷ m) (reads, h) = rw (
    y.get_u8-first p _ tag_meta_key key reads refl,
    y.get_data-first p _ tag_meta_value value reads refl,
    read_pairs ps m h,
  )

  decode_op-fields :
      (p : y.Parser) (op : Op) (m : Meta)
      → y.Reads p (fields (record { op = op; meta = m }))
      → decode_op (op_code op) p ≡ ok op
  unfolding fields decode_op op_code op_fields
  decode_op-fields p (create_segment id first) m r = rw (
    y.get_u32-first p _ tag_segment_id id r refl,
    y.get_u64-first p _ tag_first_entry first r refl,
  )
  decode_op-fields p (roll_segment a b c d e f g) m r = rw (
    y.get_u32-first p _ tag_segment_id a r refl,
    y.get_u64-first p _ tag_first_entry b r refl,
    y.get_u64-first p _ tag_last_entry c r refl,
    y.get_u32-first p _ tag_entry_count d r refl,
    y.get_u64-first p _ tag_final_size e r refl,
    y.get_u32-first p _ tag_new_segment_id f r refl,
    y.get_u64-first p _ tag_new_first_entry g r refl,
  )
  decode_op-fields p (truncate_start first drop) m r = rw (
    y.get_u64-first p _ tag_first_entry first r refl,
    y.get_u32s-all p _ tag_drop_id drop r (drops_behind drop m),
    collect-map_ok y.Error drop,
  )
  decode_op-fields p (truncate_end new_active offset drop) m r = rw (
    y.get_u32-first p _ tag_new_segment_id new_active r refl,
    y.get_u64-first p _ tag_byte_offset offset r refl,
    y.get_u32s-all p _ tag_drop_id drop r (drops_behind drop m),
    collect-map_ok y.Error drop,
  )
  decode_op-fields p (segment_deleted id) m r = rw (y.get_u32-first p _ tag_segment_id id r refl)
  decode_op-fields p (record_orphan id) m r = rw (y.get_u32-first p _ tag_segment_id id r refl)
  decode_op-fields p metadata m r = refl

  -- A manifest entry of in-range values, whose encoding stays below 2 ^ 32 bytes, is decoded from
  -- its encoding as it was.
  pub decode-encode :
      (e : ManifestOp) → FitsEntry e → length (encode e) < 2 ^ 32 → decode (encode e) ≡ ok e
  unfolding decode encode
  decode-encode e h small =
      let (p, parsed, reads) = y.parse-build (fields e) (fields_fit e h) small in
      let (ps, frames, each) = y.get_frames-all p (fields e) tag_meta _ reads (metas_of_entry e) in
      rw (
        parsed,
        y.get_u8-first p (fields e) tag_op_type (op_code e.op) reads (unfold fields in refl),
        decode_op-fields p e.op e.meta reads,
        frames,
        read_pairs ps e.meta each,
      )
