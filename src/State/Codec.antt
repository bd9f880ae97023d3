-- ===== src/State/Codec.antt =====
-- The codec of src/state.rs: a manifest operation as a frame of the crate `yatlv`.
pub mod RoundTrip
use woodshed.Base.{
  ℕ, List, [], ◌∷◌, ◌++◌, map, Result, ok, err, ◌>>=◌, map_err, ◌==◌, if◌then◌else◌,
}
use woodshed.Yatlv.{Yatlv, Leaf, Field, u8, u32, u64, bytes, leaf, frame}
use woodshed.State.{
  Op, ManifestOp, SegmentId, create_segment, roll_segment, truncate_start, truncate_end,
  segment_deleted, record_orphan, metadata,
}

abbrev pub tag_op_type : ℕ
tag_op_type = 1

abbrev pub tag_segment_id : ℕ
tag_segment_id = 2

abbrev pub tag_first_entry : ℕ
tag_first_entry = 3

abbrev pub tag_last_entry : ℕ
tag_last_entry = 4

abbrev pub tag_entry_count : ℕ
tag_entry_count = 5

abbrev pub tag_final_size : ℕ
tag_final_size = 6

abbrev pub tag_new_segment_id : ℕ
tag_new_segment_id = 7

abbrev pub tag_new_first_entry : ℕ
tag_new_first_entry = 8

abbrev pub tag_byte_offset : ℕ
tag_byte_offset = 9

abbrev pub tag_drop_id : ℕ
tag_drop_id = 10

abbrev pub tag_meta : ℕ
tag_meta = 11

abbrev pub tag_meta_key : ℕ
tag_meta_key = 1

abbrev pub tag_meta_value : ℕ
tag_meta_value = 2

abbrev pub op_create_segment : ℕ
op_create_segment = 1

abbrev pub op_roll_segment : ℕ
op_roll_segment = 2

abbrev pub op_truncate_start : ℕ
op_truncate_start = 3

abbrev pub op_truncate_end : ℕ
op_truncate_end = 4

abbrev pub op_segment_deleted : ℕ
op_segment_deleted = 5

abbrev pub op_record_orphan : ℕ
op_record_orphan = 6

abbrev pub op_meta : ℕ
op_meta = 7

unfoldable pub op_code : Op → ℕ
op_code (create_segment _ _) = op_create_segment
op_code (roll_segment _ _ _ _ _ _ _) = op_roll_segment
op_code (truncate_start _ _) = op_truncate_start
op_code (truncate_end _ _ _) = op_truncate_end
op_code (segment_deleted _) = op_segment_deleted
op_code (record_orphan _) = op_record_orphan
op_code metadata = op_meta

abbrev pub drop_field : SegmentId → Field
drop_field id = leaf (u32 tag_drop_id id)

abbrev pub meta_leaves : ℕ × List ℕ → List Leaf
meta_leaves (key, value) = u8 tag_meta_key key ∷ bytes tag_meta_value value ∷ []

abbrev pub meta_field : ℕ × List ℕ → Field
meta_field pair = frame tag_meta (meta_leaves pair)

unfoldable pub op_fields : Op → List Field
op_fields (create_segment id first) =
    leaf (u32 tag_segment_id id) ∷ leaf (u64 tag_first_entry first) ∷ []
op_fields (roll_segment sealed_id first last count size new_id new_first) =
    leaf (u32 tag_segment_id sealed_id)
    ∷ leaf (u64 tag_first_entry first)
    ∷ leaf (u64 tag_last_entry last)
    ∷ leaf (u32 tag_entry_count count)
    ∷ leaf (u64 tag_final_size size)
    ∷ leaf (u32 tag_new_segment_id new_id)
    ∷ leaf (u64 tag_new_first_entry new_first)
    ∷ []
op_fields (truncate_start first drop) = leaf (u64 tag_first_entry first) ∷ map drop_field drop
op_fields (truncate_end new_active offset drop) =
    leaf (u32 tag_new_segment_id new_active)
    ∷ leaf (u64 tag_byte_offset offset)
    ∷ map drop_field drop
op_fields (segment_deleted id) = leaf (u32 tag_segment_id id) ∷ []
op_fields (record_orphan id) = leaf (u32 tag_segment_id id) ∷ []
op_fields metadata = []

-- The fields in the order in which `encode` adds them.
unfoldable pub fields : ManifestOp → List Field
unfolding op_code op_fields
fields e = leaf (u8 tag_op_type (op_code e.op)) ∷ (op_fields e.op ++ map meta_field e.meta)

-- `collect::<Result<Vec<_>, _>>()`
unfoldable pub collect : {E A : Type 0} → List (Result E A) → Result E (List A)
collect [] = ok []
collect (r ∷ rs) = do a ← r; rest ← collect rs; ok (a ∷ rest)

module _ ⦃y : Yatlv⦄ where
  pub data DecodeError : Type 0 where
    unknown_op_type : ℕ → DecodeError
    format : y.Error → DecodeError

  -- `ManifestOp::encode`
  unfoldable pub encode : ManifestOp → List ℕ
  unfolding fields
  encode e = y.build (fields e)

  abbrev pub Read : Type 0 → Type 0
  Read A = Result y.Error A

  unfoldable pub decode_create : y.Parser → Read Op
  decode_create p = do
    id ← y.get_u32 p tag_segment_id
    first ← y.get_u64 p tag_first_entry
    ok (create_segment id first)

  unfoldable pub decode_roll : y.Parser → Read Op
  decode_roll p = do
    sealed_id ← y.get_u32 p tag_segment_id
    first ← y.get_u64 p tag_first_entry
    last ← y.get_u64 p tag_last_entry
    count ← y.get_u32 p tag_entry_count
    size ← y.get_u64 p tag_final_size
    new_id ← y.get_u32 p tag_new_segment_id
    new_first ← y.get_u64 p tag_new_first_entry
    ok (roll_segment sealed_id first last count size new_id new_first)

  unfoldable pub decode_truncate_start : y.Parser → Read Op
  unfolding collect
  decode_truncate_start p = do
    first ← y.get_u64 p tag_first_entry
    drop ← collect (y.get_u32s p tag_drop_id)
    ok (truncate_start first drop)

  unfoldable pub decode_truncate_end : y.Parser → Read Op
  unfolding collect
  decode_truncate_end p = do
    new_active ← y.get_u32 p tag_new_segment_id
    offset ← y.get_u64 p tag_byte_offset
    drop ← collect (y.get_u32s p tag_drop_id)
    ok (truncate_end new_active offset drop)

  unfoldable pub decode_deleted : y.Parser → Read Op
  decode_deleted p = do id ← y.get_u32 p tag_segment_id; ok (segment_deleted id)

  unfoldable pub decode_orphan : y.Parser → Read Op
  decode_orphan p = do id ← y.get_u32 p tag_segment_id; ok (record_orphan id)

  unfoldable pub decode_op : ℕ → y.Parser → Result DecodeError Op
  unfolding decode_create decode_roll decode_truncate_start decode_truncate_end decode_deleted
      decode_orphan
  decode_op code p =
      if code == op_create_segment
      then map_err format (decode_create p)
      else if code == op_roll_segment
      then map_err format (decode_roll p)
      else if code == op_truncate_start
      then map_err format (decode_truncate_start p)
      else if code == op_truncate_end
      then map_err format (decode_truncate_end p)
      else if code == op_segment_deleted
      then map_err format (decode_deleted p)
      else if code == op_record_orphan
      then map_err format (decode_orphan p)
      else if code == op_meta
      then ok metadata
      else err (unknown_op_type code)

  unfoldable pub decode_pair : Read y.Parser → Read (ℕ × List ℕ)
  decode_pair r = do
    f ← r
    key ← y.get_u8 f tag_meta_key
    value ← y.get_data f tag_meta_value
    ok (key, value)

  -- `ManifestOp::decode`
  unfoldable pub decode : List ℕ → Result DecodeError ManifestOp
  decode input = do
    p ← map_err format (y.parse input)
    code ← map_err format (y.get_u8 p tag_op_type)
    op ← decode_op code p
    meta ← map_err format (collect (map decode_pair (y.get_frames p tag_meta)))
    ok (record { op = op; meta = meta })
