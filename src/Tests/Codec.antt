-- ===== src/Tests/Codec.antt =====
-- A concrete checksum and a concrete frame codec, which have all that the crates promise.
use woodshed.Base.{
  ℕ, zero, suc, ◌+◌, ◌%◌, ◌^◌, ◌≡◌, refl, ap, ◌∙◌, List, [], ◌∷◌, ◌++◌, append_assoc, map, length,
  take, drop, take-append, drop-append, Option, none, some, Result, ok, err, arith,
}
use woodshed.Hash.{Hasher}
use woodshed.Yatlv.{
  Yatlv, Leaf, u8, u32, u64, bytes, Field, leaf, frame, first, all_of, leaves, Each₂,
}

abbrev pub sum : List ℕ → ℕ
sum [] = 0
sum (b ∷ bs) = b + sum bs

-- The sum of the bytes, as a `u64`.
instance abbrev pub sum_hasher : Hasher
sum_hasher = record { xxh64 = λ bs. sum bs % 2 ^ 64; xxh64_lt = λ bs. omega arith }

-- A leaf is its kind, its tag and its value.
abbrev pub leaf_bytes : Leaf → List ℕ
leaf_bytes (u8 tag v) = 0 ∷ tag ∷ v ∷ []
leaf_bytes (u32 tag v) = 1 ∷ tag ∷ v ∷ []
leaf_bytes (u64 tag v) = 2 ∷ tag ∷ v ∷ []
leaf_bytes (bytes tag v) = 3 ∷ tag ∷ length v ∷ v

abbrev pub all_leaf_bytes : List Leaf → List ℕ
all_leaf_bytes [] = []
all_leaf_bytes (l ∷ ls) = leaf_bytes l ++ all_leaf_bytes ls

abbrev pub field_bytes : Field → List ℕ
field_bytes (leaf l) = leaf_bytes l
field_bytes (frame tag ls) = 4 ∷ tag ∷ length ls ∷ all_leaf_bytes ls

abbrev pub all_field_bytes : List Field → List ℕ
all_field_bytes [] = []
all_field_bytes (f ∷ fs) = field_bytes f ++ all_field_bytes fs

abbrev pub Read : Type 0 → Type 0
Read A = Option (A × List ℕ)

abbrev pub read_leaf : List ℕ → Read Leaf
read_leaf (zero ∷ tag ∷ v ∷ r) = some (u8 tag v, r)
read_leaf (suc zero ∷ tag ∷ v ∷ r) = some (u32 tag v, r)
read_leaf (suc (suc zero) ∷ tag ∷ v ∷ r) = some (u64 tag v, r)
read_leaf (suc (suc (suc zero)) ∷ tag ∷ n ∷ r) = some (bytes tag (take n r), drop n r)
read_leaf _ = none

module _ {A : Type 0} where
  abbrev pub cons : A → Read (List A) → Read (List A)
  cons a none = none
  cons a (some (as', r)) = some (a ∷ as', r)

  abbrev pub many : (List ℕ → Read A) → ℕ → List ℕ → Read (List A)
  many one zero r = some ([], r)
  many one (suc n) r = elim (one r) [ none ↦ none | some (a, r') ↦ cons a (many one n r') ]

abbrev pub as_frame_field : ℕ → Read (List Leaf) → Read Field
as_frame_field tag none = none
as_frame_field tag (some (ls, r)) = some (frame tag ls, r)

abbrev pub as_leaf_field : Read Leaf → Read Field
as_leaf_field none = none
as_leaf_field (some (l, r)) = some (leaf l, r)

abbrev pub read_field : List ℕ → Read Field
read_field (suc (suc (suc (suc zero))) ∷ tag ∷ n ∷ r) = as_frame_field tag (many read_leaf n r)
read_field bs = as_leaf_field (read_leaf bs)

read_leaf_lem : (l : Leaf) (r : List ℕ) → read_leaf (leaf_bytes l ++ r) ≡ some (l, r)
read_leaf_lem (u8 tag v) r = refl
read_leaf_lem (u32 tag v) r = refl
read_leaf_lem (u64 tag v) r = refl
read_leaf_lem (bytes tag v) r =
    ground (arith, take-append (length v) v r refl, drop-append (length v) v r refl)

many_leaves_lem :
    (ls : List Leaf) (r : List ℕ)
    → many read_leaf (length ls) (all_leaf_bytes ls ++ r) ≡ some (ls, r)
many_leaves_lem [] r = refl
many_leaves_lem (l ∷ ls) r =
    ap (many read_leaf (suc (length ls))) (append_assoc (leaf_bytes l) (all_leaf_bytes ls) r)
    ∙ ground (arith, read_leaf_lem l (all_leaf_bytes ls ++ r), many_leaves_lem ls r)

read_leaf_field_lem : (l : Leaf) (r : List ℕ) → read_field (leaf_bytes l ++ r) ≡ some (leaf l, r)
read_leaf_field_lem (u8 tag v) r = refl
read_leaf_field_lem (u32 tag v) r = refl
read_leaf_field_lem (u64 tag v) r = refl
read_leaf_field_lem (bytes tag v) r =
    ground (arith, take-append (length v) v r refl, drop-append (length v) v r refl)

read_field_lem : (f : Field) (r : List ℕ) → read_field (field_bytes f ++ r) ≡ some (f, r)
read_field_lem (leaf l) r = read_leaf_field_lem l r
read_field_lem (frame tag ls) r = ap (as_frame_field tag) (many_leaves_lem ls r)

pub many_fields_lem :
    (fs : List Field) (r : List ℕ)
    → many read_field (length fs) (all_field_bytes fs ++ r) ≡ some (fs, r)
many_fields_lem [] r = refl
many_fields_lem (f ∷ fs) r =
    ap (many read_field (suc (length fs))) (append_assoc (field_bytes f) (all_field_bytes fs) r)
    ∙ ground (arith, read_field_lem f (all_field_bytes fs ++ r), many_fields_lem fs r)

abbrev pub as_u8 : Option Field → Result (Unit {0}) ℕ
as_u8 (some (leaf (u8 _ v))) = ok v
as_u8 _ = err tt

abbrev pub as_u32 : Option Field → Result (Unit {0}) ℕ
as_u32 (some (leaf (u32 _ v))) = ok v
as_u32 _ = err tt

abbrev pub as_u64 : Option Field → Result (Unit {0}) ℕ
as_u64 (some (leaf (u64 _ v))) = ok v
as_u64 _ = err tt

abbrev pub as_data : Option Field → Result (Unit {0}) (List ℕ)
as_data (some (leaf (bytes _ v))) = ok v
as_data _ = err tt

abbrev pub as_frame : Field → Result (Unit {0}) (List Field)
as_frame (frame _ ls) = ok (leaves ls)
as_frame (leaf _) = err tt

pub map_u32 :
    (tag : ℕ) (vs : List ℕ)
    → map (λ f. as_u32 (some f)) (map (λ v. leaf (u32 tag v)) vs) ≡ map ok vs
map_u32 tag [] = refl
map_u32 tag (v ∷ vs) = ap (λ t. ok v ∷ t) (map_u32 tag vs)

pub map_frame :
    (tag : ℕ) (parts : List (List Leaf))
    → map as_frame (map (λ ls. frame tag ls) parts) ≡ map ok (map leaves parts)
map_frame tag [] = refl
map_frame tag (p ∷ parts) = ap (λ t. ok (leaves p) ∷ t) (map_frame tag parts)

pub each_leaves :
    (parts : List (List Leaf)) → Each₂ (λ q ls. q ≡ leaves ls) (map leaves parts) parts
each_leaves [] = tt
each_leaves (p ∷ parts) = (refl, each_leaves parts)

abbrev pub parsed : Read (List Field) → Result (Unit {0}) (List Field)
parsed none = err tt
parsed (some (fs, r)) = ok fs

abbrev pub parse_all : List ℕ → Result (Unit {0}) (List Field)
parse_all [] = err tt
parse_all (n ∷ r) = parsed (many read_field n r)

-- The number of the fields and the fields.
instance abbrev pub plain_codec : Yatlv
plain_codec = record {
  Error = Unit {0};
  Parser = List Field;
  build = λ fs. length fs ∷ (all_field_bytes fs ++ []);
  parse = parse_all;
  get_u8 = λ p tag. as_u8 (first tag p);
  get_u32 = λ p tag. as_u32 (first tag p);
  get_u64 = λ p tag. as_u64 (first tag p);
  get_data = λ p tag. as_data (first tag p);
  get_u32s = λ p tag. map (λ f. as_u32 (some f)) (all_of tag p);
  get_frames = λ p tag. map as_frame (all_of tag p);
  length-build = λ fs. omega arith;
  Reads = λ p fs. p ≡ fs;
  parse-build = λ fs fits small. (fs, ap parsed (many_fields_lem fs []), refl);
  get_u8-first = λ p fs tag v e h. ap (λ q. as_u8 (first tag q)) e ∙ ap as_u8 h;
  get_u32-first = λ p fs tag v e h. ap (λ q. as_u32 (first tag q)) e ∙ ap as_u32 h;
  get_u64-first = λ p fs tag v e h. ap (λ q. as_u64 (first tag q)) e ∙ ap as_u64 h;
  get_data-first = λ p fs tag v e h. ap (λ q. as_data (first tag q)) e ∙ ap as_data h;
  get_u32s-all = λ p fs tag vs e h.
      ap (λ q. map (λ f. as_u32 (some f)) (all_of tag q)) e
      ∙ ap (map (λ f. as_u32 (some f))) h
      ∙ map_u32 tag vs;
  get_frames-all = λ p fs tag parts e h. (
    map leaves parts,
    ap (λ q. map as_frame (all_of tag q)) e ∙ ap (map as_frame) h ∙ map_frame tag parts,
    each_leaves parts,
  );
}
