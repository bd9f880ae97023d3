-- ===== src/Yatlv.antt =====
-- The crate `yatlv`, which is not part of this repository: a frame is a row of tagged fields, and a
-- getter gives the first field of a tag, or all of them. The laws say what a parser reads in a frame
-- that a builder wrote; they are promised for values of their widths and for frames below 2 ^ 32 bytes.
use woodshed.Base.{
  ℕ, ◌<◌, ◌^◌, ◌≡◌, List, [], ◌∷◌, Option, none, some, All, length, map, Result, ok, ◌==◌,
  if◌then◌else◌,
}

pub data Leaf : Type 0 where
  u8 u32 u64 : ℕ → ℕ → Leaf
  bytes : ℕ → List ℕ → Leaf

pub data Field : Type 0 where
  leaf : Leaf → Field
  frame : ℕ → List Leaf → Field

abbrev pub leaf_tag : Leaf → ℕ
leaf_tag (u8 tag _) = tag
leaf_tag (u32 tag _) = tag
leaf_tag (u64 tag _) = tag
leaf_tag (bytes tag _) = tag

abbrev pub field_tag : Field → ℕ
field_tag (leaf l) = leaf_tag l
field_tag (frame tag _) = tag

-- Values of the width that they are written with.
abbrev pub FitsLeaf : Leaf → Type 0
FitsLeaf (u8 tag v) = v < 2 ^ 8
FitsLeaf (u32 tag v) = v < 2 ^ 32
FitsLeaf (u64 tag v) = v < 2 ^ 64
FitsLeaf (bytes tag v) = Unit

abbrev pub FitsField : Field → Type 0
FitsField (leaf l) = FitsLeaf l
FitsField (frame tag ls) = All FitsLeaf ls

-- The first field of a tag.
abbrev pub first : ℕ → List Field → Option Field
first tag [] = none
first tag (f ∷ fs) = if field_tag f == tag then some f else first tag fs

-- All fields of a tag, in order.
abbrev pub all_of : ℕ → List Field → List Field
all_of tag [] = []
all_of tag (f ∷ fs) = if field_tag f == tag then f ∷ all_of tag fs else all_of tag fs

abbrev pub leaves : List Leaf → List Field
leaves = map leaf

-- Two lists, element by element.
abbrev pub Each₂ {ℓ} : {A B : Type ℓ} → (A → B → Type 0) → List A → List B → Type 0
Each₂ R [] [] = Unit
Each₂ R (a ∷ xs) (b ∷ ys) = R a b × Each₂ R xs ys
Each₂ R _ _ = ⊥

pub record Yatlv : Type 1 where
  pub Error : Type 0
  pub Parser : Type 0
  -- the bytes that a builder leaves after the fields are added in order
  pub build : List Field → List ℕ
  -- `FrameParser::new`
  pub parse : List ℕ → Result Error Parser
  pub get_u8 : Parser → ℕ → Result Error ℕ
  pub get_u32 : Parser → ℕ → Result Error ℕ
  pub get_u64 : Parser → ℕ → Result Error ℕ
  pub get_data : Parser → ℕ → Result Error (List ℕ)
  pub get_u32s : Parser → ℕ → List (Result Error ℕ)
  pub get_frames : Parser → ℕ → List (Result Error Parser)
  -- a frame has a header
  pub length-build : (fs : List Field) → 0 < length (build fs)
  -- the parser stands over a frame of these fields
  pub Reads : Parser → List Field → Type 0
  pub parse-build :
      (fs : List Field)
      → All FitsField fs
      → length (build fs) < 2 ^ 32
      → (p : Parser) × (parse (build fs) ≡ ok p) × Reads p fs
  pub get_u8-first :
      (p : Parser) (fs : List Field) (tag v : ℕ)
      → Reads p fs
      → first tag fs ≡ some (leaf (u8 tag v))
      → get_u8 p tag ≡ ok v
  pub get_u32-first :
      (p : Parser) (fs : List Field) (tag v : ℕ)
      → Reads p fs
      → first tag fs ≡ some (leaf (u32 tag v))
      → get_u32 p tag ≡ ok v
  pub get_u64-first :
      (p : Parser) (fs : List Field) (tag v : ℕ)
      → Reads p fs
      → first tag fs ≡ some (leaf (u64 tag v))
      → get_u64 p tag ≡ ok v
  pub get_data-first :
      (p : Parser) (fs : List Field) (tag : ℕ) (v : List ℕ)
      → Reads p fs
      → first tag fs ≡ some (leaf (bytes tag v))
      → get_data p tag ≡ ok v
  pub get_u32s-all :
      (p : Parser) (fs : List Field) (tag : ℕ) (vs : List ℕ)
      → Reads p fs
      → all_of tag fs ≡ map (λ v. leaf (u32 tag v)) vs
      → get_u32s p tag ≡ map ok vs
  pub get_frames-all :
      (p : Parser) (fs : List Field) (tag : ℕ) (parts : List (List Leaf))
      → Reads p fs
      → all_of tag fs ≡ map (λ ls. frame tag ls) parts
      → (ps : List Parser) × (get_frames p tag ≡ map ok ps)
        × Each₂ (λ q ls. Reads q (leaves ls)) ps parts
