-- ===== src/Files/Names.antt =====
-- The names of segment files (`segment_path` and `parse_segment_path` of src/files.rs). A name is its
-- bytes; `{:08x}`, `extension`, `file_stem` and `u32::from_str_radix` are the standard library's.
pub mod RoundTrip
use woodshed.Base.{
  ℕ, zero, suc, ◌+◌, ◌-◌, ◌*◌, ◌/◌, ◌%◌, ◌^◌, ◌≤◌, ◌<◌, ◌≡◌, refl, sym, ap, ◌∙◌, Bool, true, false,
  ◌&&◌, List, [], ◌∷◌, ◌++◌, map, append_assoc, All, Option, none, some, Option-cases, inl, inr,
  ltb, leb, ◌==◌, if◌then◌else◌, arith,
}
use woodshed.State.{SegmentId}
use woodshed.Files.{same_bytes, sort}

-- A digit of `{:x}`.
unfoldable pub hex_digit : ℕ → ℕ
hex_digit d = if ltb d 10 then b'0' + d else b'a' + (d - 10)

-- The last `width` hexadecimal digits.
unfoldable pub hex_digits : ℕ → ℕ → List ℕ
unfolding hex_digit
hex_digits zero n = []
hex_digits (suc width) n = hex_digits width (n / 16) ++ (hex_digit (n % 16) ∷ [])

-- `format!("{:08x}.seg", id.0)`, of an id of 32 bits.
unfoldable pub segment_name : SegmentId → List ℕ
unfolding hex_digits
segment_name id = hex_digits 8 id ++ (b'.' ∷ b's' ∷ b'e' ∷ b'g' ∷ [])

-- The name before the last dot and what stands behind it.
unfoldable pub split_dot : List ℕ → Option (List ℕ × List ℕ)
split_dot [] = none
split_dot (b ∷ bs) =
    let rest = split_dot bs in
    elim rest [
      | some (stem, extension) ↦ some (b ∷ stem, extension)
      | none ↦ if b == b'.' then some ([], bs) else none
    ]

-- A digit in base 16, or none.
unfoldable pub hex_value : ℕ → Option ℕ
hex_value b =
    if leb b'0' b && leb b b'9'
    then some (b - b'0')
    else if leb b'a' b && leb b b'f'
    then some (b - b'a' + 10)
    else if leb b'A' b && leb b b'F'
    then some (b - b'A' + 10)
    else none

-- The digits behind the number that was read so far; an overflow of 32 bits is an error.
unfoldable pub read_digits : ℕ → List ℕ → Option ℕ
unfolding hex_value
read_digits n [] = some n
read_digits n (b ∷ bs) = elim (hex_value b) [
  | none ↦ none
  | some d ↦
      let rest = read_digits (n * 16 + d) bs in if ltb (n * 16 + d) (2 ^ 32) then rest else none
]

-- `u32::from_str_radix(name, 16)`, which takes a sign `+` before the digits.
unfoldable pub from_hex : List ℕ → Option ℕ
unfolding read_digits
from_hex [] = none
from_hex (b ∷ []) = read_digits 0 (b ∷ [])
from_hex (b ∷ c ∷ bs) = if b == b'+' then read_digits 0 (c ∷ bs) else read_digits 0 (b ∷ c ∷ bs)

-- A name that is an extension alone has none.
unfoldable pub parse_parts : List ℕ → List ℕ → Option SegmentId
unfolding from_hex same_bytes
parse_parts [] extension = none
parse_parts (b ∷ stem) extension =
    if same_bytes extension (b's' ∷ b'e' ∷ b'g' ∷ []) then from_hex (b ∷ stem) else none

-- `parse_segment_path`
unfoldable pub parse_segment_path : List ℕ → Option SegmentId
unfolding split_dot parse_parts
parse_segment_path name = elim (split_dot name) [
  | none ↦ none
  | some (stem, extension) ↦ parse_parts stem extension
]

-- The ids of the entries of a directory that are names of segments.
unfoldable pub ids_in : List (List ℕ) → List SegmentId
unfolding parse_segment_path
ids_in [] = []
ids_in (name ∷ names) =
    let rest = ids_in names in elim (parse_segment_path name) [ none ↦ rest | some id ↦ id ∷ rest ]

-- `collect_segment_ids`, on the names that `read_dir` gives.
abbrev pub ids_of_names : List (List ℕ) → List SegmentId
ids_of_names names = sort (ids_in names)
