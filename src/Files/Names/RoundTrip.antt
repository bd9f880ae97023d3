-- ===== src/Files/Names/RoundTrip.antt =====
-- The name of a segment's file (src/files.rs) is read back.
use woodshed.Base.{
  ℕ, zero, suc, ◌+◌, ◌*◌, ◌/◌, ◌%◌, ◌^◌, ◌<◌, ◌≡◌, refl, ap, ◌∙◌, List, [], ◌∷◌, ◌++◌, map,
  append-nil, length, length-append, All, none, some, Option-cases, inl, inr, arith,
}
use woodshed.State.{SegmentId}
use woodshed.Files.{same_bytes, sort}
use woodshed.Files.Names.{
  hex_digit, hex_digits, segment_name, split_dot, hex_value, read_digits, from_hex, parse_parts,
  parse_segment_path, ids_in, ids_of_names,
}

-- Powers of 16.
abbrev pow16 : ℕ → ℕ
pow16 zero = 1
pow16 (suc n) = 16 * pow16 n

hex_value-hex_digit : (d : ℕ) → d < 16 → hex_value (hex_digit d) ≡ some d
unfolding hex_value hex_digit
hex_value-hex_digit d lt = ground arith

read_digits-append :
    (xs : List ℕ) (n m d : ℕ)
    → read_digits n xs ≡ some m
    → d < 16
    → m * 16 + d < 2 ^ 32
    → read_digits n (xs ++ (hex_digit d ∷ [])) ≡ some (m * 16 + d)
unfolding read_digits
read_digits-append [] n m d e lt room = ground (arith, hex_value-hex_digit d lt)
read_digits-append (x ∷ xs) n m d e lt room = elim (Option-cases (hex_value x)) [
  | inl bad ↦ absurd (ground arith)
  | inr (v, good) ↦ ground (arith, read_digits-append xs (n * 16 + v) m d)
]

read_digits-hex_digits :
    (width n : ℕ) → n < pow16 width → n < 2 ^ 32 → read_digits 0 (hex_digits width n) ≡ some n
unfolding hex_digits read_digits
read_digits-hex_digits zero n lt room = ap some (omega arith)
read_digits-hex_digits (suc width) n lt room =
    read_digits-append (hex_digits width (n / 16)) 0 (n / 16) (n % 16)
      (read_digits-hex_digits width (n / 16) (omega arith) (omega arith)) (omega arith)
      (omega arith)
    ∙ ap some (omega arith)

split_dot-append :
    (xs ys stem extension : List ℕ)
    → split_dot ys ≡ some (stem, extension)
    → split_dot (xs ++ ys) ≡ some (xs ++ stem, extension)
unfolding split_dot
split_dot-append [] ys stem extension e = e
split_dot-append (x ∷ xs) ys stem extension e =
    ground (arith, split_dot-append xs ys stem extension e)

length-hex_digits : (width n : ℕ) → length (hex_digits width n) ≡ width
unfolding hex_digits
length-hex_digits zero n = refl
length-hex_digits (suc width) n = omega (
  arith,
  length-append (hex_digits width (n / 16)) (hex_digit (n % 16) ∷ []),
  length-hex_digits width (n / 16),
)

-- Digits are read without a sign.
parse_parts-read :
    (xs : List ℕ) (n : ℕ)
    → 0 < length xs
    → read_digits 0 xs ≡ some n
    → parse_parts xs (b's' ∷ b'e' ∷ b'g' ∷ []) ≡ some n
unfolding parse_parts from_hex same_bytes read_digits hex_value
parse_parts-read [] n lt e = absurd (omega arith)
parse_parts-read (b ∷ []) n lt e = e
parse_parts-read (b ∷ c ∷ bs) n lt e = ground arith

-- The name of a segment with an id of 32 bits is parsed to the id.
pub parse_segment_path-segment_name :
    (id : SegmentId) → id < 2 ^ 32 → parse_segment_path (segment_name id) ≡ some id
unfolding parse_segment_path segment_name split_dot
parse_segment_path-segment_name id lt =
    let digits = hex_digits 8 id in
    ap (λ o. elim o [ none ↦ none | some (stem, extension) ↦ parse_parts stem extension ])
      (split_dot-append digits (b'.' ∷ b's' ∷ b'e' ∷ b'g' ∷ []) [] (b's' ∷ b'e' ∷ b'g' ∷ []) refl)
    ∙ ap (λ l. parse_parts l (b's' ∷ b'e' ∷ b'g' ∷ [])) (append-nil digits)
    ∙ parse_parts-read digits id (omega (arith, length-hex_digits 8 id))
        (read_digits-hex_digits 8 id (omega arith) lt)

ids_in-segment_name :
    (ids : List SegmentId) → All (λ id. id < 2 ^ 32) ids → ids_in (map segment_name ids) ≡ ids
unfolding ids_in
ids_in-segment_name [] h = refl
ids_in-segment_name (id ∷ ids) (lt, h) =
    ground (arith, parse_segment_path-segment_name id lt, ids_in-segment_name ids h)

-- "MANIFEST"
abbrev pub manifest_name : List ℕ
manifest_name = b'M' ∷ b'A' ∷ b'N' ∷ b'I' ∷ b'F' ∷ b'E' ∷ b'S' ∷ b'T' ∷ []

-- In a directory of the manifest and of segments whose ids have 32 bits, the ids that are collected
-- from the names are those of the segments, sorted.
pub ids_of_names-segment_name :
    (ids : List SegmentId)
    → All (λ id. id < 2 ^ 32) ids
    → ids_of_names (manifest_name ∷ map segment_name ids) ≡ sort ids
unfolding ids_in parse_segment_path split_dot
ids_of_names-segment_name ids h = ap sort (ids_in-segment_name ids h)
