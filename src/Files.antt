-- ===== src/Files.antt =====
-- src/files.rs: the files of a store in its directory. A segment file is known by its id; Names has the
-- spelling of the file names. Of the failures of the operating system there are a missing
-- file or directory, a file that exists already, and a wrong magic; syncing changes nothing here.
pub mod Names
use woodshed.Base.{
  ℕ, Bool, true, false, List, [], ◌∷◌, Option, none, some, Result, ok, err, leb, ◌==◌, ◌&&◌,
  if◌then◌else◌, length, take, map,
}
use woodshed.Base.Dict.{lookup, insert, remove}
use woodshed.File.{File}
use woodshed.State.{SegmentId}

pub data IoError : Type 0 where
  not_found already_exists invalid_data invalid_input unexpected_eof : IoError

pub record Disk : Type 0 where
  pub exists : Bool
  pub manifest : Option (List ℕ)
  pub segments : List (SegmentId × List ℕ)

-- An action on the disk that may fail; what it wrote before it failed stays written.
abbrev pub Io : Type 0 → Type 0 → Type 0
Io E A = Disk → Result E A × Disk

abbrev pub and_then : {E A B : Type 0} → Result E A × Disk → (A → Io E B) → Result E B × Disk
and_then (ok a, d) f = f a d
and_then (err e, d) f = (err e, d)

infixl 5 ◌>>=◌ ◌>>◌
abbrev pub ◌>>=◌ : {E A B : Type 0} → Io E A → (A → Io E B) → Io E B
◌>>=◌ m f d = and_then (m d) f

abbrev pub ◌>>◌ : {E B : Type 0} → Io E (Unit {0}) → Io E B → Io E B
m >> k = m >>= λ _. k

abbrev pub pure : {E A : Type 0} → A → Io E A
pure a d = (ok a, d)

abbrev pub lift : {E A : Type 0} → Result E A → Io E A
lift r d = (r, d)

abbrev pub magic_len : ℕ
magic_len = 8

-- b"\xffWDSEGM\x01" and b"\xffWDMNFT\x01"
abbrev pub segment_magic : List ℕ
segment_magic = 0xff ∷ b'W' ∷ b'D' ∷ b'S' ∷ b'E' ∷ b'G' ∷ b'M' ∷ 0x01 ∷ []

abbrev pub manifest_magic : List ℕ
manifest_magic = 0xff ∷ b'W' ∷ b'D' ∷ b'M' ∷ b'N' ∷ b'F' ∷ b'T' ∷ 0x01 ∷ []

unfoldable pub same_bytes : List ℕ → List ℕ → Bool
same_bytes [] [] = true
same_bytes (a ∷ as') (b ∷ bs) = a == b && same_bytes as' bs
same_bytes _ _ = false

-- The handle stands behind the magic that was read.
unfoldable pub check_magic : List ℕ → List ℕ → Result IoError (File × ℕ)
unfolding same_bytes
check_magic magic content =
    if same_bytes (take magic_len content) magic
    then ok (record { content = content; cursor = magic_len }, magic_len)
    else err invalid_data

abbrev pub is_there {ℓ} : {A : Type ℓ} → Option A → Bool
is_there none = false
is_there (some a) = true

unfoldable pub manifest_exists : Disk → Bool
manifest_exists d = is_there d.manifest

unfoldable pub create_manifest : Io IoError ℕ
create_manifest d =
    if is_there d.manifest
    then (err already_exists, d)
    else if d.exists
    then (ok magic_len, record d { manifest = some manifest_magic })
    else (err not_found, d)

-- `open_manifest_rw` and `open_manifest_read`
unfoldable pub open_manifest : Disk → Result IoError (File × ℕ)
unfolding check_magic
open_manifest d = elim d.manifest [
  | none ↦ err not_found
  | some content ↦ check_magic manifest_magic content
]

unfoldable pub create_segment : SegmentId → Io IoError ℕ
unfolding lookup insert
create_segment id d =
    if is_there (lookup id d.segments)
    then (err already_exists, d)
    else if d.exists
    then (ok magic_len, record d { segments = insert id segment_magic d.segments })
    else (err not_found, d)

-- `open_segment` and `open_segment_rw`
unfoldable pub open_segment : Disk → SegmentId → Result IoError (File × ℕ)
unfolding check_magic lookup
open_segment d id = elim (lookup id d.segments) [
  | none ↦ err not_found
  | some content ↦ check_magic segment_magic content
]

unfoldable pub segment_size : Disk → SegmentId → Result IoError ℕ
unfolding lookup
segment_size d id = elim (lookup id d.segments) [
  | none ↦ err not_found
  | some content ↦ ok (length content)
]

-- A file that is not there counts as deleted.
unfoldable pub delete_segment : SegmentId → Io IoError (Unit {0})
unfolding remove
delete_segment id d = (ok tt, record d { segments = remove id d.segments })

unfoldable pub insert_sorted : ℕ → List ℕ → List ℕ
insert_sorted n [] = n ∷ []
insert_sorted n (m ∷ ms) = if leb n m then n ∷ m ∷ ms else m ∷ insert_sorted n ms

unfoldable pub sort : List ℕ → List ℕ
unfolding insert_sorted
sort [] = []
sort (n ∷ ns) = insert_sorted n (sort ns)

unfoldable pub collect_segment_ids : Disk → Result IoError (List SegmentId)
unfolding sort
collect_segment_ids d = if d.exists then ok (sort (map (λ f. f.0) d.segments)) else err not_found

-- Writes through an open handle: the file takes the new bytes.
unfoldable pub put_manifest : List ℕ → Io IoError (Unit {0})
put_manifest content d = (ok tt, record d { manifest = some content })

unfoldable pub put_segment : SegmentId → List ℕ → Io IoError (Unit {0})
unfolding insert
put_segment id content d = (ok tt, record d { segments = insert id content d.segments })

-- What the handle of the manifest, or of a segment, reads.
abbrev pub manifest_bytes : Disk → List ℕ
manifest_bytes d = elim d.manifest [ none ↦ [] | some content ↦ content ]

abbrev pub segment_bytes : Disk → SegmentId → List ℕ
segment_bytes d id = elim (lookup id d.segments) [ none ↦ [] | some content ↦ content ]
