-- ===== src/Frame/Payload.antt =====
-- `read` and `FrameReader` (src/frame.rs): a frame that `write` wrote is read back.
use woodshed.Base.{
  ℕ, ◌+◌, ◌-◌, ◌<◌, ◌≡◌, refl, ◌∙◌, List, [], ◌∷◌, ◌++◌, none, some, arith, length, ok, err, ◌==◌,
  if◌then◌else◌, append-nil, take-append, drop-append, take_all, drop_all,
}
use woodshed.Hash.{Hasher}
use woodshed.Frame.Format.{
  header_len, header_id, header_payload_len, checksum, frame_bytes, Fits, header_id-header,
  header_payload_len-header,
}
use woodshed.Frame.Scanner.{
  FrameReader, truncated, unexpected_eof, peek_header, reader_of, read, read_payload, read_to_end,
  drop_reader,
}
use woodshed.Frame.Scanner.Step.{
  at, peeked_at, bind_ok, bind_err, peek_header_end, peek_header_short, peek_header-append,
}
use woodshed.Frame.Frames.{frame_size}
use woodshed.Frame.Seek.{header_of, peek_header-frame}

-- A reader that stands at the start of a payload of `n` bytes.
abbrev pub reading : ℕ → ℕ → ℕ → List ℕ → FrameReader
reading id n pos reader = record {
  scanner = at reader pos;
  id = id;
  remaining = n;
  payload_len = n;
  frame_start = pos;
}

module _ ⦃h : Hasher⦄ where
  pub read-frame :
      (id : ℕ) (payload rest : List ℕ) (pos : ℕ)
      → Fits (id, payload)
      → read (at (frame_bytes id payload ++ rest) pos)
        ≡ (ok (some (reading id (length payload) pos (payload ++ rest))), at (payload ++ rest) pos)
  unfolding read
  read-frame id payload rest pos fit =
      bind_ok peek_header reader_of (at (frame_bytes id payload ++ rest) pos) _ _
        (peek_header-frame id payload rest pos)
      ∙ ground (
        arith,
        header_id-header id (length payload) (checksum id payload),
        header_payload_len-header id (length payload) (checksum id payload),
      )

  -- After a seek the header is peeked at.
  pub read-peeked :
      (id : ℕ) (payload rest : List ℕ) (pos : ℕ)
      → Fits (id, payload)
      → read (peeked_at (header_of id payload) rest pos)
        ≡ (ok (some (reading id (length payload) pos rest)), at rest pos)
  unfolding read peek_header reader_of
  read-peeked id payload rest pos fit = ground (
    arith,
    header_id-header id (length payload) (checksum id payload),
    header_payload_len-header id (length payload) (checksum id payload),
  )

pub read_end : (pos : ℕ) → read (at [] pos) ≡ (ok none, at [] pos)
unfolding read
read_end pos = bind_ok peek_header reader_of (at [] pos) _ none (peek_header_end pos)

-- A part of a header is an error.
pub read_short :
    (b : ℕ) (bs : List ℕ) (pos : ℕ)
    → length (b ∷ bs) < header_len
    → read (at (b ∷ bs) pos) ≡ (err (truncated pos), at [] pos)
unfolding read
read_short b bs pos e =
    bind_err peek_header reader_of (at (b ∷ bs) pos) _ _ (peek_header_short b bs pos e)

-- A whole header gives a reader, whatever stands behind it.
pub read_header_lem :
    (hdr rest : List ℕ) (pos : ℕ)
    → length hdr ≡ header_len
    → read (at (hdr ++ rest) pos)
      ≡ (ok (some (reading (header_id hdr) (header_payload_len hdr) pos rest)), at rest pos)
unfolding read
read_header_lem hdr rest pos e =
    bind_ok peek_header reader_of (at (hdr ++ rest) pos) _ (some (hdr, pos))
      (peek_header-append hdr rest pos e)

-- Reading a whole payload to the end gives it, and dropping the reader leaves the scanner at what
-- follows, with the position behind the frame; but an empty payload leaves the position where it
-- was.
pub read_to_end_lem :
    (id pos : ℕ) (payload rest : List ℕ)
    → ((read_to_end (reading id (length payload) pos (payload ++ rest))).0 ≡ ok payload)
      × (drop_reader (read_to_end (reading id (length payload) pos (payload ++ rest))).1
          ≡ at rest (if length payload == 0 then pos else pos + frame_size (id, payload)))
unfolding read_to_end drop_reader
read_to_end_lem id pos [] rest = (refl, refl)
read_to_end_lem id pos (b ∷ bs) rest = (
  ground (arith, take-append (length (b ∷ bs)) (b ∷ bs) rest refl, append-nil (b ∷ bs)),
  ground (
    arith,
    take-append (length (b ∷ bs)) (b ∷ bs) rest refl,
    drop-append (length (b ∷ bs)) (b ∷ bs) rest refl,
  ),
)

read_payload_none :
    (id n pos len : ℕ)
    → 0 < n
    → read_payload (n + 1) (record (reading id len pos []) { remaining = n })
      ≡ (err unexpected_eof, record (reading id len pos []) { remaining = n })
unfolding read_payload
read_payload_none id n pos len h = ground (arith, drop_all {A = ℕ} n [], take_all {A = ℕ} n [])

read_payload_part :
    (id n pos b : ℕ) (bs : List ℕ)
    → length (b ∷ bs) < n
    → read_payload (n + 1) (reading id n pos (b ∷ bs))
      ≡ (ok (b ∷ bs), record (reading id n pos []) { remaining = n - length (b ∷ bs) })
unfolding read_payload
read_payload_part id n pos b bs lt = ground (arith, take_all n (b ∷ bs), drop_all n (b ∷ bs))

-- A payload that the file ends inside is an error.
pub read_to_end_cut :
    (id pos n : ℕ) (part : List ℕ)
    → length part < n
    → (read_to_end (reading id n pos part)).0 ≡ err unexpected_eof
unfolding read_to_end
read_to_end_cut id pos n [] lt = ground (arith, read_payload_none id n pos n)
read_to_end_cut id pos n (b ∷ bs) lt =
    ground
      (arith, read_payload_part id n pos b bs, read_payload_none id (n - length (b ∷ bs)) pos n)
