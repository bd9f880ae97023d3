-- ===== src/Frame/Scanner/Step.antt =====
-- One call of `peek_header`, `check` or `read` (src/frame.rs) on bytes of a known shape.
use woodshed.Base.{
  ℕ, ◌+◌, ◌<◌, ◌≡◌, refl, ap, List, [], ◌∷◌, ◌++◌, none, some, arith, length, ok, err, ◌==◌,
  if◌then◌else◌, length-append, take-append, drop-append,
}
use woodshed.Hash.{Hasher}
use woodshed.Frame.Format.{
  header_len, header, header_id, header_payload_len, header_checksum, checksum,
}
use woodshed.Frame.Scanner.{
  FrameScanner, ScanError, checksum_mismatch, truncated, read_header, peek_header, check_payload,
  Scan, and_then, ◌>>=◌,
}

-- A scanner that has peeked at nothing.
abbrev pub at : List ℕ → ℕ → FrameScanner
at reader position = record { reader = reader; position = position; peeked = none }

abbrev pub peeked_at : List ℕ → List ℕ → ℕ → FrameScanner
peeked_at header reader position = record {
  reader = reader;
  position = position;
  peeked = some (header, position);
}

pub bind_ok :
    {A B : Type 0} (m : Scan A) (f : A → Scan B) (s s' : FrameScanner) (a : A)
    → m s ≡ (ok a, s')
    → (m >>= f) s ≡ f a s'
bind_ok m f s s' a e = ap (λ r. and_then r f) e

pub bind_err :
    {A B : Type 0} (m : Scan A) (f : A → Scan B) (s s' : FrameScanner) (x : ScanError)
    → m s ≡ (err x, s')
    → (m >>= f) s ≡ (err x, s')
bind_err m f s s' x e = ap (λ r. and_then r f) e

-- A whole header is peeked at.
pub peek_header-append :
    (hdr rest : List ℕ) (pos : ℕ)
    → length hdr ≡ header_len
    → peek_header (at (hdr ++ rest) pos) ≡ (ok (some (hdr, pos)), peeked_at hdr rest pos)
unfolding peek_header read_header
peek_header-append [] rest pos e = absurd (omega arith)
peek_header-append (b ∷ bs) rest pos e = ground (
  arith,
  length-append (b ∷ bs) rest,
  take-append header_len (b ∷ bs) rest e,
  drop-append header_len (b ∷ bs) rest e,
)

-- At the end of the file there is none.
pub peek_header_end : (pos : ℕ) → peek_header (at [] pos) ≡ (ok none, at [] pos)
unfolding peek_header read_header
peek_header_end pos = refl

-- Fewer bytes than a header are used up.
pub peek_header_short :
    (b : ℕ) (bs : List ℕ) (pos : ℕ)
    → length (b ∷ bs) < header_len
    → peek_header (at (b ∷ bs) pos) ≡ (err (truncated pos), at [] pos)
unfolding peek_header read_header
peek_header_short b bs pos h = ground arith

module _ ⦃h : Hasher⦄ where
  pub check_payload_lem :
      (hdr payload rest : List ℕ) (pos : ℕ)
      → length payload ≡ header_payload_len hdr
      → check_payload (some (hdr, pos)) (peeked_at hdr (payload ++ rest) pos) ≡ (
          if checksum (header_id hdr) payload == header_checksum hdr
          then (ok (some (header_id hdr, pos)), at rest (pos + header_len + length payload))
          else (err (checksum_mismatch pos), at rest (pos + header_len + length payload)))
  unfolding check_payload
  check_payload_lem hdr payload rest pos e = ground (
    arith,
    length-append payload rest,
    take-append (header_payload_len hdr) payload rest e,
    drop-append (header_payload_len hdr) payload rest e,
  )
