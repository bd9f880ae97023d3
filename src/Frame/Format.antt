-- ===== src/Frame/Format.antt =====
-- The wire format of src/frame.rs: [id: 8][payload_len: 4][checksum: 8][payload], big-endian.
use woodshed.Base.{
  ℕ, ◌+◌, ◌^◌, ◌%◌, ◌<◌, ◌≡◌, ◌∙◌, ap, sym, List, ◌++◌, arith, length, take, drop, length-append,
  take-append, take_all, drop-append, append_assoc,
}
use woodshed.Base.Bytes.{be, from_be, length-be, from_be-be}
use woodshed.Hash.{Hasher, digest}

abbrev pub header_len : ℕ
header_len = 8 + 4 + 8

-- The header, with the payload's length cut to 32 bits.
unfoldable pub header : ℕ → ℕ → ℕ → List ℕ
header id len checksum = be 8 id ++ (be 4 (len % 2 ^ 32) ++ be 8 checksum)

-- The reads of `header[..8]`, `header[8..12]` and `header[12..20]`.
unfoldable pub header_id : List ℕ → ℕ
header_id h = from_be (take 8 h)

unfoldable pub header_payload_len : List ℕ → ℕ
header_payload_len h = from_be (take 4 (drop 8 h))

unfoldable pub header_checksum : List ℕ → ℕ
header_checksum h = from_be (take 8 (drop 12 h))

pub length-header : (id len checksum : ℕ) → length (header id len checksum) ≡ header_len
unfolding header
length-header id len checksum =
    length-append (be 8 id) _
    ∙ omega (
      arith,
      length-append (be 4 (len % 2 ^ 32)) (be 8 checksum),
      length-be 8 id,
      length-be 4 (len % 2 ^ 32),
      length-be 8 checksum,
    )

pub header_id-header : (id len checksum : ℕ) → id < 2 ^ 64 → header_id (header id len checksum) ≡ id
unfolding header header_id
header_id-header id len checksum h =
    ap from_be (take-append 8 (be 8 id) _ (length-be 8 id)) ∙ from_be-be 8 id (omega arith)

pub header_payload_len-header :
    (id len checksum : ℕ) → len < 2 ^ 32 → header_payload_len (header id len checksum) ≡ len
unfolding header header_payload_len
header_payload_len-header id len checksum h =
    ap (λ t. from_be (take 4 t)) (drop-append 8 (be 8 id) _ (length-be 8 id))
    ∙ ap from_be (take-append 4 (be 4 (len % 2 ^ 32)) _ (length-be 4 (len % 2 ^ 32)))
    ∙ from_be-be 4 (len % 2 ^ 32) (omega arith)
    ∙ omega arith

pub header_checksum-header :
    (id len checksum : ℕ) → checksum < 2 ^ 64 → header_checksum (header id len checksum) ≡ checksum
unfolding header header_checksum
header_checksum-header id len checksum h =
    ap (λ t. from_be (take 8 t)) cut
    ∙ ap from_be (take_all 8 (be 8 checksum) (omega (arith, length-be 8 checksum)))
    ∙ from_be-be 8 checksum (omega arith)
  where
    front : List ℕ
    front = be 8 id ++ be 4 (len % 2 ^ 32)

    front_len : length front ≡ 12
    front_len =
        length-append (be 8 id) _ ∙ omega (arith, length-be 8 id, length-be 4 (len % 2 ^ 32))

    cut : drop 12 (be 8 id ++ (be 4 (len % 2 ^ 32) ++ be 8 checksum)) ≡ be 8 checksum
    cut =
        ap (drop 12) (sym (append_assoc (be 8 id) (be 4 (len % 2 ^ 32)) (be 8 checksum)))
        ∙ drop-append 12 front (be 8 checksum) front_len

-- What a `u64` id and a payload of `u32` length say.
abbrev pub Fits : ℕ × List ℕ → Type 0
Fits (id, payload) = (id < 2 ^ 64) × (length payload < 2 ^ 32)

module _ ⦃h : Hasher⦄ where
  -- `checksum` of a frame: over the id's bytes and the payload.
  unfoldable pub checksum : ℕ → List ℕ → ℕ
  checksum id payload = digest (be 8 id ++ payload)

  -- One frame as `FrameBuffer::write` appends it.
  unfoldable pub frame_bytes : ℕ → List ℕ → List ℕ
  frame_bytes id payload = header id (length payload) (checksum id payload) ++ payload

  pub checksum-lt : (id : ℕ) (payload : List ℕ) → checksum id payload < 2 ^ 64
  unfolding checksum
  checksum-lt id payload = h.xxh64_lt (be 8 id ++ payload)
