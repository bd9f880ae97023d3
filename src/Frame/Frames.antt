-- ===== src/Frame/Frames.antt =====
-- A file as a sequence of frames (src/frame.rs): what `check` does on a frame that `write` wrote.
use woodshed.Base.{
  ℕ, zero, suc, ◌+◌, ◌-◌, ◌≤◌, ◌<◌, ◌≡◌, ◌≢◌, refl, ap, ◌∙◌, List, [], ◌∷◌, ◌++◌, none, some, arith,
  length, ok, err, length-append, append_assoc,
}
use woodshed.Hash.{Hasher}
use woodshed.Frame.Format.{
  header_len, header, header_id, header_payload_len, header_checksum, checksum, frame_bytes, Fits,
  length-header, header_id-header, header_payload_len-header, header_checksum-header, checksum-lt,
}
use woodshed.Frame.Scanner.{checksum_mismatch, truncated, peek_header, check_payload, check}
use woodshed.Frame.Scanner.Step.{
  at, peek_header-append, peek_header_end, peek_header_short, check_payload_lem, bind_ok, bind_err,
}

abbrev pub Frame : Type 0
Frame = ℕ × List ℕ

-- The bytes that a frame takes.
abbrev pub frame_size : Frame → ℕ
frame_size (id, payload) = header_len + length payload

abbrev pub frames_size : List Frame → ℕ
frames_size [] = 0
frames_size (f ∷ fs) = frame_size f + frames_size fs

-- One round for each frame, and `k` more.
abbrev pub more : List Frame → ℕ → ℕ
more [] k = k
more (f ∷ fs) k = suc (more fs k)

length-le-size : (fs : List Frame) → length fs ≤ frames_size fs
length-le-size [] = omega arith
length-le-size (f ∷ fs) = omega (arith, length-le-size fs)

more_split :
    (fs : List Frame) (n : ℕ) → length fs ≤ n → suc (suc n) ≡ more fs (suc (suc (n - length fs)))
more_split [] n e = omega arith
more_split (f ∷ fs) zero e = absurd (omega arith)
more_split (f ∷ fs) (suc n) e =
    ap suc (more_split fs n (omega arith)) ∙ ap (λ t. suc (more fs (suc (suc t)))) (omega arith)

module _ ⦃h : Hasher⦄ where
  unfoldable pub frames_bytes : List Frame → List ℕ
  frames_bytes [] = []
  frames_bytes ((id, payload) ∷ fs) = frame_bytes id payload ++ frames_bytes fs

  pub frames_bytes-cons :
      (id : ℕ) (payload : List ℕ) (fs : List Frame) (tail : List ℕ)
      → frames_bytes ((id, payload) ∷ fs) ++ tail
        ≡ frame_bytes id payload ++ (frames_bytes fs ++ tail)
  unfolding frames_bytes
  frames_bytes-cons id payload fs tail =
      append_assoc (frame_bytes id payload) (frames_bytes fs) tail

  pub length-frame_bytes :
      (id : ℕ) (payload : List ℕ) → length (frame_bytes id payload) ≡ frame_size (id, payload)
  unfolding frame_bytes
  length-frame_bytes id payload =
      length-append (header id (length payload) (checksum id payload)) payload
      ∙ omega (arith, length-header id (length payload) (checksum id payload))

  pub length-frames_bytes : (fs : List Frame) → length (frames_bytes fs) ≡ frames_size fs
  unfolding frames_bytes
  length-frames_bytes [] = refl
  length-frames_bytes ((id, payload) ∷ fs) =
      length-append (frame_bytes id payload) (frames_bytes fs)
      ∙ omega (arith, length-frame_bytes id payload, length-frames_bytes fs)

  -- The rounds that are left behind the frames `fs`, where a loop over a whole file starts with two
  -- more than the file has bytes.
  abbrev pub spare : List Frame → List ℕ → ℕ
  spare fs tail = suc (suc (length (frames_bytes fs ++ tail) - length fs))

  pub more_enough :
      (fs : List Frame) (tail : List ℕ)
      → suc (suc (length (frames_bytes fs ++ tail))) ≡ more fs (spare fs tail)
  more_enough fs tail = more_split fs (length (frames_bytes fs ++ tail)) room
    where
      room : length fs ≤ length (frames_bytes fs ++ tail)
      room =
          omega
            (arith, length-append (frames_bytes fs) tail, length-frames_bytes fs, length-le-size fs)

  -- A good frame passes, and the scanner stands behind it.
  pub check-frame :
      (id : ℕ) (payload rest : List ℕ) (pos : ℕ)
      → Fits (id, payload)
      → check (at (frame_bytes id payload ++ rest) pos)
        ≡ (ok (some (id, pos)), at rest (pos + frame_size (id, payload)))
  unfolding check frame_bytes
  check-frame id payload rest pos fits =
      ap (λ t. check (at t pos)) (append_assoc hdr payload rest)
      ∙ bind_ok peek_header check_payload (at (hdr ++ (payload ++ rest)) pos) _ (some (hdr, pos))
          (peek_header-append hdr (payload ++ rest) pos (length-header id _ _))
      ∙ ground (
        arith,
        check_payload_lem hdr payload rest pos,
        header_id-header id (length payload) (checksum id payload),
        header_payload_len-header id (length payload) (checksum id payload),
        header_checksum-header id (length payload) (checksum id payload),
        checksum-lt id payload,
      )
    where
      hdr : List ℕ
      hdr = header id (length payload) (checksum id payload)

  -- The end of the file.
  pub check_end : (pos : ℕ) → check (at [] pos) ≡ (ok none, at [] pos)
  unfolding check check_payload
  check_end pos = bind_ok peek_header check_payload (at [] pos) _ none (peek_header_end pos)

  -- A part of a header is used up.
  pub check_short :
      (b : ℕ) (bs : List ℕ) (pos : ℕ)
      → length (b ∷ bs) < header_len
      → check (at (b ∷ bs) pos) ≡ (err (truncated pos), at [] pos)
  unfolding check
  check_short b bs pos e =
      bind_err peek_header check_payload (at (b ∷ bs) pos) _ _ (peek_header_short b bs pos e)

  -- A whole frame whose checksum is not the one in its header.
  pub check_corrupt :
      (hdr payload rest : List ℕ) (pos : ℕ)
      → length hdr ≡ header_len
      → length payload ≡ header_payload_len hdr
      → checksum (header_id hdr) payload ≢ header_checksum hdr
      → check (at (hdr ++ (payload ++ rest)) pos)
        ≡ (err (checksum_mismatch pos), at rest (pos + header_len + length payload))
  unfolding check
  check_corrupt hdr payload rest pos e n bad =
      bind_ok peek_header check_payload (at (hdr ++ (payload ++ rest)) pos) _ (some (hdr, pos))
        (peek_header-append hdr (payload ++ rest) pos e)
      ∙ ground (arith, check_payload_lem hdr payload rest pos)

  -- A whole header with too little behind it.
  pub check_cut :
      (hdr part : List ℕ) (pos : ℕ)
      → length hdr ≡ header_len
      → length part < header_payload_len hdr
      → check (at (hdr ++ part) pos) ≡ (err (truncated pos), at [] pos)
  unfolding check
  check_cut hdr part pos e n =
      bind_ok peek_header check_payload (at (hdr ++ part) pos) _ (some (hdr, pos))
        (peek_header-append hdr part pos e)
      ∙ (unfold check_payload in ground arith)
