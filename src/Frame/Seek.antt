-- ===== src/Frame/Seek.antt =====
-- `seek_to_id` and `scan_to_after` (src/frame.rs) over frames that `write` wrote.
use woodshed.Base.{
  ℕ, suc, ◌+◌, ◌^◌, ◌≤◌, ◌<◌, ◌≡◌, refl, ap, ◌∙◌, List, [], ◌∷◌, ◌++◌, some, arith, length, All, ok,
  length-append, append_assoc, drop-append,
}
use woodshed.Hash.{Hasher}
use woodshed.Frame.Format.{
  header_len, header, checksum, frame_bytes, Fits, length-header, header_id-header,
  header_payload_len-header,
}
use woodshed.Frame.Scanner.{peek_header, consume_peeked_payload, seek_step, seek_loop, seek_to_id}
use woodshed.Frame.Scanner.Step.{at, peeked_at, peek_header-append, peek_header_end}
use woodshed.Frame.Frames.{
  Frame, frame_size, frames_size, frames_bytes, frames_bytes-cons, more, spare, more_enough,
}

-- The payload behind a peeked header is left behind.
pub consume_lem :
    (payload rest : List ℕ) (pos : ℕ)
    → consume_peeked_payload (length payload) pos (at (payload ++ rest) pos)
      ≡ (ok tt, at rest (pos + (header_len + length payload)))
unfolding consume_peeked_payload
consume_lem payload rest pos =
    ground (arith, length-append payload rest, drop-append (length payload) payload rest refl)

module _ ⦃h : Hasher⦄ where
  -- The header that `write` gives a frame.
  abbrev pub header_of : ℕ → List ℕ → List ℕ
  header_of id payload = header id (length payload) (checksum id payload)

  pub peek_header-frame :
      (id : ℕ) (payload rest : List ℕ) (pos : ℕ)
      → peek_header (at (frame_bytes id payload ++ rest) pos) ≡ (
        ok (some (header_of id payload, pos)),
        peeked_at (header_of id payload) (payload ++ rest) pos,
      )
  unfolding frame_bytes
  peek_header-frame id payload rest pos =
      ap (λ t. peek_header (at t pos)) (append_assoc (header_of id payload) payload rest)
      ∙ peek_header-append (header_of id payload) (payload ++ rest) pos (length-header id _ _)

  module _ (target : ℕ) where
    seek_loop-skip :
        (k id : ℕ) (payload rest : List ℕ) (pos : ℕ)
        → Fits (id, payload)
        → id < target
        → seek_loop (suc k) target (at (frame_bytes id payload ++ rest) pos)
          ≡ seek_loop k target (at rest (pos + frame_size (id, payload)))
    unfolding seek_loop
    seek_loop-skip k id payload rest pos fits lt =
        ap (λ r. seek_step target r (seek_loop k target)) (peek_header-frame id payload rest pos)
        ∙ ground (
          arith,
          header_id-header id (length payload) (checksum id payload),
          header_payload_len-header id (length payload) (checksum id payload),
          consume_lem payload rest pos,
        )

    seek_loop-stop :
        (k id : ℕ) (payload rest : List ℕ) (pos : ℕ)
        → id < 2 ^ 64
        → target ≤ id
        → seek_loop (suc k) target (at (frame_bytes id payload ++ rest) pos)
          ≡ some (ok tt, peeked_at (header_of id payload) (payload ++ rest) pos)
    unfolding seek_loop
    seek_loop-stop k id payload rest pos fits le =
        ap (λ r. seek_step target r (seek_loop k target)) (peek_header-frame id payload rest pos)
        ∙ ground (arith, header_id-header id (length payload) (checksum id payload))

    seek_loop_end : (k pos : ℕ) → seek_loop (suc k) target (at [] pos) ≡ some (ok tt, at [] pos)
    unfolding seek_loop
    seek_loop_end k pos = ap (λ r. seek_step target r (seek_loop k target)) (peek_header_end pos)

    seek_loop-frames :
        (fs : List Frame) (k pos : ℕ) (tail : List ℕ)
        → All Fits fs
        → All (λ f. f.0 < target) fs
        → seek_loop (more fs k) target (at (frames_bytes fs ++ tail) pos)
          ≡ seek_loop k target (at tail (pos + frames_size fs))
    seek_loop-frames [] k pos tail fits below = unfold frames_bytes in ground arith
    seek_loop-frames ((id, payload) ∷ fs) k pos tail (fit, fits) (lt, below) =
        ap (λ t. seek_loop (suc (more fs k)) target (at t pos))
          (frames_bytes-cons id payload fs tail)
        ∙ seek_loop-skip (more fs k) id payload (frames_bytes fs ++ tail) pos fit lt
        ∙ seek_loop-frames fs k (pos + frame_size (id, payload)) tail fits below
        ∙ ground arith

    seek_to_id-more :
        (fs : List Frame) (tail : List ℕ) (pos : ℕ)
        → seek_to_id target (at (frames_bytes fs ++ tail) pos)
          ≡ seek_loop (more fs (spare fs tail)) target (at (frames_bytes fs ++ tail) pos)
    unfolding seek_to_id
    seek_to_id-more fs tail pos =
        ap (λ n. seek_loop n target (at (frames_bytes fs ++ tail) pos)) (more_enough fs tail)

    -- `seek_to_id` passes written frames whose ids are below the target and stops at the frame
    -- behind them whose id is at least the target, with its header peeked at.
    pub seek_to_id-frame :
        (fs : List Frame) (id : ℕ) (payload rest : List ℕ) (pos : ℕ)
        → All Fits fs
        → All (λ f. f.0 < target) fs
        → id < 2 ^ 64
        → target ≤ id
        → seek_to_id target (at (frames_bytes fs ++ (frame_bytes id payload ++ rest)) pos)
          ≡ some (ok tt, peeked_at (header_of id payload) (payload ++ rest) (pos + frames_size fs))
    seek_to_id-frame fs id payload rest pos fits below fit le =
        seek_to_id-more fs (frame_bytes id payload ++ rest) pos
        ∙ seek_loop-frames fs _ pos (frame_bytes id payload ++ rest) fits below
        ∙ seek_loop-stop _ id payload rest (pos + frames_size fs) fit le

    -- Where the file has written frames alone and every id is below the target, `seek_to_id`
    -- stops at the end of the file.
    pub seek_to_id_end :
        (fs : List Frame) (pos : ℕ)
        → All Fits fs
        → All (λ f. f.0 < target) fs
        → seek_to_id target (at (frames_bytes fs ++ []) pos)
          ≡ some (ok tt, at [] (pos + frames_size fs))
    seek_to_id_end fs pos fits below =
        seek_to_id-more fs [] pos
        ∙ seek_loop-frames fs _ pos [] fits below
        ∙ seek_loop_end _ (pos + frames_size fs)
