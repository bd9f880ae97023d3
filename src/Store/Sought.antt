-- ===== src/Store/Sought.antt =====
-- Where `FrameScanner::seek_to_id` (src/frame.rs) stops in a segment's file, whatever the order of its ids.
use woodshed.Base.{
  ℕ, ◌+◌, ◌≡◌, sym, ap, subst, ◌∙◌, List, [], ◌∷◌, ◌++◌, append-nil, All, All-split, some, ok,
}
use woodshed.Hash.{Hasher}
use woodshed.Frame.Format.{Fits}
use woodshed.Frame.Scanner.{FrameScanner, seek_to_id}
use woodshed.Frame.Scanner.Step.{at, peeked_at}
use woodshed.Frame.Frames.{Frame, frames_size, frames_bytes}
use woodshed.Frame.Seek.{header_of, seek_to_id-frame, seek_to_id_end}
use woodshed.State.{EntryId}
use woodshed.Store.Batch.{frames_bytes-append}
use woodshed.Store.ScanFrom.{StartsAt}
use woodshed.Store.Rising.{Below, leading, trailing, leading-append-trailing, leading-Below}
use woodshed.Store.ScanExact.{trailing-StartsAt}

module _ ⦃h : Hasher⦄ where
  -- The scanner before the frames of which the first header was peeked, or at the end.
  abbrev pub before : List Frame → ℕ → FrameScanner
  before [] pos = at [] pos
  before ((id, payload) ∷ fs) pos =
      peeked_at (header_of id payload) (payload ++ frames_bytes fs) pos

  seek-before :
      (target : EntryId) (pre fs : List Frame) (pos : ℕ)
      → All Fits pre
      → All Fits fs
      → Below target pre
      → StartsAt target fs
      → seek_to_id target (at (frames_bytes (pre ++ fs)) pos)
        ≡ some (ok tt, before fs (pos + frames_size pre))
  unfolding frames_bytes
  seek-before target pre [] pos fits fits' below starts =
      ap (λ b. seek_to_id target (at b pos))
        (ap frames_bytes (append-nil pre) ∙ sym (append-nil (frames_bytes pre)))
      ∙ seek_to_id_end target pre pos fits below
  seek-before target pre ((id, payload) ∷ fs) pos fits (fit, fits') below starts =
      ap (λ b. seek_to_id target (at b pos)) (frames_bytes-append pre ((id, payload) ∷ fs))
      ∙ seek_to_id-frame target pre id payload (frames_bytes fs) pos fits below fit.0 starts

  -- In a file of frames that fit, `seek_to_id` stops before the first frame whose id is at least the
  -- target, with its header peeked, or at the end of the file where there is none.
  pub seek_to_id-leading :
      (target : EntryId) (fs : List Frame) (pos : ℕ)
      → All Fits fs
      → seek_to_id target (at (frames_bytes fs) pos)
        ≡ some (ok tt, before (trailing target fs) (pos + frames_size (leading target fs)))
  seek_to_id-leading target fs pos fits =
      let split = leading-append-trailing target fs in
      let (fits_before, fits_behind) =
        All-split Fits (leading target fs) (trailing target fs) (subst (All Fits) split fits) in
      ap (λ l. seek_to_id target (at (frames_bytes l) pos)) split
      ∙ seek-before target (leading target fs) (trailing target fs) pos fits_before fits_behind
          (leading-Below target fs) (trailing-StartsAt target fs)
