-- ===== src/Frame/Unique.antt =====
-- The frames (src/frame.rs) that bytes stand for.
use woodshed.Base.{
  ℕ, ◌≡◌, refl, sym, ap, ap₂, ◌∙◌, List, [], ◌∷◌, ◌++◌, some, Option, arith, length, take, drop,
  Result, ok, All, take-append, drop-append,
}
use woodshed.Hash.{Hasher}
use woodshed.Frame.Format.{frame_bytes, Fits}
use woodshed.Frame.Scanner.{FrameScanner, FrameReader, ScanError, read}
use woodshed.Frame.Scanner.Step.{at}
use woodshed.Frame.Frames.{Frame, frames_bytes, length-frames_bytes}
use woodshed.Frame.Payload.{reading, read-frame}

-- The reader, or another where there is none.
or_reader : FrameReader → Result ScanError (Option FrameReader) × FrameScanner → FrameReader
or_reader r (ok (some s), _) = s
or_reader r (_, _) = r

module _ ⦃h : Hasher⦄ where
  -- The first frame of a file is read from its bytes.
  first_frame :
      (id id' : ℕ) (p p' r r' : List ℕ)
      → Fits (id, p)
      → Fits (id', p')
      → frame_bytes id p ++ r ≡ frame_bytes id' p' ++ r'
      → reading id (length p) 0 (p ++ r) ≡ reading id' (length p') 0 (p' ++ r')
  unfolding or_reader
  first_frame id id' p p' r r' fit fit' e =
      let no = reading 0 0 0 [] in
      ap (or_reader no)
        (sym (read-frame id p r 0 fit) ∙ ap (λ b. read (at b 0)) e ∙ read-frame id' p' r' 0 fit')

  frame-parts :
      (id id' : ℕ) (p p' r r' : List ℕ)
      → Fits (id, p)
      → Fits (id', p')
      → frame_bytes id p ++ r ≡ frame_bytes id' p' ++ r'
      → (id ≡ id') × (p ≡ p') × (r ≡ r')
  frame-parts id id' p p' r r' fit fit' e =
      let same = first_frame id id' p p' r r' fit fit' e in
      let n : length p ≡ length p' = ap (λ s. s.remaining) same in
      let bytes : p ++ r ≡ p' ++ r' = ap (λ s. s.scanner.reader) same in
      (
        ap (λ s. s.id) same,
        sym (take-append (length p) p r refl)
            ∙ ap (take (length p)) bytes
            ∙ take-append (length p) p' r' (sym n),
        sym (drop-append (length p) p r refl)
            ∙ ap (drop (length p)) bytes
            ∙ drop-append (length p) p' r' (sym n),
      )

  no_frame : (f : Frame) (fs : List Frame) (b : List ℕ) → b ≡ [] → frames_bytes (f ∷ fs) ≡ b → ⊥
  no_frame f fs b n e = omega (arith, ap length e, ap length n, length-frames_bytes (f ∷ fs))

  -- Frames that fit are known by their bytes.
  pub frames_bytes-injective :
      (fs gs : List Frame) → All Fits fs → All Fits gs → frames_bytes fs ≡ frames_bytes gs → fs ≡ gs
  unfolding frames_bytes
  frames_bytes-injective [] [] a b e = refl
  frames_bytes-injective [] (g ∷ gs) a b e = absurd (no_frame g gs [] refl (sym e))
  frames_bytes-injective (f ∷ fs) [] a b e = absurd (no_frame f fs [] refl e)
  frames_bytes-injective ((id, p) ∷ fs) ((id', p') ∷ gs) (fit, fits) (fit', fits') e =
      let (i, q, rest) = frame-parts id id' p p' (frames_bytes fs) (frames_bytes gs) fit fit' e in
      ap₂ (λ f l. f ∷ l) (ap₂ (λ a b. (a, b)) i q) (frames_bytes-injective fs gs fits fits' rest)
