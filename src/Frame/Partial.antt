-- ===== src/Frame/Partial.antt =====
-- What is left of frames (src/frame.rs) of which only the first bytes were written.
use woodshed.Base.{
  ℕ, zero, suc, ◌+◌, ◌-◌, ◌≤◌, ◌<◌, ◌≡◌, inl, inr, refl, sym, ap, ◌∙◌, take_all, List, [], ◌∷◌,
  ◌++◌, append_assoc, arith, length, take, length-take, Bool-cases, ltb, ltb→lt, All,
}
use woodshed.Hash.{Hasher}
use woodshed.Frame.Format.{
  header_len, checksum, frame_bytes, Fits, length-header, header_payload_len-header,
}
use woodshed.Frame.Frames.{Frame, frame_size, frames_size, frames_bytes, length-frame_bytes}
use woodshed.Frame.Seek.{header_of}
use woodshed.Frame.Summary.{ScanStatus}
use woodshed.Frame.Summary.Verdict.{Ends, at_end, cut_header, cut_payload}

take_less : (k : ℕ) (xs ys : List ℕ) → k ≤ length xs → take k (xs ++ ys) ≡ take k xs
take_less zero xs ys le = refl
take_less (suc k) [] ys le = absurd (omega arith)
take_less (suc k) (x ∷ xs) ys le = ap (λ l. x ∷ l) (take_less k xs ys (omega arith))

pub take_more :
    (k : ℕ) (xs ys : List ℕ) → length xs ≤ k → take k (xs ++ ys) ≡ xs ++ take (k - length xs) ys
take_more k [] ys le = ap (λ n. take n ys) (omega arith)
take_more zero (x ∷ xs) ys le = absurd (omega arith)
take_more (suc k) (x ∷ xs) ys le =
    ap (λ l. x ∷ l) (take_more k xs ys (omega arith) ∙ ap (λ n. xs ++ take n ys) (omega arith))

-- The first frame that is lost is not whole before `k`.
abbrev pub Behind : ℕ → List Frame → List Frame → Type 0
Behind k written [] = Unit
Behind k written (f ∷ lost) = k < frames_size written + frame_size f

Behind-cons :
    (k : ℕ) (f : Frame) (written lost : List Frame)
    → frame_size f ≤ k
    → Behind (k - frame_size f) written lost
    → Behind k (f ∷ written) lost
Behind-cons k f written [] le b = tt
Behind-cons k f written (g ∷ lost) le b = omega arith

-- The whole frames that are written, those that are not, and the bytes of one between.
pub record Partial ⦃h : Hasher⦄ (fs : List Frame) (k : ℕ) : Type 0 where
  pub written : List Frame
  pub lost : List Frame
  pub tail : List ℕ
  pub status : ScanStatus
  pub whole : fs ≡ written ++ lost
  pub bytes : take k (frames_bytes fs) ≡ frames_bytes written ++ tail
  pub ends : Ends tail status
  pub beyond : Behind k written lost

module _ ⦃h : Hasher⦄ where
  -- No whole frame is written.
  nothing_written :
      (f : Frame) (fs : List Frame) (k : ℕ) (tail : List ℕ) (status : ScanStatus)
      → take k (frames_bytes (f ∷ fs)) ≡ tail
      → k < frame_size f
      → Ends tail status
      → Partial (f ∷ fs) k
  unfolding frames_bytes
  nothing_written f fs k tail status bytes short ends = record {
    written = [];
    lost = f ∷ fs;
    tail = tail;
    status = status;
    whole = refl;
    bytes = bytes;
    ends = ends;
    beyond = omega arith;
  }

  in_header :
      (id : ℕ) (payload : List ℕ) (fs : List Frame) (k : ℕ) (tail : List ℕ)
      → take k (frames_bytes ((id, payload) ∷ fs)) ≡ tail
      → k < header_len
      → length tail < header_len
      → Partial ((id, payload) ∷ fs) k
  in_header id payload fs k [] e short lt =
      nothing_written (id, payload) fs k [] ScanStatus.clean e (omega arith) at_end
  in_header id payload fs k (b ∷ bs) e short lt =
      nothing_written (id, payload) fs k (b ∷ bs) ScanStatus.torn_tail e (omega arith)
        (cut_header lt)

  frames_take :
      (id : ℕ) (payload : List ℕ) (fs : List Frame) (k : ℕ)
      → take k (frames_bytes ((id, payload) ∷ fs))
        ≡ take k (header_of id payload ++ (payload ++ frames_bytes fs))
  unfolding frames_bytes frame_bytes
  frames_take id payload fs k =
      ap (take k) (append_assoc (header_of id payload) payload (frames_bytes fs))

  in_payload :
      (id : ℕ) (payload : List ℕ) (fs : List Frame) (k : ℕ)
      → Fits (id, payload)
      → header_len ≤ k
      → k < frame_size (id, payload)
      → Partial ((id, payload) ∷ fs) k
  in_payload id payload fs k fit le lt =
      let hdr = header_of id payload in
      let n = length-header id (length payload) (checksum id payload) in
      nothing_written (id, payload) fs k (hdr ++ take (k - header_len) payload) ScanStatus.torn_tail
        (frames_take id payload fs k
          ∙ take_more k hdr (payload ++ frames_bytes fs) (omega (arith, n))
          ∙ ap (λ m. hdr ++ take (k - m) (payload ++ frames_bytes fs)) n
          ∙ ap (λ l. hdr ++ l) (take_less (k - header_len) payload (frames_bytes fs) (omega arith)))
        lt
        (cut_payload hdr (take (k - header_len) payload) n (
          omega (
            arith,
            length-take (k - header_len) payload,
            header_payload_len-header id (length payload) (checksum id payload),
            fit.1,
          )))

  behind_frame :
      (id : ℕ) (payload : List ℕ) (fs : List Frame) (k : ℕ)
      → frame_size (id, payload) ≤ k
      → Partial fs (k - frame_size (id, payload))
      → Partial ((id, payload) ∷ fs) k
  unfolding frames_bytes
  behind_frame id payload fs k le p =
      let n = length-frame_bytes id payload in
      record {
        written = (id, payload) ∷ p.written;
        lost = p.lost;
        tail = p.tail;
        status = p.status;
        whole = ap (λ l. (id, payload) ∷ l) p.whole;
        bytes =
            take_more k (frame_bytes id payload) (frames_bytes fs) (omega (arith, n))
            ∙ ap (λ m. frame_bytes id payload ++ take (k - m) (frames_bytes fs)) n
            ∙ ap (λ l. frame_bytes id payload ++ l) p.bytes
            ∙ sym (append_assoc (frame_bytes id payload) (frames_bytes p.written) p.tail);
        ends = p.ends;
        beyond = Behind-cons k (id, payload) p.written p.lost le p.beyond;
      }

  -- The first bytes of frames that fit are some of the frames, and of the next no byte, a part of its
  -- header, or its header and a part of its payload.
  pub frames-Partial : (fs : List Frame) (k : ℕ) → All Fits fs → Partial fs k
  unfolding frames_bytes
  frames-Partial [] k fits = record {
    written = [];
    lost = [];
    tail = [];
    status = ScanStatus.clean;
    whole = refl;
    bytes = take_all k [] (omega arith);
    ends = at_end;
    beyond = tt;
  }
  frames-Partial ((id, payload) ∷ fs) k (fit, fits) = elim (Bool-cases (ltb k header_len)) [
    | inl short ↦
        in_header id payload fs k (take k (frames_bytes ((id, payload) ∷ fs))) refl
          (ltb→lt k header_len short)
          (omega
            (arith, length-take k (frames_bytes ((id, payload) ∷ fs)), ltb→lt k header_len short))
    | inr whole ↦ elim (Bool-cases (ltb k (frame_size (id, payload)))) [
      | inl part ↦ in_payload id payload fs k fit (ground arith) (ground arith)
      | inr past ↦
          behind_frame id payload fs k (ground arith)
            (frames-Partial fs (k - frame_size (id, payload)) fits)
    ]
  ]
