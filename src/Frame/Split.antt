-- ===== src/Frame/Split.antt =====
-- Every file of bytes is a sequence of frames of src/frame.rs and one of the four endings, so a scan
-- never fails to give a summary, and cutting a file where the summary says leaves it clean.
use woodshed.Base.{
  ℕ, zero, suc, ◌^◌, ◌%◌, ◌≤◌, ◌<◌, ◌≡◌, refl, sym, ap, ap₂, subst, ◌∙◌, List, [], ◌∷◌, ◌++◌, arith,
  length, take, drop, drop-drop, take_all, All, All-take, All-drop, length-take, length-drop,
  take-append-drop, append_assoc,
}
use woodshed.Base.Bytes.{be, from_be, IsByte, be-from_be, from_be-lt}
use woodshed.Hash.{Hasher}
use woodshed.Frame.Format.{
  header_len, header, header_id, header_payload_len, header_checksum, checksum, frame_bytes, Fits,
}
use woodshed.Frame.Frames.{Frame, frames_bytes, frames_bytes-cons}
use woodshed.Frame.Summary.{ScanStatus}
use woodshed.Frame.Summary.Verdict.{Ends, at_end, cut_header, cut_payload, bad_checksum}
use native.Mathlib.Decide.{dec_lt, ℕ_discrete}

be_piece : (w : ℕ) (bs : List ℕ) → length bs ≡ w → All IsByte bs → be w (from_be bs) ≡ bs
be_piece w bs e b = ap (λ n. be n (from_be bs)) (sym e) ∙ be-from_be bs b

piece-lt : (w : ℕ) (bs : List ℕ) → length bs ≡ w → All IsByte bs → from_be bs < 256 ^ w
piece-lt w bs e b = subst (λ n. from_be bs < 256 ^ n) e (from_be-lt bs b)

-- A header of bytes is the header of its three fields.
header_fields :
    (hdr : List ℕ)
    → length hdr ≡ header_len
    → All IsByte hdr
    → header (header_id hdr) (header_payload_len hdr) (header_checksum hdr) ≡ hdr
unfolding header header_id header_payload_len header_checksum
header_fields hdr e b =
    ap₂ (λ x y. x ++ y)
      (be_piece 8 (take 8 hdr) (omega (arith, length-take 8 hdr)) (All-take IsByte 8 hdr b))
      (ap₂ (λ x y. x ++ y) len_piece sum_piece)
    ∙ ap (λ t. take 8 hdr ++ t) (take-append-drop 4 (drop 8 hdr))
    ∙ take-append-drop 8 hdr
  where
    behind : All IsByte (drop 8 hdr)
    behind = All-drop IsByte 8 hdr b

    len_lem : length (take 4 (drop 8 hdr)) ≡ 4
    len_lem = omega (arith, length-take 4 (drop 8 hdr), length-drop 8 hdr)

    len_bytes : All IsByte (take 4 (drop 8 hdr))
    len_bytes = All-take IsByte 4 (drop 8 hdr) behind

    len_piece : be 4 (from_be (take 4 (drop 8 hdr)) % 2 ^ 32) ≡ take 4 (drop 8 hdr)
    len_piece =
        ap (be 4) (omega (arith, piece-lt 4 (take 4 (drop 8 hdr)) len_lem len_bytes))
        ∙ be_piece 4 (take 4 (drop 8 hdr)) len_lem len_bytes

    last : drop 12 hdr ≡ drop 4 (drop 8 hdr)
    last = sym (drop-drop 4 8 hdr)

    whole : take 8 (drop 12 hdr) ≡ drop 12 hdr
    whole = take_all 8 (drop 12 hdr) (omega (arith, length-drop 12 hdr))

    sum_piece : be 8 (from_be (take 8 (drop 12 hdr))) ≡ drop 4 (drop 8 hdr)
    sum_piece =
        ap (λ t. be 8 (from_be t)) whole
        ∙ be_piece 8 (drop 12 hdr) (omega (arith, length-drop 12 hdr)) (All-drop IsByte 12 hdr b)
        ∙ last

-- A file cut into its good frames and the ending.
pub record Parts ⦃h : Hasher⦄ (bytes : List ℕ) : Type 0 where
  pub frames : List Frame
  pub tail : List ℕ
  pub status : ScanStatus
  pub whole : bytes ≡ frames_bytes frames ++ tail
  pub fits : All Fits frames
  pub ends : Ends tail status

module _ ⦃h : Hasher⦄ where
  one_frame :
      (hdr payload rest : List ℕ)
      → length hdr ≡ header_len
      → All IsByte hdr
      → length payload ≡ header_payload_len hdr
      → checksum (header_id hdr) payload ≡ header_checksum hdr
      → Parts rest
      → Parts (hdr ++ (payload ++ rest))
  one_frame hdr payload rest e b n good p = record {
    frames = (header_id hdr, payload) ∷ p.frames;
    tail = p.tail;
    status = p.status;
    whole =
        ap₂ (λ x y. x ++ (payload ++ y)) (sym rebuilt) p.whole
        ∙ sym (
            append_assoc
              (header (header_id hdr) (length payload) (checksum (header_id hdr) payload)) payload
              _)
        ∙ sym (unfold frame_bytes in frames_bytes-cons (header_id hdr) payload p.frames p.tail);
    fits = (
      (
        unfold header_id in
            piece-lt 8 (take 8 hdr) (omega (arith, length-take 8 hdr)) (All-take IsByte 8 hdr b),
        subst (λ t. t < 2 ^ 32) (sym n)
            (unfold header_payload_len in
              piece-lt 4 (take 4 (drop 8 hdr))
                (omega (arith, length-take 4 (drop 8 hdr), length-drop 8 hdr))
                (All-take IsByte 4 (drop 8 hdr) (All-drop IsByte 8 hdr b))),
      ),
      p.fits,
    );
    ends = p.ends;
  }
    where
      rebuilt : header (header_id hdr) (length payload) (checksum (header_id hdr) payload) ≡ hdr
      rebuilt = ap₂ (λ x y. header (header_id hdr) x y) n good ∙ header_fields hdr e b

  -- A file that ends at once.
  no_frame : {tail : List ℕ} {status : ScanStatus} → Ends tail status → Parts tail
  no_frame {tail} {status} ends = record {
    frames = [];
    tail = tail;
    status = status;
    whole = unfold frames_bytes in refl;
    fits = tt;
    ends = ends;
  }

  -- The next frame of a file that has a whole header, and the rest by `k`.
  next_frame :
      (bytes : List ℕ)
      → header_len ≤ length bytes
      → All IsByte bytes
      → ((rest : List ℕ) → length rest < length bytes → All IsByte rest → Parts rest)
      → Parts bytes
  next_frame bytes room b k =
      subst Parts (take-append-drop header_len bytes) (elim (dec_lt (length rest) n) [
        | yes cut ↦ no_frame (cut_payload hdr rest hdr_len cut)
        | no all ↦
            subst (λ t. Parts (hdr ++ t)) (take-append-drop n rest)
              (judge (take n rest) (omega (arith, length-take n rest)))
      ])
    where
      hdr : List ℕ
      hdr = take header_len bytes

      rest : List ℕ
      rest = drop header_len bytes

      hdr_len : length hdr ≡ header_len
      hdr_len = omega (arith, length-take header_len bytes)

      n : ℕ
      n = header_payload_len hdr

      behind : List ℕ
      behind = drop n rest

      judge :
          (payload : List ℕ)
          → length payload ≡ header_payload_len hdr
          → Parts (hdr ++ (payload ++ behind))
      judge payload e = elim (ℕ_discrete (checksum (header_id hdr) payload) (header_checksum hdr)) [
        | yes good ↦
            one_frame hdr payload behind hdr_len (All-take IsByte header_len bytes b) e good (
              k behind (omega (arith, length-drop n rest, length-drop header_len bytes))
                (All-drop IsByte n rest (All-drop IsByte header_len bytes b)))
        | no bad ↦ no_frame (bad_checksum hdr payload behind hdr_len e bad)
      ]

  split_rounds : (fuel : ℕ) (bytes : List ℕ) → length bytes ≤ fuel → All IsByte bytes → Parts bytes
  split_rounds fuel [] e b = no_frame at_end
  split_rounds zero (x ∷ bs) e b = absurd (omega arith)
  split_rounds (suc fuel) (x ∷ bs) e b = elim (dec_lt (length (x ∷ bs)) header_len) [
    | yes short ↦ no_frame (cut_header short)
    | no long ↦
        next_frame (x ∷ bs) (omega arith) b λ rest smaller. split_rounds fuel rest (omega arith)
  ]

  pub split_file : (bytes : List ℕ) → All IsByte bytes → Parts bytes
  split_file bytes b = split_rounds (length bytes) bytes (omega arith) b
