-- ===== src/Manifest/Replay.antt =====
-- Replaying a manifest (src/manifest.rs) that `write_op` wrote.
use woodshed.Base.{
  ℕ, suc, ◌+◌, ◌-◌, ◌^◌, ◌<◌, ◌≡◌, ap, ◌∙◌, List, [], ◌∷◌, ◌++◌, some, arith, length, All, map,
  Result, ok, err, Result-cases, inl, inr, ◌==◌, if◌then◌else◌,
}
use native.Mathlib.Nat.{add_assoc}
use woodshed.Hash.{Hasher}
use woodshed.Yatlv.{Yatlv}
use woodshed.Frame.Format.{header_len, header_id, header_payload_len, frame_bytes}
use woodshed.Frame.Scanner.{
  FrameScanner, FrameReader, ReadError, unexpected_eof, read_to_end, drop_reader,
}
use woodshed.Frame.Scanner.Step.{at}
use woodshed.Frame.Frames.{
  Frame, frame_size, frames_size, frames_bytes, frames_bytes-cons, more, more_enough,
}
use woodshed.File.{File}
use woodshed.Files.{manifest_magic, magic_len}
use woodshed.Frame.Payload.{
  reading, read-frame, read_end, read_short, read_header_lem, read_to_end_lem, read_to_end_cut,
}
use woodshed.State.{StoreState, ManifestOp, ApplyError, empty, apply}
use woodshed.State.Codec.{encode, fields}
use woodshed.State.Codec.RoundTrip.{FitsEntry, decode-encode}
use woodshed.Manifest.{io, Run, replay_payload, replay_step, replay_loop, replay}

module _ ⦃h : Hasher⦄ ⦃y : Yatlv⦄ where
  -- The manifest frame of an operation.
  abbrev pub op_frame : ManifestOp → Frame
  op_frame e = (0, encode e)

  -- An operation that the codec and the frame format can carry.
  abbrev pub Carried : ManifestOp → Type 0
  Carried e = FitsEntry e × (length (encode e) < 2 ^ 32)

  -- The operations one after the other.
  abbrev pub apply_all : StoreState → List ManifestOp → Result ApplyError StoreState
  apply_all s [] = ok s
  apply_all s (e ∷ es) = elim (apply s e) [ err x ↦ err x | ok s' ↦ apply_all s' es ]

  replay_payload_err :
      (state : StoreState) (pos : ℕ) (x : Result ReadError (List ℕ) × FrameReader)
      (next : StoreState → ℕ → FrameScanner → Run)
      → x.0 ≡ err unexpected_eof
      → replay_payload state pos x next ≡ some (err io)
  unfolding replay_payload
  replay_payload_err state pos (r, rd) next e = ground arith

  replay_payload_ok :
      (state state' : StoreState) (pos : ℕ) (e : ManifestOp)
      (x : Result ReadError (List ℕ) × FrameReader) (next : StoreState → ℕ → FrameScanner → Run)
      → Carried e
      → apply state e ≡ ok state'
      → x.0 ≡ ok (encode e)
      → replay_payload state pos x next ≡ next state' (drop_reader x.1).position (drop_reader x.1)
  unfolding replay_payload
  replay_payload_ok state state' pos e (r, rd) next c applied is_read =
      ground (arith, decode-encode e c.0 c.1)

  -- One round on the frame of an operation that applies.
  replay_loop-op :
      (k : ℕ) (state state' : StoreState) (off pos : ℕ) (e : ManifestOp) (rest : List ℕ)
      → Carried e
      → apply state e ≡ ok state'
      → replay_loop (suc k) state off (at (frame_bytes 0 (encode e) ++ rest) pos)
        ≡ replay_loop k state'
            (pos + frame_size (op_frame e))
            (at rest (pos + frame_size (op_frame e)))
  unfolding replay_loop
  replay_loop-op k state state' off pos e rest c applied =
      ap (λ r. replay_step state off r (replay_loop k))
        (read-frame 0 (encode e) rest pos (omega arith, c.1))
      ∙ replay_payload_ok state state' pos e x (replay_loop k) c applied done.0
      ∙ ap (λ s. replay_loop k state' s.position s)
          (done.1 ∙ ap (at rest) (behind (encode e) (encode_size e)))
    where
      x : Result ReadError (List ℕ) × FrameReader
      x = read_to_end (reading 0 (length (encode e)) pos (encode e ++ rest))

      done :
          (x.0 ≡ ok (encode e))
          × (drop_reader x.1
              ≡ at rest (if length (encode e) == 0 then pos else pos + frame_size (op_frame e)))
      done = read_to_end_lem 0 pos (encode e) rest

      behind :
          (bs : List ℕ)
          → 0 < length bs
          → (if length bs == 0 then pos else pos + frame_size (0, bs)) ≡ pos + frame_size (0, bs)
      behind bs pos = ground arith

      encode_size : (e : ManifestOp) → 0 < length (encode e)
      encode_size e = unfold encode in y.length-build (fields e)

  replay_loop-ops :
      (es : List ManifestOp) (k : ℕ) (s t : StoreState) (pos : ℕ) (tail : List ℕ)
      → All Carried es
      → apply_all s es ≡ ok t
      → replay_loop
          (more (map op_frame es) k)
          s
          pos
          (at (frames_bytes (map op_frame es) ++ tail) pos)
        ≡ replay_loop k t
            (pos + frames_size (map op_frame es))
            (at tail (pos + frames_size (map op_frame es)))
  replay_loop-ops [] k s t pos tail c e = unfold frames_bytes in ground arith
  replay_loop-ops (x ∷ es) k s t pos tail (cx, c) e = elim (Result-cases (apply s x)) [
    | inr (bad, a) ↦ absurd (refused bad a)
    | inl (s', a) ↦
        ap (λ b. replay_loop (suc (more (map op_frame es) k)) s pos (at b pos))
          (frames_bytes-cons 0 (encode x) (map op_frame es) tail)
        ∙ replay_loop-op (more (map op_frame es) k) s s' pos pos x _ cx a
        ∙ replay_loop-ops es k s' t (pos + frame_size (op_frame x)) tail c (rest s' a)
        ∙ ap (λ n. replay_loop k t n (at tail n))
            (add_assoc pos (frame_size (op_frame x)) (frames_size (map op_frame es)))
  ]
    where
      refused : (bad : ApplyError) → apply s x ≡ err bad → ⊥
      refused bad a = ground arith

      rest : (s' : StoreState) → apply s x ≡ ok s' → apply_all s' es ≡ ok t
      rest s' a = ground arith

  -- A manifest file: the magic, the frames of the operations, and what stands behind them.
  abbrev pub manifest_file : List ManifestOp → List ℕ → File
  manifest_file es tail = record {
    content = manifest_magic ++ (frames_bytes (map op_frame es) ++ tail);
    cursor = magic_len;
  }

  abbrev pub manifest_size : List ManifestOp → ℕ
  manifest_size es = magic_len + frames_size (map op_frame es)

  replay-ops :
      (es : List ManifestOp) (t : StoreState) (tail : List ℕ)
      → All Carried es
      → apply_all empty es ≡ ok t
      → (k : ℕ) × (replay (manifest_file es tail) magic_len
          ≡ replay_loop (suc k) t (manifest_size es) (at tail (manifest_size es)))
  unfolding replay
  replay-ops es t tail c e = (
    suc (length (frames_bytes (map op_frame es) ++ tail) - length (map op_frame es)),
    ap (λ n. replay_loop n empty magic_len (at (frames_bytes (map op_frame es) ++ tail) magic_len))
          (more_enough (map op_frame es) tail)
        ∙ replay_loop-ops es _ empty t magic_len tail c e,
  )

  -- Replaying a manifest of operations that the codec and the frames can carry, and that apply
  -- one after the other to the empty state, gives the state that they lead to and the offset
  -- behind the last one.
  pub replay-written :
      (es : List ManifestOp) (t : StoreState)
      → All Carried es
      → apply_all empty es ≡ ok t
      → replay (manifest_file es []) magic_len
        ≡ some (ok (record { state = t; next_offset = manifest_size es }))
  replay-written es t c e =
      let (k, left) = replay-ops es t [] c e in
      left
      ∙ (unfold replay_loop in
          ap (λ r. replay_step t (manifest_size es) r (replay_loop k))
            (read_end (manifest_size es)))

  -- So it does where a part of a header stands behind them.
  pub replay-cut_header :
      (es : List ManifestOp) (t : StoreState) (b : ℕ) (bs : List ℕ)
      → All Carried es
      → apply_all empty es ≡ ok t
      → length (b ∷ bs) < header_len
      → replay (manifest_file es (b ∷ bs)) magic_len
        ≡ some (ok (record { state = t; next_offset = manifest_size es }))
  replay-cut_header es t b bs c e short =
      let (k, left) = replay-ops es t (b ∷ bs) c e in
      left
      ∙ (unfold replay_loop in
          ap (λ r. replay_step t (manifest_size es) r (replay_loop k))
            (read_short b bs (manifest_size es) short))

  -- Where a whole header stands behind them and its payload is cut, the replay fails.
  pub replay-cut_payload :
      (es : List ManifestOp) (t : StoreState) (hdr part : List ℕ)
      → All Carried es
      → apply_all empty es ≡ ok t
      → length hdr ≡ header_len
      → length part < header_payload_len hdr
      → replay (manifest_file es (hdr ++ part)) magic_len ≡ some (err io)
  unfolding replay_loop
  replay-cut_payload es t hdr part c e whole cut =
      let (k, left) = replay-ops es t (hdr ++ part) c e in
      left
      ∙ ap (λ r. replay_step t (manifest_size es) r (replay_loop k))
          (read_header_lem hdr part (manifest_size es) whole)
      ∙ replay_payload_err t (manifest_size es) _ (replay_loop k)
          (read_to_end_cut (header_id hdr) (manifest_size es) (header_payload_len hdr) part cut)
