-- ===== src/Store/Consistent.antt =====
-- When a store and its disk (src/store.rs) agree.
use woodshed.Base.{
  ℕ, ◌+◌, ◌^◌, ◌<◌, ◌≡◌, refl, sym, ap, ◌∙◌, true, ◌||◌, List, [], ◌∷◌, ◌++◌, append-nil, map,
  length, length-append, All, All-append, some, ok, Result-cases, inl, inr, arith,
}
use woodshed.Base.Dict.{contains, Once}
use woodshed.Hash.{Hasher}
use woodshed.Yatlv.{Yatlv}
use woodshed.File.{write_all_at, write_all_at-end}
use woodshed.Files.{manifest_magic}
use woodshed.Frame.Format.{frame_bytes}
use woodshed.Frame.Cursor
use woodshed.Frame.Cursor.{FrameCursor, write, flush}
use woodshed.Frame.Frames.{frames_bytes, length-frames_bytes}
use woodshed.State.{StoreState, SegmentId, ManifestOp, empty, is_live, find_segment, apply}
use woodshed.State.Codec.{encode}
use woodshed.State.Invariant.{IsWellFormed}
use woodshed.Manifest.Replay.{op_frame, Carried, apply_all, manifest_file, manifest_size}
use woodshed.Manifest.Held.{Holds}
use woodshed.Scan.Segments.{Content, Held}
use woodshed.Store.{World, append_entry}
use woodshed.Store.Logged.{logged}
use woodshed.Store.Batch.{Logs, frames_bytes-append}
use woodshed.Store.Order.{tip}
use woodshed.Store.Reader.{Apart}

module _ ⦃h : Hasher⦄ ⦃y : Yatlv⦄ where
  -- The manifest's file holds operations that lead to the store's state, and its cursor is at the end.
  pub record Recorded (es : List ManifestOp) (w : World) : Type 0 where
    pub there : w.disk.exists ≡ true
    pub holds : Holds w.disk es []
    pub cursor : w.store.manifest_cursor ≡ Cursor.new (manifest_size es)
    pub carried : All Carried es
    pub replays : apply_all empty es ≡ ok w.store.state

  -- Nothing of the manifest or the state changes.
  pub Recorded-same :
      (es : List ManifestOp) (w x : World)
      → x.disk.exists ≡ w.disk.exists
      → x.disk.manifest ≡ w.disk.manifest
      → x.store.manifest_cursor ≡ w.store.manifest_cursor
      → x.store.state ≡ w.store.state
      → Recorded es w
      → Recorded es x
  Recorded-same es w x there manifest cursor state r = record {
    there = there ∙ r.there;
    holds = manifest ∙ r.holds;
    cursor = cursor ∙ r.cursor;
    carried = r.carried;
    replays = r.replays ∙ ap ok (sym state);
  }

  map_append {ℓ} :
      {A B : Type ℓ} (f : A → B) (xs ys : List A) → map f (xs ++ ys) ≡ map f xs ++ map f ys
  map_append f [] ys = refl
  map_append f (x ∷ xs) ys = ap (λ t. f x ∷ t) (map_append f xs ys)

  pub apply_all-snoc :
      (es : List ManifestOp) (e : ManifestOp) (s t u : StoreState)
      → apply_all s es ≡ ok t
      → apply t e ≡ ok u
      → apply_all s (es ++ (e ∷ [])) ≡ ok u
  apply_all-snoc [] e s t u h a = ground arith
  apply_all-snoc (x ∷ es) e s t u h a = elim (Result-cases (apply s x)) [
    | inl (s', step) ↦ ground (arith, apply_all-snoc es e s' t u)
    | inr (bad, step) ↦ absurd (ground arith)
  ]

  -- The bytes of the operations' frames.
  abbrev op_bytes : List ManifestOp → List ℕ
  op_bytes es = frames_bytes (map op_frame es)

  op_bytes-snoc :
      (es : List ManifestOp) (e : ManifestOp)
      → op_bytes (es ++ (e ∷ [])) ≡ op_bytes es ++ frame_bytes 0 (encode e)
  unfolding frames_bytes
  op_bytes-snoc es e =
      ap frames_bytes (map_append op_frame es (e ∷ []))
      ∙ frames_bytes-append (map op_frame es) (op_frame e ∷ [])
      ∙ ap (λ b. op_bytes es ++ b) (append-nil (frame_bytes 0 (encode e)))

  manifest_size-snoc :
      (es : List ManifestOp) (e : ManifestOp)
      → manifest_size es + length (frame_bytes 0 (encode e)) ≡ manifest_size (es ++ (e ∷ []))
  manifest_size-snoc es e = omega (
    arith,
    ap length (op_bytes-snoc es e),
    length-append (op_bytes es) (frame_bytes 0 (encode e)),
    length-frames_bytes (map op_frame es),
    length-frames_bytes (map op_frame (es ++ (e ∷ []))),
  )

  pub manifest_file-snoc :
      (es : List ManifestOp) (e : ManifestOp)
      → write_all_at ((manifest_file es []).content) (frame_bytes 0 (encode e)) (manifest_size es)
        ≡ (manifest_file (es ++ (e ∷ [])) []).content
  manifest_file-snoc es e =
      write_all_at-end ((manifest_file es []).content) (frame_bytes 0 (encode e)) (manifest_size es)
        (omega (arith, length-append (op_bytes es) [], length-frames_bytes (map op_frame es)))
      ∙ ap (λ b. manifest_magic ++ (b ++ frame_bytes 0 (encode e))) (append-nil (op_bytes es))
      ∙ ap (λ b. manifest_magic ++ b)
          (sym (op_bytes-snoc es e) ∙ sym (append-nil (op_bytes (es ++ (e ∷ [])))))

  -- Writing an entry and applying it keeps them together.
  pub Recorded-logged :
      (es : List ManifestOp) (e : ManifestOp) (t : StoreState) (w : World)
      → Recorded es w
      → Carried e
      → apply w.store.state e ≡ ok t
      → Recorded (es ++ (e ∷ [])) (logged e t w)
  unfolding append_entry write flush
  Recorded-logged es e t w r c a = record {
    there = r.there;
    holds = ground (arith, r.holds, r.cursor, manifest_file-snoc es e);
    cursor = ground (arith, r.cursor, manifest_size-snoc es e);
    carried = All-append Carried es (e ∷ []) r.carried (c, tt);
    replays = apply_all-snoc es e empty w.store.state t r.replays a;
  }

  -- The store and its disk agree: the manifest's operations lead to the store's state, the segments'
  -- files hold the frames `content`, the active segment is the state's with the cursor at its end and
  -- no frame waiting, no id stands twice, and the next id is behind all that are known.
  pub record Consistent (es : List ManifestOp) (content : Content) (w : World) : Type 0 where
    pub recorded : Recorded es w
    pub held : Held w.store.state w.disk.segments content
    pub well_formed : IsWellFormed w.store.state
    pub apart : Apart w.store.state.segments
    pub once : Once w.store.state.dead
    pub last : tip w.store.state.segments ≡ some w.store.active_id
    pub active : w.store.state.active_segment_id ≡ some w.store.active_id
    pub entry :
        find_segment w.store.active_id w.store.state.segments
        ≡ some (record { id = w.store.active_id; first_entry = w.store.active_first_entry })
    pub logs : Logs w.store w.disk (content w.store.active_id)
    pub fenced :
        (j : SegmentId)
        → (is_live j w.store.state.segments || contains j w.store.state.dead) ≡ true
        → j < w.store.next_seg_id
    pub room : w.store.next_seg_id < 2 ^ 32
