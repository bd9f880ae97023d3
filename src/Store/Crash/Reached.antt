-- ===== src/Store/Crash/Reached.antt =====
-- Opening a store (src/store.rs) after any calls, where the last bytes of its active segment are lost.
use woodshed.Base.{
  ℕ, ◌+◌, ◌<◌, ◌≡◌, refl, sym, ap, subst, ◌∙◌, List, [], ◌∷◌, ◌++◌, append_assoc, length, take, All,
  ok, arith, ==_refl,
}
use woodshed.Base.Dict.{insert, insert-insert, lookup-insert}
use woodshed.Hash.{Hasher}
use woodshed.Yatlv.{Yatlv}
use woodshed.Files.{Disk, magic_len, segment_magic, segment_bytes}
use woodshed.Frame.Cursor
use woodshed.Frame.Format.{Fits}
use woodshed.Frame.Frames.{Frame, frames_size, frames_bytes, length-frames_bytes}
use woodshed.Frame.Partial.{Behind, take_more}
use woodshed.Store.Batch.{Logs, frames_size-append}
use woodshed.State.{SegmentEntry, ManifestOp}
use woodshed.Manifest.Replay.{Carried}
use woodshed.Scan.Segments.{Content, segment_content}
use woodshed.Store.{Store, World}
use woodshed.Store.Open.{open_store}
use woodshed.Store.Create.{creation}
use woodshed.Store.Consistent.{Recorded-same, Consistent}
use woodshed.Store.Keeps.Held.{update, update_self, Held-insert}
use woodshed.Store.Keeps.Write.{active_is_live, active_unsealed, appended}
use woodshed.Store.Log.{log_of, log_of-write}
use woodshed.Store.Calls
use woodshed.Store.Refines.{same_state}
use woodshed.Store.Refines.Runs.{Reach-Implements}
use woodshed.Store.ReadBack.{Reads, Consistent-Reads}
use woodshed.Store.Crash.{crashed, open_store-crashed}

-- The disk where the file of the active segment ends at the offset.
abbrev pub cut_active : ℕ → World → Disk
cut_active offset w = record w.disk {
  segments =
      insert w.store.active_id (take offset (segment_bytes w.disk w.store.active_id))
        w.disk.segments;
}

-- The first of the frames at the end of a file of the size, and so each, ends behind the offset.
abbrev pub EndsBehind : ℕ → ℕ → List Frame → Type 0
EndsBehind offset size [] = Unit
EndsBehind offset size (f ∷ lost) = offset + frames_size lost < size

Behind-EndsBehind :
    (k : ℕ) (kept lost : List Frame) (size : ℕ)
    → size ≡ magic_len + frames_size kept + frames_size lost
    → Behind k kept lost
    → EndsBehind (magic_len + k) size lost
Behind-EndsBehind k kept [] size e b = tt
Behind-EndsBehind k kept (f ∷ lost) size e b = omega arith

log_of-same :
    (f g : Content) (es : List SegmentEntry)
    → ((e : SegmentEntry) → f e.id ≡ g e.id)
    → log_of f es ≡ log_of g es
unfolding log_of
log_of-same f g [] same = refl
log_of-same f g (e ∷ es) same = ground (arith, same e, log_of-same f g es same)

module _ ⦃h : Hasher⦄ ⦃y : Yatlv⦄ (es : List ManifestOp) (content : Content) (w : World)
    (c : Consistent es content w) where
  -- The store and the disk before the frames of the active segment were written.
  abbrev pub bare_world : World
  bare_world = record {
    store = record w.store { active_cursor = Cursor.new magic_len };
    disk = record w.disk {
      segments = insert w.store.active_id (segment_content []) w.disk.segments;
    };
  }

  abbrev pub bare_content : Content
  bare_content = update content w.store.active_id []

  pub bare-Consistent : Consistent es bare_content bare_world
  bare-Consistent = record {
    recorded = Recorded-same es w bare_world refl refl refl refl c.recorded;
    held =
        Held-insert w.store.state w.disk.segments content c.held w.store.active_id []
          (active_is_live es content w c) (active_unsealed es content w c) tt;
    well_formed = c.well_formed;
    apart = c.apart;
    once = c.once;
    last = c.last;
    active = c.active;
    entry = c.entry;
    logs =
        subst (Logs bare_world.store bare_world.disk)
          (sym (update_self content w.store.active_id []))
          (record {
            file = ground (
              arith,
              ==_refl w.store.active_id,
              lookup-insert w.store.active_id w.store.active_id (segment_content [])
                  w.disk.segments,
            );
            at_end = refl;
            empty = refl;
          });
    fenced = c.fenced;
    room = c.room;
  }

  fits : All Fits (content w.store.active_id)
  fits = c.held.fits w.store.active_id (active_is_live es content w c)

  -- The log without the frames of the active segment, and with them.
  log_lem :
      log_of content w.store.state.segments
      ≡ log_of bare_content w.store.state.segments ++ content w.store.active_id
  log_lem =
      log_of-same content
        (appended es bare_content bare_world bare-Consistent (content w.store.active_id))
        w.store.state.segments (λ e. ground (arith, ==_refl w.store.active_id))
      ∙ log_of-write bare_content w.store.active_id (content w.store.active_id)
          w.store.state.segments c.apart c.last

  file_bytes : segment_bytes w.disk w.store.active_id ≡ segment_content (content w.store.active_id)
  file_bytes = ground (arith, c.logs.file)

  cut_lem :
      (k : ℕ)
      → crashed es bare_content bare_world bare-Consistent
          (take k (frames_bytes (content w.store.active_id)))
        ≡ cut_active (magic_len + k) w
  unfolding frames_bytes
  cut_lem k =
      let id = w.store.active_id in
      let part = take k (frames_bytes (content id)) in
      ap (λ l. record w.disk { segments = l })
        (insert-insert id (segment_content (bare_content id) ++ part) (segment_content [])
            w.disk.segments
          ∙ ap (λ b. insert id b w.disk.segments)
              (ap (λ fs. segment_content fs ++ part) (update_self content id [])
                ∙ sym (
                    ap (take (magic_len + k)) file_bytes
                    ∙ take_more (magic_len + k) segment_magic (frames_bytes (content id))
                        (omega arith)
                    ∙ ap (λ m. segment_magic ++ take m (frames_bytes (content id))) (omega arith))))

  -- A cut of the active segment's file loses frames at the end of the log.
  cut-kept :
      (trigger k : ℕ)
      → (kept lost : List Frame) × (log_of content w.store.state.segments ≡ kept ++ lost)
        × EndsBehind (magic_len + k) (length (segment_bytes w.disk w.store.active_id)) lost
        × (s : Store) × (d : Disk) × (open_store trigger (cut_active (magic_len + k) w) ≡ (ok s, d))
        × Reads kept (record { store = s; disk = d })
  cut-kept trigger k =
      let (kept, lost, whole, behind, s, d, run, agrees) =
        open_store-crashed es bare_content bare_world bare-Consistent (content w.store.active_id)
          trigger k fits in
      let front = log_of bare_content w.store.state.segments in
      (
        front ++ kept,
        lost,
        log_lem ∙ ap (λ l. front ++ l) whole ∙ sym (append_assoc front kept lost),
        Behind-EndsBehind k kept lost _
            (omega (
              arith,
              ap length file_bytes,
              length-frames_bytes (content w.store.active_id),
              ap frames_size whole,
              frames_size-append kept lost,
            ))
            behind,
        s,
        d,
        ap (open_store trigger) (sym (cut_lem k)) ∙ run,
        subst (λ l. Reads l (record { store = s; disk = d }))
            (ap (λ t. log_of (appended es bare_content bare_world bare-Consistent kept) t.segments)
                (same_state es w (record { store = s; disk = d }) c.recorded agrees.recorded)
              ∙ log_of-write bare_content w.store.active_id kept w.store.state.segments c.apart
                  c.last)
            (Consistent-Reads es _ (record { store = s; disk = d }) agrees),
      )

module _ ⦃h : Hasher⦄ ⦃y : Yatlv⦄ where
  -- After any allowed calls on a store created in an empty directory, where the first manifest entry
  -- can be carried, opening a disk on which the file of the active segment ends at an offset not
  -- before its first frame, and all else is as it was, succeeds without an approval, and a client that
  -- reads from the start of the first segment reads what it would have read before the cut, the log
  -- that the calls make of the empty log, but for entries at its end, each of which ended behind the
  -- offset.
  pub Reach-cut :
      (calls : List Calls.Call) (w : World) (trigger k : ℕ)
      → Carried creation
      → Calls.Reach calls w
      → (kept lost : List Frame) × Calls.LogReach calls w (kept ++ lost)
        × Reads (kept ++ lost) w
        × EndsBehind (magic_len + k) (length (segment_bytes w.disk w.store.active_id)) lost
        × (s : Store) × (d : Disk) × (open_store trigger (cut_active (magic_len + k) w) ≡ (ok s, d))
        × Reads kept (record { store = s; disk = d })
  Reach-cut calls w trigger k carried r =
      let (es, content, c, reached, _) = Reach-Implements calls w carried r in
      let (kept, lost, whole, behind, s, d, run, reads) = cut-kept es content w c trigger k in
      (
        kept,
        lost,
        subst (Calls.LogReach calls w) whole reached,
        subst (λ l. Reads l w) whole (Consistent-Reads es content w c),
        behind,
        s,
        d,
        run,
        reads,
      )
