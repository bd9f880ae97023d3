-- ===== src/Store/Refines.antt =====
-- How the calls on a store (src/store.rs) relate to those on its log.
pub mod Writes
pub mod Others
pub mod Cuts
pub mod Runs
use woodshed.Base.{
  ℕ, ◌+◌, ◌^◌, ◌≤◌, ◌<◌, ◌≡◌, ◌≢◌, ◌⊎◌, inl, inr, refl, sym, ap, subst, ◌∙◌, Bool, Bool-cases, true,
  false, ◌||◌, List, [], ◌∷◌, ◌++◌, append-nil, append_assoc, All, All-append, All-split, none,
  some, Option, Result, Result-cases, ok, err, arith, ◌==◌,
}
use woodshed.Base.Dict.{lookup, contains, Once}
use woodshed.Hash.{Hasher}
use woodshed.Yatlv.{Yatlv}
use woodshed.Files.{Disk, magic_len, segment_magic}
use woodshed.Frame.Format.{Fits}
use woodshed.Frame.Frames.{Frame, frames_bytes}
use woodshed.Frame.Unique.{frames_bytes-injective}
use woodshed.State
use woodshed.State.{
  StoreState, SegmentEntry, SegmentId, EntryId, ManifestOp, Meta, bare, with_meta, metadata,
  is_live, kill_all, apply,
}
use woodshed.Manifest.Replay.{Carried, apply_all}
use woodshed.Scan.Segments.{Content, segment_content}
use woodshed.Store.{Store, World, Failure, roll_entry}
use woodshed.Store.Write.{writer, push_all, write_entries}
use woodshed.Store.Truncate.{
  to_evict, tail_split, nothing_behind, truncate_head, truncate_tail, delete_dead_segments,
  write_metadata,
}
use woodshed.Store.Reader.{Apart}
use woodshed.Store.Create.{creation, blank, open_or_create-Consistent}
use woodshed.Store.Rollover.{sealed, sealed-apply}
use woodshed.Store.Head.{headed, headed-apply}
use woodshed.Store.Tail.{rolled, tail_split-applies}
use woodshed.Store.Cleanup.{delete_dead_segments-Cleaned}
use woodshed.Store.Reopen.{open_store-Consistent}
use woodshed.Store.Order.{tip, ids_of, kill_all-back, Apart-split, tail_split-split}
use woodshed.Store.Consistent.{Recorded, Consistent, apply_all-snoc}
use woodshed.Store.Keeps.Held.{update, update_self}
use woodshed.Store.Keeps.Write.{appended, write_entries-Consistent}
use woodshed.Store.Keeps.Roll.{Consistent-CanRoll, next_unknown, opened}
use woodshed.Store.Keeps.RollWrite.{moved, write_rolled-Consistent}
use woodshed.Store.Keeps.Meta.{
  deletions, described, described-apply, write_metadata-Consistent, delete_dead_segments-Consistent,
}
use woodshed.Store.Keeps.Head.{truncate_head-Consistent}
use woodshed.Store.Keeps.Tail.{truncate_tail-Consistent}
use woodshed.Store.Log.{log_of, log_of-append, log_of-update, log_of-write}
use mathlib.Core.Option.{some-injective}
use woodshed.Store.Tracked.{TrackedAt, Tracked}
use woodshed.Store.Calls

module _ ⦃h : Hasher⦄ ⦃y : Yatlv⦄ where
  -- The call succeeds, keeps the agreement with the disk, does to the log what it promises, and keeps
  -- the last entry ids those of the frames.
  pub record Refined (c : Calls.Call) (content : Content) (w : World) : Type 0 where
    pub world : World
    pub entries : List ManifestOp
    pub frames : Content
    pub runs : Calls.run c w ≡ (true, world)
    pub agrees : Consistent entries frames world
    pub step : Calls.LogStep c w content (log_of frames world.store.state.segments)
    pub tracked : Tracked content w → Tracked frames world

  -- The manifest knows the state.
  pub same_state :
      (es : List ManifestOp) (w x : World)
      → Recorded es w
      → Recorded es x
      → x.store.state ≡ w.store.state
  same_state es w x r q = ground (arith, r.replays, q.replays)

  pub next_state :
      (es : List ManifestOp) (e : ManifestOp) (t : StoreState) (w x : World)
      → Recorded es w
      → apply w.store.state e ≡ ok t
      → Recorded (es ++ (e ∷ [])) x
      → x.store.state ≡ t
  next_state es e t w x r a q =
      ground (arith, q.replays, apply_all-snoc es e State.empty w.store.state t r.replays a)

  -- What is known of the state and the last entry.
  pub tracked_at :
      (es : List ManifestOp) (frames : Content) (x : World) (t : StoreState) (id : SegmentId)
      (last : Option EntryId)
      → Consistent es frames x
      → x.store.state ≡ t
      → t.active_segment_id ≡ some id
      → x.store.last_entry_id ≡ last
      → TrackedAt frames t id last
      → Tracked frames x
  tracked_at es frames x t id last agrees same active is_last k =
      let same_id : x.store.active_id ≡ id =
        some-injective _ _ (sym agrees.active ∙ ap (λ s. s.active_segment_id) same ∙ active) in
      subst (λ s. TrackedAt frames s x.store.active_id x.store.last_entry_id) (sym same)
        (subst (λ i. TrackedAt frames t i x.store.last_entry_id) (sym same_id)
          (subst (TrackedAt frames t id) (sym is_last) k))

  module _ (es : List ManifestOp) (content : Content) (w : World)
      (c : Consistent es content w) where
    -- The log is read off the state.
    pub at_state :
        (call : Calls.Call) (frames : Content) (x : World) (t : StoreState)
        → x.store.state ≡ t
        → Calls.LogStep call w content (log_of frames t.segments)
        → Calls.LogStep call w content (log_of frames x.store.state.segments)
    at_state call frames x t e =
        subst (λ s. Calls.LogStep call w content (log_of frames s.segments)) (sym e)
