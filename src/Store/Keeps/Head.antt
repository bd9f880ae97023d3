-- ===== src/Store/Keeps/Head.antt =====
-- `truncate_start` (src/store.rs), and the agreement of the store with its disk.
use woodshed.Base.{◌≤◌, ◌≡◌, refl, ◌∙◌, List, [], ◌∷◌, ◌++◌, ok, arith, ==_refl}
use woodshed.Hash.{Hasher}
use woodshed.Yatlv.{Yatlv}
use woodshed.State.{EntryId, ManifestOp, Meta, with_meta, truncate_start, is_active}
use woodshed.State.View.{find_segment-kill_all, active-kill_all, Once-kill_all}
use woodshed.Manifest.Replay.{Carried}
use woodshed.Scan.Segments.{Content}
use woodshed.Store.{World, append_entry}
use woodshed.Store.Truncate.{to_evict, truncate_head}
use woodshed.Store.Order.{tip-kill_all}
use woodshed.Store.Head.{
  headed, headed_world, headed-apply, headed-IsWellFormed, active-kept, truncate_head_lem,
}
use woodshed.Store.Survivors.{contains-to_evict}
use woodshed.Store.Consistent.{Recorded-logged, Consistent}
use woodshed.Store.Keeps.Held.{Held-killed, known-kill_all, Apart-kill_all}

module _ ⦃h : Hasher⦄ ⦃y : Yatlv⦄ (es : List ManifestOp) (content : Content) (w : World)
    (c : Consistent es content w) where
  -- Moving the head of a store that agrees with its disk to an entry that is not before the present one,
  -- where an entry of the manifest can carry it, succeeds and keeps them in agreement: the manifest
  -- has that entry too, and every segment holds the frames that it held.
  pub truncate_head-Consistent :
      (first : EntryId) (meta : Meta)
      → w.store.state.first_entry ≤ first
      → Carried (
          with_meta
            (truncate_start first (to_evict w.store.state first w.store.state.segments))
            meta)
      → (x : World) × (truncate_head first meta w ≡ (ok tt, x))
        × Consistent
            (es
              ++ (with_meta
                    (truncate_start first (to_evict w.store.state first w.store.state.segments))
                    meta
                  ∷ []))
            content
            x
  unfolding append_entry is_active
  truncate_head-Consistent first meta le carried =
      let s = w.store.state in
      let ids = to_evict s first s.segments in
      let e = with_meta (truncate_start first ids) meta in
      let t = headed s first meta in
      let r = Recorded-logged es e t w c.recorded carried (headed-apply s first meta le) in
      let kept =
        active-kept s first w.store.active_id c.well_formed
          (ground (arith, c.active, ==_refl w.store.active_id)) in
      (
        headed_world w.store w.disk first meta,
        truncate_head_lem w.store w.disk first meta le,
        record {
          recorded = record {
            there = r.there;
            holds = r.holds;
            cursor = r.cursor;
            carried = r.carried;
            replays = r.replays;
          };
          held =
              Held-killed s w.disk.segments content c.held ids t
                (λ j k. ground (arith, contains-to_evict s first s.segments j)) refl refl
                (λ j info l. l);
          well_formed = headed-IsWellFormed s first meta le c.well_formed;
          apart = Apart-kill_all s ids c.apart;
          once = Once-kill_all s ids c.once;
          last = tip-kill_all s ids w.store.active_id kept c.last;
          active = active-kill_all s ids ∙ c.active;
          entry = find_segment-kill_all s ids w.store.active_id kept ∙ c.entry;
          logs = record { file = c.logs.file; at_end = c.logs.at_end; empty = c.logs.empty };
          fenced = λ j k. c.fenced j (
              known-kill_all s ids j (λ m. ground (arith, contains-to_evict s first s.segments j))
                k);
          room = c.room;
        },
      )
