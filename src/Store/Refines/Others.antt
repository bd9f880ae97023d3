-- ===== src/Store/Refines/Others.antt =====
-- The calls of a store (src/store.rs) that write no frame.
use woodshed.Base.{ℕ, ◌≡◌, refl, sym, ap, ◌∙◌, List, [], ◌∷◌, ◌++◌}
use woodshed.Hash.{Hasher}
use woodshed.Yatlv.{Yatlv}
use woodshed.State
use woodshed.State.{
  StoreState, SegmentEntry, SegmentId, EntryId, ManifestOp, Meta, bare, with_meta, metadata,
  is_live, kill_all, apply,
}
use woodshed.Scan.Segments.{Content}
use woodshed.Store.{World}
use woodshed.Store.Truncate.{to_evict, write_metadata}
use woodshed.State.View.{active-kill_all}
use woodshed.Store.Head.{headed, headed-apply}
use woodshed.Store.Cleanup.{delete_dead_segments-Cleaned}
use woodshed.Store.Reopen.{open_store-Consistent}
use woodshed.Store.Consistent.{Consistent}
use woodshed.Store.Keeps.Meta.{
  deletions, described, described-apply, write_metadata-Consistent, delete_dead_segments-Consistent,
}
use woodshed.Store.Keeps.Head.{truncate_head-Consistent}
use woodshed.Store.Survivors.{kill_all-Survivors}
use woodshed.Store.{append_entry}
use woodshed.Store.Head.{truncate_head_lem}
use woodshed.Store.Logged.{log_entry-logged}
use woodshed.Store.Reopen.{open_store_lem}
use woodshed.Store.Tracked.{TrackedAt-killed, TrackedAt-fewer, last-reopened}
use woodshed.Store.Calls
use woodshed.Store.Refines.{Refined, next_state, tracked_at, at_state}

module _ ⦃h : Hasher⦄ ⦃y : Yatlv⦄ (es : List ManifestOp) (content : Content) (w : World)
    (c : Consistent es content w) where
  pub head-Refined :
      (first : EntryId) (meta : Meta)
      → Calls.Allowed (Calls.truncate_start first meta) w
      → Refined (Calls.truncate_start first meta) content w
  unfolding Calls.run
  head-Refined first meta (le, carried) =
      let s = w.store.state in
      let ids = to_evict s first s.segments in
      let e = with_meta (State.truncate_start first ids) meta in
      let (x, run, agrees) = truncate_head-Consistent es content w c first meta le carried in
      record {
        world = x;
        entries = es ++ (e ∷ []);
        frames = content;
        runs = ap Calls.outcome run;
        agrees = agrees;
        step =
            at_state es content w c (Calls.truncate_start first meta) content x
              (headed s first meta)
              (next_state es e (headed s first meta) w x c.recorded (headed-apply s first meta le)
                agrees.recorded)
              ((kill_all s ids).segments, kill_all-Survivors s first, refl);
        tracked = λ k.
            tracked_at (es ++ (e ∷ [])) content x (headed s first meta) w.store.active_id
              w.store.last_entry_id agrees
              (next_state es e (headed s first meta) w x c.recorded (headed-apply s first meta le)
                agrees.recorded)
              (active-kill_all s ids ∙ c.active)
              (unfold append_entry in
                ap (λ r. r.1.store.last_entry_id)
                  (sym run ∙ truncate_head_lem w.store w.disk first meta le))
              (TrackedAt-killed content s w.store.active_id w.store.last_entry_id ids _ k refl);
      }

  pub describe-Refined :
      (pairs : Meta)
      → Calls.Allowed (Calls.describe pairs) w
      → Refined (Calls.describe pairs) content w
  unfolding Calls.run
  describe-Refined pairs carried =
      let e = with_meta metadata pairs in
      let (x, run, agrees) = write_metadata-Consistent content es w pairs c carried in
      record {
        world = x;
        entries = es ++ (e ∷ []);
        frames = content;
        runs = ap Calls.outcome run;
        agrees = agrees;
        step =
            at_state es content w c (Calls.describe pairs) content x (described w.store.state pairs)
              (next_state es e (described w.store.state pairs) w x c.recorded
                (described-apply w.store.state pairs) agrees.recorded)
              refl;
        tracked = λ k.
            tracked_at (es ++ (e ∷ [])) content x (described w.store.state pairs) w.store.active_id
              w.store.last_entry_id agrees
              (next_state es e (described w.store.state pairs) w x c.recorded
                (described-apply w.store.state pairs) agrees.recorded)
              c.active
              (unfold write_metadata append_entry in
                ap (λ r. r.1.store.last_entry_id)
                  (sym run
                    ∙ log_entry-logged e (described w.store.state pairs) w
                        (described-apply w.store.state pairs)))
              (TrackedAt-fewer content w.store.state w.store.active_id w.store.last_entry_id k _
                (λ j info f. f) (λ n. n));
      }

  pub delete-Refined : Calls.Allowed Calls.delete_dead w → Refined Calls.delete_dead content w
  unfolding Calls.run
  delete-Refined carried =
      let (x, run, agrees, _) = delete_dead_segments-Consistent content es w c carried in
      let (x', run', cleaned) = delete_dead_segments-Cleaned w c.once in
      let same : x ≡ x' = ap (λ r. r.1) (sym run ∙ run') in
      record {
        world = x;
        entries = es ++ deletions w.store.state.dead;
        frames = content;
        runs = ap Calls.outcome run;
        agrees = agrees;
        step =
            at_state es content w c Calls.delete_dead content x (record w.store.state { dead = [] })
              (ap (λ x. x.store.state) same ∙ cleaned.state) refl;
        tracked = λ k.
            tracked_at (es ++ deletions w.store.state.dead) content x
              (record w.store.state { dead = [] }) w.store.active_id w.store.last_entry_id agrees
              (ap (λ x. x.store.state) same ∙ cleaned.state) c.active
              (ap (λ x. x.store.last_entry_id) same ∙ cleaned.last)
              (TrackedAt-fewer content w.store.state w.store.active_id w.store.last_entry_id k _
                (λ j info f. f) (λ n. n));
      }

  pub reopen-Refined : (trigger : ℕ) → Refined (Calls.reopen trigger) content w
  unfolding Calls.run
  reopen-Refined trigger =
      let (s, run, agrees, same, _, _, _, _) = open_store-Consistent trigger es content w c in
      record {
        world = record { store = s; disk = w.disk };
        entries = es;
        frames = content;
        runs = ap (Calls.reopened_world w.store) run;
        agrees = agrees;
        step =
            at_state es content w c (Calls.reopen trigger) content
              (record { store = s; disk = w.disk }) w.store.state same refl;
        tracked = λ k.
            tracked_at es content (record { store = s; disk = w.disk }) w.store.state
              w.store.active_id w.store.last_entry_id agrees same c.active
              (ap (λ r. (Calls.reopened_world w.store r).1.store.last_entry_id)
                  (sym run ∙ open_store_lem trigger es content w c)
                ∙ last-reopened content w.store.state w.store.active_id w.store.last_entry_id _ _ k
                    refl)
              k;
      }
