-- ===== src/Store/Refines/Runs.antt =====
-- Any calls that a client makes on a store (src/store.rs).
use woodshed.Base.{ℕ, ◌≡◌, refl, sym, ap, subst, ◌∙◌, true, List, [], ◌∷◌, ok}
use woodshed.Hash.{Hasher}
use woodshed.Yatlv.{Yatlv}
use woodshed.Files.{Disk}
use woodshed.State.{SegmentEntry, ManifestOp}
use woodshed.Manifest.Replay.{Carried}
use woodshed.Scan.Segments.{Content}
use woodshed.Store.{Store, World}
use woodshed.Store.Open.{open_or_create}
use woodshed.Store.Create.{
  vacant, creation, created, blank, created_disk, new_store, new_store-Consistent,
  open_or_create_lem,
}
use woodshed.Store.Reopen.{reopened, reopened-Consistent}
use woodshed.Store.Open.{first_seal}
use woodshed.Store.Tracked.{Tracked}
use woodshed.Base.{arith}
use woodshed.Base.Dict.{lookup}
use woodshed.Store.Consistent.{Consistent}
use woodshed.Store.Log.{log_of}
use woodshed.Store.Calls
use woodshed.Store.Refines.{Refined}
use woodshed.Store.Refines.Writes.{write-Refined}
use woodshed.Store.Refines.Others.{head-Refined, describe-Refined, delete-Refined, reopen-Refined}
use woodshed.Store.Refines.Cuts.{tail-Refined}

module _ ⦃h : Hasher⦄ ⦃y : Yatlv⦄ where
  -- Any allowed call on a store that agrees with its disk succeeds, leaves one that agrees with its
  -- disk, and does to the log of the live segments' frames what it promises: a write adds its batch
  -- behind; `truncate_start` drops the frames of just the segments whose seal has a last entry before
  -- the new head; `truncate_end` drops what stands behind its entry where the store's last entry is
  -- behind that, and nothing where it is not; the others leave the log as it is. Where the last entry
  -- ids of the store and of its seals are those of the frames, they stay so. A call is allowed where
  -- its frames and manifest entries can be carried, a rollover has an id left, the head does not move
  -- back, and a `truncate_end` that drops something is for an entry in the file of its segment, where
  -- the nearest checkpoint of the index is none of that segment or at the file's first frame.
  pub run-Refined :
      (call : Calls.Call) (es : List ManifestOp) (content : Content) (w : World)
      → Consistent es content w
      → Calls.Allowed call w
      → Refined call content w
  run-Refined (Calls.write batch) es content w c a = write-Refined es content w c batch a
  run-Refined (Calls.truncate_start first meta) es content w c a =
      head-Refined es content w c first meta a
  run-Refined (Calls.truncate_end v) es content w c a = tail-Refined es content w c v a
  run-Refined Calls.delete_dead es content w c a = delete-Refined es content w c a
  run-Refined (Calls.describe pairs) es content w c a = describe-Refined es content w c pairs a
  run-Refined (Calls.reopen trigger) es content w c a = reopen-Refined es content w c trigger

  -- What `Reach-Implements` says of a world.
  abbrev pub Implements : List Calls.Call → World → Type 0
  Implements calls w =
      (es : List ManifestOp) × (content : Content) × Consistent es content w
      × Calls.LogReach calls w (log_of content w.store.state.segments)
      × Tracked content w

  log_of-blank : (segs : List SegmentEntry) → log_of blank segs ≡ []
  unfolding log_of
  log_of-blank [] = refl
  log_of-blank (e ∷ es) = log_of-blank es

  created-Implements :
      (trigger : ℕ) (s : Store) (d : Disk)
      → Carried creation
      → open_or_create trigger vacant ≡ (ok s, d)
      → Implements [] (record { store = s; disk = d })
  unfolding lookup first_seal
  created-Implements trigger s d carried run =
      let w : World = record { store = new_store; disk = created_disk } in
      let c = new_store-Consistent carried in
      let made = open_or_create_lem trigger carried in
      subst (Implements []) (ap (λ r. (Calls.reopened_world s r).1) (sym made ∙ run)) (
        creation ∷ [],
        blank,
        reopened-Consistent trigger (creation ∷ []) blank w c,
        subst
            (Calls.LogReach []
              (record { store = reopened trigger (creation ∷ []) blank w c; disk = created_disk }))
            (sym (log_of-blank created.segments)) (Calls.start trigger made),
        record { is_last = refl; seals = λ j info e. absurd (ground arith); unsealed = λ e. refl },
      )

  called-Implements :
      (calls : List Calls.Call) (call : Calls.Call) (w x : World)
      → Implements calls w
      → Calls.Allowed call w
      → Calls.run call w ≡ (true, x)
      → Implements (call ∷ calls) x
  called-Implements calls call w x (es, content, c, l, k) a run =
      let next = run-Refined call es content w c a in
      subst (Implements (call ∷ calls)) (ap (λ r. r.1) (sym next.runs ∙ run)) (
        next.entries,
        next.frames,
        next.agrees,
        Calls.later call content l c.held next.runs next.step,
        next.tracked k,
      )

  -- Every world that allowed calls reach from a store created in an empty directory, where the first
  -- manifest entry can be carried, agrees with its disk, and its log is what the calls make, one after
  -- the other, of the empty log: each takes the frames in the live segments' files of the world before
  -- it to those of the world behind it as `LogStep` says. The store's last entry id is that of the
  -- active segment's last frame, or none where it has none; a seal's is that of its segment's last
  -- frame, or the segment's first id; and no segment is sealed while the active one is empty.
  pub Reach-Implements :
      (calls : List Calls.Call) (w : World)
      → Carried creation
      → Calls.Reach calls w
      → Implements calls w
  Reach-Implements calls w carried (Calls.created {s} {d} trigger run) =
      created-Implements trigger s d carried run
  Reach-Implements calls w carried (Calls.called {cs} {w = u} {x} call r a run) =
      called-Implements cs call u x (Reach-Implements cs u carried r) a run
