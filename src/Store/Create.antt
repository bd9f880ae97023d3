-- ===== src/Store/Create.antt =====
-- `Store::open_or_create` (src/store.rs) in an empty directory.
use woodshed.Base.{ℕ, ◌≡◌, refl, ap, true, false, [], ◌∷◌, none, some, ok, arith}
use woodshed.Base.Dict
use woodshed.Base.Dict.{lookup, contains}
use woodshed.Hash.{Hasher}
use woodshed.Yatlv.{Yatlv}
use woodshed.Files
use woodshed.Files.{Disk, magic_len, segment_magic, manifest_magic}
use woodshed.Frame.Cursor
use woodshed.Frame.Frames.{frames_bytes}
use woodshed.Index
use woodshed.State
use woodshed.State.{
  StoreState, SegmentId, ManifestOp, bare, create_segment, empty, is_live, is_active, apply,
}
use woodshed.State.Invariant.{IsWellFormed, empty-IsWellFormed, apply-IsWellFormed}
use woodshed.Manifest.Replay.{Carried, manifest_file, manifest_size}
use woodshed.Scan.Segments.{Content}
use woodshed.Store.{Store}
use woodshed.Store.Order
use woodshed.Store.Consistent.{Consistent, manifest_file-snoc}
use woodshed.Store.Open.{create_store, opened_after, open_or_create}
use woodshed.Store.Reopen.{reopened, open_store_lem, open_store-Consistent}

-- The first operation of a store, and the state that it leads to.
abbrev pub creation : ManifestOp
creation = bare (create_segment 1 0)

abbrev pub created : StoreState
created = record empty {
  segments = record { id = 1; first_entry = 0 } ∷ [];
  active_segment_id = some 1;
}

creation-apply : apply empty creation ≡ ok created
unfolding apply State.apply_op State.apply_create State.is_empty State.set_all
creation-apply = refl

created-IsWellFormed : IsWellFormed created
unfolding contains
created-IsWellFormed =
    apply-IsWellFormed empty created creation empty-IsWellFormed refl creation-apply

-- No frame in any segment.
abbrev pub blank : Content
blank j = []

-- A directory without a file.
abbrev pub vacant : Disk
vacant = record { exists = true; manifest = none; segments = [] }

module _ ⦃h : Hasher⦄ ⦃y : Yatlv⦄ where
  abbrev pub created_disk : Disk
  created_disk = record {
    exists = true;
    manifest = some ((manifest_file (creation ∷ []) []).content);
    segments = (1, segment_magic) ∷ [];
  }

  -- A store that agrees with that disk.
  abbrev pub new_store : Store
  new_store = record {
    rollover_trigger_bytes = 0;
    state = created;
    index = Index.new;
    manifest_cursor = Cursor.new (manifest_size (creation ∷ []));
    segments = [];
    active_id = 1;
    active_cursor = Cursor.new magic_len;
    active_first_entry = 0;
    active_entry_count = 0;
    last_entry_id = none;
    next_seg_id = 2;
    rollover_pending = false;
  }

  create_store_lem : create_store vacant ≡ (ok tt, created_disk)
  unfolding frames_bytes create_store Files.create_manifest Files.create_segment Files.put_manifest
      Cursor.write Cursor.flush lookup Dict.insert Dict.remove
  create_store_lem =
      ap (λ m. (ok tt, record created_disk { manifest = some m })) (manifest_file-snoc [] creation)

  pub new_store-Consistent :
      Carried creation
      → Consistent (creation ∷ []) blank (record { store = new_store; disk = created_disk })
  unfolding frames_bytes lookup is_live contains State.find_segment Order.tip
  new_store-Consistent c = record {
    recorded = record {
      there = refl;
      holds = refl;
      cursor = refl;
      carried = (c, tt);
      replays = ground (arith, creation-apply);
    };
    held = record {
      files = λ j l. ground arith;
      fits = λ j l. tt;
      sizes = λ j info e. absurd (ground arith);
      dead_there = λ j c. absurd (ground arith);
      known = λ j k. ground arith;
    };
    well_formed = created-IsWellFormed;
    apart = (refl, tt);
    once = tt;
    last = refl;
    active = refl;
    entry = refl;
    logs = record { file = refl; at_end = refl; empty = refl };
    fenced = λ j k. ground arith;
    room = omega arith;
  }

  pub open_or_create_lem :
      (trigger : ℕ) (c : Carried creation)
      → open_or_create trigger vacant ≡ (
        ok (
            reopened trigger
              (creation ∷ [])
              blank
              (record { store = new_store; disk = created_disk })
              (new_store-Consistent c)),
        created_disk,
      )
  unfolding open_or_create opened_after Files.manifest_exists
  open_or_create_lem trigger c = ground (
    arith,
    create_store_lem,
    open_store_lem trigger (creation ∷ []) blank (record { store = new_store; disk = created_disk })
        (new_store-Consistent c),
  )

  -- In a directory without a file, where the first manifest entry can be carried, `open_or_create`
  -- makes a store that agrees with its disk: a manifest with the entry that creates the segment 1, and
  -- that segment without a frame, with no rollover pending.
  pub open_or_create-Consistent :
      (trigger : ℕ)
      → Carried creation
      → (s : Store) × (open_or_create trigger vacant ≡ (ok s, created_disk))
        × Consistent (creation ∷ []) blank (record { store = s; disk = created_disk })
        × (s.rollover_pending ≡ false)
  unfolding open_or_create opened_after Files.manifest_exists
  open_or_create-Consistent trigger c =
      let (s, run, agrees, _, _, _, _, idle) =
        open_store-Consistent trigger (creation ∷ []) blank
          (record { store = new_store; disk = created_disk }) (new_store-Consistent c) in
      (s, ground (arith, create_store_lem, run), agrees, idle)
