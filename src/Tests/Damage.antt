-- ===== src/Tests/Damage.antt =====
-- Opening a store with files that its manifest does not expect, at concrete inputs.
use woodshed.Base.{
  ◌+◌, ◌≡◌, ◌≢◌, refl, ap, true, false, ◌||◌, List, [], ◌∷◌, ◌++◌, length, some, ok, err, arith,
}
use woodshed.Base.Dict.{lookup, insert, add, contains}
use woodshed.Tests.Codec.{sum_hasher, plain_codec}
use woodshed.Tests.Log.{
  content, disk, world, world-Consistent, batch, fresh_written, fresh-Reach, creation-Carried,
}
use woodshed.Files.{Disk, magic_len, segment_magic, segment_bytes}
use woodshed.Frame.Split.{Parts}
use woodshed.Recovery.{not_possible}
use woodshed.Manifest.Replay.{Carried}
use woodshed.Scan.Lost.{replace, loss_issue}
use woodshed.State.{bare, record_orphan, segment_deleted, is_live}
use woodshed.State.Codec.{encode}
use woodshed.Store.{Store, World, roll_entry, enter_segment}
use woodshed.Store.Open.{open_store, recover, recovery_not_possible, approved_recovered_required}
use woodshed.Store.Rollover.{rolled_world, seal_info}
use woodshed.Store.Create.{creation, created}
use woodshed.Store.Consistent.{Consistent}
use woodshed.Store.Keeps.Write.{appended}
use woodshed.Store.Keeps.Roll.{Consistent-CanRoll, opened, rolled_Consistent}
use woodshed.Store.Crash.{crashed, open_store-anything}
use woodshed.Store.Crash.Orphan.{strange, open_store-stranger}
use woodshed.Store.Crash.Deleted.{halfway, open_store-halfway}
use woodshed.Store.Lost.{open_store-lost}
use woodshed.Store.Missing.{without_active, missing_issue, recover-missing}
use woodshed.Store.Crash.Reached.{bare_content, cut_active, EndsBehind, Reach-cut}
use woodshed.Store.Calls
use woodshed.Store.Log.{log_of}
use woodshed.Store.ReadBack.{Reads}
use woodshed.Frame.Frames.{Frame}

orphan-Carried : Carried (bare (record_orphan 2))
unfolding encode
orphan-Carried = ((omega arith, tt), omega arith)

deletion-Carried : Carried (bare (segment_deleted 2))
unfolding encode
deletion-Carried = ((omega arith, tt), omega arith)

-- The file of a segment 2, without its magic.
unknown : (is_live 2 world.store.state.segments || contains 2 world.store.state.dead) ≡ false
unfolding is_live contains
unknown = refl

abbrev with_orphan : Disk
with_orphan = strange (creation ∷ []) content world world-Consistent 2 [] unknown

open_store-stranger_example :
    (s : Store) × (d : Disk) × (open_store 100 with_orphan ≡ (ok s, d))
    × Consistent (creation ∷ bare (record_orphan 2) ∷ []) content (record { store = s; disk = d })
    × (s.state ≡ record created { dead = add 2 [] })
    × Reads (log_of content created.segments) (record { store = s; disk = d })
open_store-stranger_example =
    open_store-stranger (creation ∷ []) content world world-Consistent 2 [] unknown 100
      (omega arith) orphan-Carried

-- The store that has the orphan for a dead segment.
orphaned :
    (s : Store) × (d : Disk) × (open_store 100 with_orphan ≡ (ok s, d))
    × Consistent (creation ∷ bare (record_orphan 2) ∷ []) content (record { store = s; disk = d })
    × (s.state ≡ record created { dead = add 2 [] })
    × Reads (log_of content created.segments) (record { store = s; disk = d })
orphaned =
    open_store-stranger (creation ∷ []) content world world-Consistent 2 [] unknown 100
      (omega arith) orphan-Carried

abbrev after_orphan : World
after_orphan = record { store = orphaned.0; disk = orphaned.1 }

one_dead : after_orphan.store.state.dead ≡ 2 ∷ []
unfolding add contains
one_dead = ap (λ s. s.dead) orphaned.4

open_store-halfway_example :
    (s : Store) × (d : Disk) × (open_store 100
        (halfway
          (creation ∷ bare (record_orphan 2) ∷ [])
          content
          after_orphan
          orphaned.3
          2
          []
          one_dead).disk
      ≡ (ok s, d))
    × Consistent
        (creation ∷ bare (record_orphan 2) ∷ bare (segment_deleted 2) ∷ [])
        content
        (record { store = s; disk = d })
    × (s.state ≡ record after_orphan.store.state { dead = [] })
    × Reads (log_of content after_orphan.store.state.segments) (record { store = s; disk = d })
open_store-halfway_example =
    open_store-halfway (creation ∷ bare (record_orphan 2) ∷ []) content after_orphan orphaned.3 2 []
      one_dead 100 deletion-Carried

-- The store after a rollover, whose first segment is sealed.
abbrev rolled : World
rolled =
    rolled_world world.store disk 3
      (Consistent-CanRoll (creation ∷ []) content world world-Consistent)

rolled-Carried : Carried (roll_entry world.store 3)
unfolding encode roll_entry
rolled-Carried = (
  ((omega arith, omega arith, omega arith, omega arith, omega arith, omega arith, omega arith), tt),
  omega arith,
)

rolled-Consistent :
    Consistent
      (creation ∷ roll_entry world.store 3 ∷ [])
      (opened (creation ∷ []) content world world-Consistent)
      rolled
rolled-Consistent =
    rolled_Consistent (creation ∷ []) content world world-Consistent 3 rolled-Carried (omega arith)

rolled_live : is_live 1 rolled.store.state.segments ≡ true
unfolding is_live enter_segment
rolled_live = refl

rolled_sealed : lookup 1 rolled.store.state.seals ≡ some (seal_info world.store)
unfolding lookup insert enter_segment
rolled_sealed = refl

other_size : length segment_magic ≢ (seal_info world.store).final_size
other_size e = absurd (omega (arith, e))

open_store-lost_example :
    (open_store 100 (replace 1 (some segment_magic) rolled.disk) ≡ (
      err (recovery_not_possible (loss_issue 1 50 (some segment_magic))),
      replace 1 (some segment_magic) rolled.disk,
    ))
    × (recover (replace 1 (some segment_magic) rolled.disk)
        ≡ (err not_possible, replace 1 (some segment_magic) rolled.disk))
open_store-lost_example =
    open_store-lost (creation ∷ roll_entry world.store 3 ∷ [])
      (opened (creation ∷ []) content world world-Consistent) rolled rolled-Consistent 1
      (seal_info world.store) (some segment_magic) 100 rolled_live rolled_sealed other_size

-- Three bytes that begin no frame.
open_store-anything_example :
    (p : Parts (1 ∷ 2 ∷ 3 ∷ [])) × (s : Store) × (d : Disk) × (open_store 100
        (crashed (creation ∷ []) content world world-Consistent (1 ∷ 2 ∷ 3 ∷ []))
      ≡ (ok s, d))
    × Consistent
        (creation ∷ [])
        (appended (creation ∷ []) content world world-Consistent p.frames)
        (record { store = s; disk = d })
open_store-anything_example =
    open_store-anything (creation ∷ []) content world world-Consistent (1 ∷ 2 ∷ 3 ∷ []) 100
      (omega arith, (omega arith, (omega arith, tt)))

-- The batch of one entry lost its last byte.
Reach-cut_example :
    (kept lost : List Frame) × Calls.LogReach
      (Calls.write batch ∷ [])
      fresh_written.world
      (kept ++ lost)
    × Reads (kept ++ lost) fresh_written.world
    × EndsBehind
        (magic_len + 20)
        (length (segment_bytes fresh_written.world.disk fresh_written.world.store.active_id))
        lost
    × (s : Store) × (d : Disk) × (open_store 100 (cut_active (magic_len + 20) fresh_written.world)
        ≡ (ok s, d))
    × Reads kept (record { store = s; disk = d })
Reach-cut_example =
    Reach-cut (Calls.write batch ∷ []) fresh_written.world 100 20 creation-Carried fresh-Reach

recover-missing_example :
    (open_store 100 (without_active world)
      ≡ (err (approved_recovered_required (missing_issue 1)), without_active world))
    × (s : Store) × (d : Disk) × (recover (without_active world) ≡ (ok tt, d))
    × (open_store 100 d ≡ (ok s, d))
    × Consistent
        (creation ∷ [])
        (bare_content (creation ∷ []) content world world-Consistent)
        (record { store = s; disk = d })
    × (s.state ≡ created)
recover-missing_example = recover-missing (creation ∷ []) content world world-Consistent 100
