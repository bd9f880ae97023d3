-- ===== src/Store/Crash/Append.antt =====
-- The entry that a recovery (src/recovery.rs) appends to the manifest is the one that the store would.
use woodshed.Base.{◌≡◌, List, [], map, length, length-append, ok, arith}
use woodshed.Hash.{Hasher}
use woodshed.Yatlv.{Yatlv}
use woodshed.Files.{put_manifest}
use woodshed.Frame.Cursor.{write, flush}
use woodshed.Frame.Frames.{frames_bytes, length-frames_bytes}
use woodshed.Recovery.{append_manifest_op}
use woodshed.State.{StoreState, Op, ManifestOp, bare}
use woodshed.Manifest.{write_op}
use woodshed.Manifest.Replay.{op_frame, manifest_file, manifest_size}
use woodshed.Manifest.Held.{open_manifest-Holds}
use woodshed.Store.{World, append_entry}
use woodshed.Store.Logged.{logged}
use woodshed.Store.Consistent.{Recorded}

module _ ⦃h : Hasher⦄ ⦃y : Yatlv⦄ where
  length-manifest_file :
      (es : List ManifestOp) → length ((manifest_file es []).content) ≡ manifest_size es
  length-manifest_file es = omega (
    arith,
    length-append (frames_bytes (map op_frame es)) [],
    length-frames_bytes (map op_frame es),
  )

  pub append_manifest_op-logged :
      (es : List ManifestOp) (op : Op) (t : StoreState) (w : World)
      → Recorded es w
      → append_manifest_op op w.disk ≡ (ok tt, (logged (bare op) t w).disk)
  unfolding append_manifest_op append_entry write_op write flush put_manifest
  append_manifest_op-logged es op t w r =
      ground (
        arith,
        open_manifest-Holds w.disk es [] r.holds,
        r.holds,
        r.cursor,
        length-manifest_file es,
      )
