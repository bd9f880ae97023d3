-- ===== src/Manifest.antt =====
-- src/manifest.rs: writing operations to the manifest, and replaying them.
pub mod Replay
pub mod Held
use woodshed.Base.{ℕ, zero, suc, List, Option, none, some, Result, ok, err, length, if◌then◌else◌}
use woodshed.Hash.{Hasher}
use woodshed.Yatlv.{Yatlv}
use woodshed.File.{File}
use woodshed.Frame.Cursor.{FrameCursor, write, flush}
use woodshed.Frame.Scanner
use woodshed.Frame.Scanner.{
  FrameScanner, FrameReader, ScanError, checksum_mismatch, truncated, ReadError, read, read_to_end,
  drop_reader,
}
use woodshed.State.{StoreState, ManifestOp, ApplyError, empty, apply}
use woodshed.State.Codec.{DecodeError, encode, decode}

module _ ⦃h : Hasher⦄ ⦃y : Yatlv⦄ where
  -- `write_op`, on the bytes of the manifest
  unfoldable pub write_op : FrameCursor → List ℕ → ManifestOp → List ℕ × FrameCursor
  unfolding write flush
  write_op cursor content op = flush (write cursor 0 (encode op)) content

module _ ⦃y : Yatlv⦄ where
  pub record ReplayResult : Type 0 where
    pub state : StoreState
    pub next_offset : ℕ

  pub data ReplayError : Type 0 where
    invalid_op : ℕ → DecodeError → ReplayError
    apply_failed : ℕ → ApplyError → ReplayError
    io : ReplayError

  -- Where a decoded and applied operation leads, with the error's offset.
  unfoldable pub replay_op : ℕ → StoreState → List ℕ → Result ReplayError StoreState
  replay_op frame_offset state payload = elim (decode payload) [
    | err source ↦ err (invalid_op frame_offset source)
    | ok entry ↦ elim (apply state entry) [
      | err source ↦ err (apply_failed frame_offset source)
      | ok state' ↦ ok state'
    ]
  ]

  -- `none` says that the fuel ran out.
  abbrev pub Run : Type 0
  Run = Option (Result ReplayError ReplayResult)

  unfoldable pub replay_payload :
      StoreState
      → ℕ
      → Result ReadError (List ℕ) × FrameReader
      → (StoreState → ℕ → FrameScanner → Run)
      → Run
  unfolding replay_op drop_reader
  replay_payload state frame_offset (err e, r) next = some (err io)
  replay_payload state frame_offset (ok payload, r) next =
      elim (replay_op frame_offset state payload) [
        | err e ↦ some (err e)
        | ok state' ↦ next state' (drop_reader r).position (drop_reader r)
      ]

  unfoldable pub replay_step :
      StoreState
      → ℕ
      → Result ScanError (Option FrameReader) × FrameScanner
      → (StoreState → ℕ → FrameScanner → Run)
      → Run
  unfolding replay_payload read_to_end
  replay_step state next_offset (ok none, s) next =
      some (ok (record { state = state; next_offset = next_offset }))
  replay_step state next_offset (ok (some reader), s) next =
      replay_payload state reader.frame_start (read_to_end reader) next
  replay_step state next_offset (err _, s) next =
      some (ok (record { state = state; next_offset = next_offset }))

  unfoldable pub replay_loop : ℕ → StoreState → ℕ → FrameScanner → Run
  unfolding replay_step read
  replay_loop zero state next_offset s = none
  replay_loop (suc fuel) state next_offset s =
      replay_step state next_offset (read s) (replay_loop fuel)

  -- `replay`
  unfoldable pub replay : File → ℕ → Run
  unfolding replay_loop Scanner.new
  replay file offset =
      let s = Scanner.new file offset in replay_loop (suc (suc (length s.reader))) empty offset s
