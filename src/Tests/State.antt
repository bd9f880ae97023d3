-- ===== src/Tests/State.antt =====
-- The state, its codec and the manifest at concrete inputs.
use woodshed.Base.{ℕ, ◌≡◌, refl, true, false, List, [], ◌∷◌, ◌++◌, some, ok, err, arith}
use woodshed.Base.Bytes.{from_be}
use woodshed.Base.Dict.{lookup, contains}
use woodshed.Tests.Codec.{sum_hasher, plain_codec}
use woodshed.Files.{Disk, magic_len}
use woodshed.Frame.Format.{header_payload_len}
use woodshed.State.{StoreState, ManifestOp, with_meta, empty, create_segment, apply, set_all}
use woodshed.State.View.{last_value, lookup-set_all}
use woodshed.State.Invariant.{IsWellFormed, empty-IsWellFormed, apply-IsWellFormed}
use woodshed.State.Codec.{encode, decode}
use woodshed.State.Codec.RoundTrip.{decode-encode}
use woodshed.Manifest.{replay}
use woodshed.Manifest.Replay.{Carried, apply_all, manifest_file, manifest_size, replay-written}
use woodshed.Recovery.{not_possible, attempt_recovery}
use woodshed.Recovery.Policy.{Outcome, attempt_recovery-Outcome}
use woodshed.Recovery.Torn.{
  torn_at, unreadable, attempt_recovery-cut_header, attempt_recovery-cut_payload,
}
use woodshed.Scan.{integrity_phase, empty_report, scan}

-- The first operation of a store, with a pair of metadata.
abbrev creation : ManifestOp
creation = with_meta (create_segment 1 0) ((3, b'v' ∷ []) ∷ [])

abbrev created : StoreState
created = record {
  segments = record { id = 1; first_entry = 0 } ∷ [];
  seals = [];
  active_segment_id = some 1;
  dead = [];
  first_entry = 0;
  meta = (3, b'v' ∷ []) ∷ [];
}

creation_test : apply empty creation ≡ ok created
unfolding apply
creation_test = refl

apply-IsWellFormed_example : IsWellFormed created
apply-IsWellFormed_example =
    apply-IsWellFormed empty created creation empty-IsWellFormed (unfold contains in refl)
      creation_test

lookup-set_all_example :
    lookup 3 (set_all created.meta ((3, b'w' ∷ []) ∷ (4, []) ∷ []))
    ≡ last_value 3 (lookup 3 created.meta) ((3, b'w' ∷ []) ∷ (4, []) ∷ [])
lookup-set_all_example = lookup-set_all 3 created.meta ((3, b'w' ∷ []) ∷ (4, []) ∷ [])

creation-Carried : Carried creation
unfolding encode
creation-Carried = (((omega arith, omega arith), (omega arith, tt)), omega arith)

decode-encode_example : decode (encode creation) ≡ ok creation
decode-encode_example = decode-encode creation creation-Carried.0 creation-Carried.1

creations_test : apply_all empty (creation ∷ []) ≡ ok created
unfolding apply
creations_test = refl

replay-written_example :
    replay (manifest_file (creation ∷ []) []) magic_len
    ≡ some (ok (record { state = created; next_offset = manifest_size (creation ∷ []) }))
replay-written_example =
    replay-written (creation ∷ []) created (creation-Carried, tt) creations_test

-- A disk whose manifest has the operation and then `tail`.
abbrev torn_disk : List ℕ → Disk
torn_disk tail = record {
  exists = true;
  manifest = some ((manifest_file (creation ∷ []) tail).content);
  segments = [];
}

attempt_recovery-cut_header_example :
    (integrity_phase (manifest_file (creation ∷ []) (0 ∷ 0 ∷ []), magic_len)
      ≡ ok (torn_at (manifest_size (creation ∷ [])) ∷ []))
    × (replay (manifest_file (creation ∷ []) (0 ∷ 0 ∷ [])) magic_len
        ≡ some (ok (record { state = created; next_offset = manifest_size (creation ∷ []) })))
    × (attempt_recovery
          (torn_at (manifest_size (creation ∷ [])) ∷ [])
          false
          (torn_disk (0 ∷ 0 ∷ []))
        ≡ (ok tt, torn_disk []))
attempt_recovery-cut_header_example =
    attempt_recovery-cut_header (torn_disk (0 ∷ 0 ∷ [])) (creation ∷ []) created 0 (0 ∷ [])
      (creation-Carried, tt) creations_test (omega arith) refl

-- The header of a frame whose payload of nine bytes never came.
abbrev lone_header : List ℕ
lone_header = 0 ∷ 0 ∷ 0 ∷ 0 ∷ 0 ∷ 0 ∷ 0 ∷ 0 ∷ 0 ∷ 0 ∷ 0 ∷ 9 ∷ 0 ∷ 0 ∷ 0 ∷ 0 ∷ 0 ∷ 0 ∷ 0 ∷ 0 ∷ []

lone_header_test : header_payload_len lone_header ≡ 9
unfolding header_payload_len from_be
lone_header_test = refl

attempt_recovery-cut_payload_example :
    (scan (torn_disk (lone_header ++ []))
      ≡ empty_report (torn_at (manifest_size (creation ∷ [])) ∷ unreadable ∷ []))
    × (attempt_recovery
          ((scan (torn_disk (lone_header ++ []))).issues)
          true
          (torn_disk (lone_header ++ []))
        ≡ (err not_possible, torn_disk (lone_header ++ [])))
attempt_recovery-cut_payload_example =
    attempt_recovery-cut_payload (torn_disk (lone_header ++ [])) (creation ∷ []) created lone_header
      [] true (creation-Carried, tt) creations_test refl (omega (arith, lone_header_test)) refl refl

attempt_recovery-Outcome_example : Outcome (torn_at 8 ∷ unreadable ∷ []) false (torn_disk [])
attempt_recovery-Outcome_example =
    attempt_recovery-Outcome (torn_at 8 ∷ unreadable ∷ []) false (torn_disk [])
