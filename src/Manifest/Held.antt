-- ===== src/Manifest/Held.antt =====
-- A manifest file of whole operations (src/manifest.rs, src/files.rs) on the disk.
use woodshed.Base.{◌≡◌, List, [], ◌∷◌, map, All, some, ok, arith}
use woodshed.Hash.{Hasher}
use woodshed.Yatlv.{Yatlv}
use woodshed.Files
use woodshed.Files.{Disk, magic_len, open_manifest}
use woodshed.Frame.Format.{Fits}
use woodshed.State.{ManifestOp}
use woodshed.Manifest.Replay.{op_frame, Carried, manifest_file}
use woodshed.Base.{ℕ}

module _ ⦃h : Hasher⦄ ⦃y : Yatlv⦄ where
  pub Carried-Fits : (es : List ManifestOp) → All Carried es → All Fits (map op_frame es)
  Carried-Fits [] c = tt
  Carried-Fits (e ∷ es) (c, cs) = ((omega arith, c.1), Carried-Fits es cs)

  abbrev pub Holds : Disk → List ManifestOp → List ℕ → Type 0
  Holds d es tail = d.manifest ≡ some ((manifest_file es tail).content)

  pub open_manifest-Holds :
      (d : Disk) (es : List ManifestOp) (tail : List ℕ)
      → Holds d es tail
      → open_manifest d ≡ ok (manifest_file es tail, magic_len)
  unfolding open_manifest Files.check_magic Files.same_bytes
  open_manifest-Holds d es tail e = ground arith
