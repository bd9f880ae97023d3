-- ===== src/Store/Logged.antt =====
-- What an entry of the manifest does to the store and the disk (src/store.rs).
use woodshed.Base.{◌≡◌, ok, arith}
use woodshed.Hash.{Hasher}
use woodshed.Yatlv.{Yatlv}
use woodshed.State.{StoreState, apply, ManifestOp}
use woodshed.Store.{World, log_entry, append_entry, apply_entry}

module _ ⦃h : Hasher⦄ ⦃y : Yatlv⦄ where
  -- The world after an entry that leads to the state `t`.
  abbrev pub logged : ManifestOp → StoreState → World → World
  logged entry t w =
      let x = append_entry entry w in
      record { store = record x.1.store { state = t }; disk = x.1.disk }

  pub log_entry-logged :
      (entry : ManifestOp) (t : StoreState) (w : World)
      → apply w.store.state entry ≡ ok t
      → log_entry entry w ≡ (ok tt, logged entry t w)
  unfolding log_entry append_entry apply_entry
  log_entry-logged entry t w e = ground arith
