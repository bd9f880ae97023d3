-- ===== src/Hash.antt =====
-- The checksum of the crate `xxhash_rust`, which is not part of this repository. Feeding a hasher
-- piece by piece and taking its digest gives the hash of the bytes put together, with seed 0.
use woodshed.Base.{ℕ, ◌<◌, ◌^◌, List}

pub record Hasher : Type 0 where
  pub xxh64 : List ℕ → ℕ
  -- a digest is a `u64`
  pub xxh64_lt : (bytes : List ℕ) → xxh64 bytes < 2 ^ 64

-- The hasher of the context.
abbrev pub digest : ⦃h : Hasher⦄ → List ℕ → ℕ
digest ⦃h⦄ = h.xxh64
