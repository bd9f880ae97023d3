-- ===== src/Base/Dict.antt =====
-- `HashMap` and `HashSet` with numbers for keys, as association lists and lists without repeats.
-- The order of a map is not modelled; a set is iterated in the order of its list.
use woodshed.Base.Tests.{Bool-cases, ◌==◌, if◌then◌else◌}
use Prim.Native.Nat.{ℕ}
use mathlib.Core.Path.{◌≡◌, refl, subst}
use mathlib.Core.Bool.{Bool, false, ◌||◌, not, ◌&&◌}
use mathlib.Core.Logic.{inl, inr}
use mathlib.Core.Option.{Option, none, some}
use mathlib.Core.List.{List, [], ◌∷◌, ◌++◌}
use native.Mathlib.Omega.{arith}

module _ {ℓ} {V : Type ℓ} where
  unfoldable pub lookup : ℕ → List (ℕ × V) → Option V
  lookup k [] = none
  lookup k ((j, v) ∷ m) = if j == k then some v else lookup k m

  unfoldable pub remove : ℕ → List (ℕ × V) → List (ℕ × V)
  remove k [] = []
  remove k ((j, v) ∷ m) = let rest = remove k m in if j == k then rest else (j, v) ∷ rest

  unfoldable pub insert : ℕ → V → List (ℕ × V) → List (ℕ × V)
  insert k v m = (k, v) ∷ remove k m

  pub lookup-remove :
      (k j : ℕ) (m : List (ℕ × V)) → lookup j (remove k m) ≡ (if k == j then none else lookup j m)
  unfolding lookup remove
  lookup-remove k j [] = ground arith
  lookup-remove k j ((i, v) ∷ m) = ground (arith, lookup-remove k j m)

  pub lookup-insert :
      (k j : ℕ) (v : V) (m : List (ℕ × V))
      → lookup j (insert k v m) ≡ (if k == j then some v else lookup j m)
  unfolding lookup insert
  lookup-insert k j v m = ground (arith, lookup-remove k j m)

  remove-remove : (k : ℕ) (m : List (ℕ × V)) → remove k (remove k m) ≡ remove k m
  unfolding remove
  remove-remove k [] = refl
  remove-remove k ((i, v) ∷ m) = ground (arith, remove-remove k m)

  pub insert-remove : (k : ℕ) (v : V) (m : List (ℕ × V)) → insert k v (remove k m) ≡ insert k v m
  unfolding remove insert
  insert-remove k v m = ground (arith, remove-remove k m)

  -- A value overwrites the one before.
  pub insert-insert :
      (k : ℕ) (v w : V) (m : List (ℕ × V)) → insert k v (insert k w m) ≡ insert k v m
  unfolding remove insert
  insert-insert k v w m = ground (arith, remove-remove k m)

unfoldable pub contains : ℕ → List ℕ → Bool
contains k [] = false
contains k (j ∷ s) = j == k || contains k s

unfoldable pub erase : ℕ → List ℕ → List ℕ
erase k [] = []
erase k (j ∷ s) = let rest = erase k s in if j == k then rest else j ∷ rest

unfoldable pub add : ℕ → List ℕ → List ℕ
unfolding contains
add k s = if contains k s then s else s ++ (k ∷ [])

-- No key stands in the list twice.
abbrev pub Once : List ℕ → Type 0
Once [] = Unit
Once (k ∷ s) = (contains k s ≡ false) × Once s

pub contains-append : (j : ℕ) (s t : List ℕ) → contains j (s ++ t) ≡ (contains j s || contains j t)
unfolding contains
contains-append j [] t = refl
contains-append j (i ∷ s) t = ground (arith, contains-append j s t)

pub contains-add : (k j : ℕ) (s : List ℕ) → contains j (add k s) ≡ (k == j || contains j s)
unfolding contains add
contains-add k j s = ground (arith, contains-append j s (k ∷ []))

Once-snoc : (k : ℕ) (s : List ℕ) → contains k s ≡ false → Once s → Once (s ++ (k ∷ []))
unfolding contains
Once-snoc k [] h o = (refl, tt)
Once-snoc k (i ∷ s) h (p, o) =
    (ground (arith, contains-append i s (k ∷ [])), Once-snoc k s (ground arith) o)

pub Once-add : (k : ℕ) (s : List ℕ) → Once s → Once (add k s)
unfolding add
Once-add k s o = elim (Bool-cases (contains k s)) [
  | inl there ↦ subst Once (ground arith) o
  | inr absent ↦ subst Once (ground arith) (Once-snoc k s absent o)
]

pub contains-erase :
    (k j : ℕ) (s : List ℕ) → contains j (erase k s) ≡ (not (k == j) && contains j s)
unfolding contains erase
contains-erase k j [] = ground arith
contains-erase k j (i ∷ s) = ground (arith, contains-erase k j s)

pub ruleset dict_laws = (lookup-remove, lookup-insert, contains-add, contains-erase)
