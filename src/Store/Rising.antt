-- ===== src/Store/Rising.antt =====
-- Frames whose ids rise, and where an entry stands among them.
use woodshed.Base.{
  ◌≤◌, ◌<◌, ◌≡◌, refl, Bool, Bool-cases, inl, inr, true, false, List, [], ◌∷◌, ◌++◌, All, All-split,
  leb, arith, if◌then◌else◌,
}
use woodshed.Frame.Frames.{Frame}
use woodshed.State.{EntryId}

-- The id of each frame is less than all behind it.
abbrev pub Rising : List Frame → Type 0
Rising [] = Unit
Rising (f ∷ fs) = All (λ g. f.0 < g.0) fs × Rising fs

-- Every frame is before the entry, or none is.
abbrev pub Below : EntryId → List Frame → Type 0
Below target = All λ f. f.0 < target

abbrev pub FromOn : EntryId → List Frame → Type 0
FromOn target = All λ f. target ≤ f.0

-- The frames from the entry on.
unfoldable pub entries_from : EntryId → List Frame → List Frame
entries_from target [] = []
entries_from target (f ∷ fs) =
    let rest = entries_from target fs in if leb target f.0 then f ∷ rest else rest

-- The frames before the first from the entry on, and those behind.
unfoldable pub leading : EntryId → List Frame → List Frame
leading target [] = []
leading target (f ∷ fs) = let rest = leading target fs in if leb target f.0 then [] else f ∷ rest

unfoldable pub trailing : EntryId → List Frame → List Frame
trailing target [] = []
trailing target (f ∷ fs) = let rest = trailing target fs in if leb target f.0 then f ∷ fs else rest

pub Rising-split :
    (xs ys : List Frame)
    → Rising (xs ++ ys)
    → Rising xs × Rising ys × All (λ f. All (λ g. f.0 < g.0) ys) xs
Rising-split [] ys r = (tt, r, tt)
Rising-split (x ∷ xs) ys (low, r) =
    let (rx, ry, across) = Rising-split xs ys r in
    let (near, far) = All-split (λ g. x.0 < g.0) xs ys low in ((near, rx), ry, (far, across))

pub entries_from-append :
    (target : EntryId) (xs ys : List Frame)
    → entries_from target (xs ++ ys) ≡ entries_from target xs ++ entries_from target ys
unfolding entries_from
entries_from-append target [] ys = refl
entries_from-append target (x ∷ xs) ys = ground (arith, entries_from-append target xs ys)

pub entries_from-Below :
    (target : EntryId) (xs : List Frame) → Below target xs → entries_from target xs ≡ []
unfolding entries_from
entries_from-Below target [] b = refl
entries_from-Below target (x ∷ xs) (lt, b) = ground (arith, entries_from-Below target xs b)

pub entries_from-FromOn :
    (target : EntryId) (xs : List Frame) → FromOn target xs → entries_from target xs ≡ xs
unfolding entries_from
entries_from-FromOn target [] b = refl
entries_from-FromOn target (x ∷ xs) (le, b) = ground (arith, entries_from-FromOn target xs b)

pub leading-append-trailing :
    (target : EntryId) (xs : List Frame) → xs ≡ leading target xs ++ trailing target xs
unfolding leading trailing
leading-append-trailing target [] = refl
leading-append-trailing target (x ∷ xs) = ground (arith, leading-append-trailing target xs)

Below-unless :
    (b : Bool) (target : EntryId) (x : Frame) (xs : List Frame)
    → leb target x.0 ≡ b
    → Below target xs
    → Below target (if b then [] else x ∷ xs)
Below-unless true target x xs e h = tt
Below-unless false target x xs e h = (ground arith, h)

pub leading-Below : (target : EntryId) (xs : List Frame) → Below target (leading target xs)
unfolding leading
leading-Below target [] = tt
leading-Below target (x ∷ xs) =
    Below-unless (leb target x.0) target x (leading target xs) refl (leading-Below target xs)

-- All behind a frame that is not before the entry are not before it either.
pub FromOn-behind :
    (target n : EntryId) (xs : List Frame) → target ≤ n → All (λ g. n < g.0) xs → FromOn target xs
FromOn-behind target n [] le a = tt
FromOn-behind target n (x ∷ xs) le (lt, a) = (omega arith, FromOn-behind target n xs le a)

-- Where the ids rise, what is left behind the leading frames are all from the entry on.
pub entries_from-Rising :
    (target : EntryId) (xs : List Frame) → Rising xs → entries_from target xs ≡ trailing target xs
unfolding entries_from trailing
entries_from-Rising target [] r = refl
entries_from-Rising target (x ∷ xs) (low, r) = elim (Bool-cases (leb target x.0)) [
  | inl from ↦
      ground (arith, entries_from-FromOn target xs (FromOn-behind target x.0 xs (ground arith) low))
  | inr before ↦ ground (arith, entries_from-Rising target xs r)
]
