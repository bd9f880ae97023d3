-- ===== src/Base/Bytes.antt =====
-- Bytes are numbers; `be w n` is the big-endian form of a w-byte integer (`to_be_bytes`), and
-- `from_be` reads one back (`from_be_bytes`).
use woodshed.Base.Lists.{All, length, length-append}
use Prim.Native.Nat.{ℕ, zero, suc, ◌+◌, ◌*◌, ◌/◌, ◌%◌, ◌^◌, ◌<◌}
use mathlib.Core.Path.{◌≡◌, refl, sym, ap, ap₂, subst, ◌∙◌}
use mathlib.Core.List.{List, [], ◌∷◌, ◌++◌, append-nil, append_assoc}
use native.Mathlib.Omega.{arith}
use native.Mathlib.Nat.{pow-suc}

unfoldable pub be : ℕ → ℕ → List ℕ
be zero n = []
be (suc w) n = be w (n / 256) ++ (n % 256 ∷ [])

unfoldable pub from_be_acc : ℕ → List ℕ → ℕ
from_be_acc acc [] = acc
from_be_acc acc (b ∷ bs) = from_be_acc (acc * 256 + b) bs

unfoldable pub from_be : List ℕ → ℕ
unfolding from_be_acc
from_be bs = from_be_acc 0 bs

pub length-be : (w n : ℕ) → length (be w n) ≡ w
unfolding be
length-be zero n = refl
length-be (suc w) n =
    length-append (be w (n / 256)) (n % 256 ∷ []) ∙ omega (arith, length-be w (n / 256))

from_be_acc-append :
    (acc b : ℕ) (xs : List ℕ) → from_be_acc acc (xs ++ (b ∷ [])) ≡ from_be_acc acc xs * 256 + b
unfolding from_be_acc
from_be_acc-append acc b [] = refl
from_be_acc-append acc b (x ∷ xs) = from_be_acc-append (acc * 256 + x) b xs

div_fits : (w n : ℕ) → n < 256 ^ suc w → n / 256 < 256 ^ w
div_fits w n h = omega (arith, pow-suc 256 w)

-- What `to_be_bytes` writes, `from_be_bytes` reads back, for a number that fits the width.
pub from_be-be : (w n : ℕ) → n < 256 ^ w → from_be (be w n) ≡ n
unfolding from_be be
from_be-be zero n h = omega arith
from_be-be (suc w) n h =
    from_be_acc-append 0 (n % 256) (be w (n / 256))
    ∙ omega (arith, from_be-be w (n / 256) (div_fits w n h))

abbrev pub IsByte : ℕ → Type 0
IsByte b = b < 256

be-from_be_acc :
    (bs : List ℕ) (k acc : ℕ)
    → All IsByte bs
    → be (k + length bs) (from_be_acc acc bs) ≡ be k acc ++ bs
unfolding from_be_acc
be-from_be_acc [] k acc h = ap (λ n. be n acc) (omega arith) ∙ sym (append-nil (be k acc))
be-from_be_acc (b ∷ bs) k acc (hb, h) =
    ap (λ n. be n (from_be_acc (acc * 256 + b) bs)) (omega arith)
    ∙ be-from_be_acc bs (suc k) (acc * 256 + b) h
    ∙ push
  where
    push : be (suc k) (acc * 256 + b) ++ bs ≡ be k acc ++ (b ∷ bs)
    push =
        unfold be in
        ap₂ (λ q r. (be k q ++ (r ∷ [])) ++ bs) (omega arith) (omega arith)
        ∙ append_assoc (be k acc) (b ∷ []) bs

-- What `from_be_bytes` reads, `to_be_bytes` writes again.
pub be-from_be : (bs : List ℕ) → All IsByte bs → be (length bs) (from_be bs) ≡ bs
unfolding from_be
be-from_be bs h =
    ap (λ n. be n (from_be_acc 0 bs)) (omega arith) ∙ be-from_be_acc bs 0 0 h ∙ (unfold be in refl)

from_be_acc-lt :
    (bs : List ℕ) (k acc : ℕ)
    → All IsByte bs
    → acc < 256 ^ k
    → from_be_acc acc bs < 256 ^ (k + length bs)
unfolding from_be_acc
from_be_acc-lt [] k acc h a = subst (λ n. acc < 256 ^ n) (omega arith) a
from_be_acc-lt (b ∷ bs) k acc (hb, h) a =
    subst (λ n. from_be_acc (acc * 256 + b) bs < 256 ^ n) (omega arith)
      (from_be_acc-lt bs (suc k) (acc * 256 + b) h (omega (arith, pow-suc 256 k)))

pub from_be-lt : (bs : List ℕ) → All IsByte bs → from_be bs < 256 ^ length bs
unfolding from_be
from_be-lt bs h =
    subst (λ n. from_be_acc 0 bs < 256 ^ n) (omega arith) (from_be_acc-lt bs 0 0 h (omega arith))
