-- ===== src/File.antt =====
-- What the code uses of `std::fs::File` and of `BufReader` over it. A handle has the bytes of the file and
-- the position that the operating system keeps for sequential reads; `write_all_at` and `set_len`
-- do not use that position. Reads of an open file do not fail.
use woodshed.Base.{
  ℕ, ◌+◌, ◌-◌, ◌≡◌, ap, ◌∙◌, List, ◌++◌, length, take, drop, replicate, take-append, drop_all,
  append_assoc, append-nil, arith,
}

pub record File : Type 0 where
  pub content : List ℕ
  pub cursor : ℕ

-- What sequential reads through the handle still deliver.
unfoldable pub unread : File → List ℕ
unread f = drop f.cursor f.content

-- `n` zeros behind the end where the file is shorter than `n`.
abbrev pub padded : List ℕ → ℕ → List ℕ
padded bytes n = bytes ++ replicate (n - length bytes) 0

unfoldable pub write_all_at : List ℕ → List ℕ → ℕ → List ℕ
write_all_at content buf offset =
    take offset (padded content offset) ++ (buf ++ drop (offset + length buf) content)

unfoldable pub set_len : List ℕ → ℕ → List ℕ
set_len content n = take n (padded content n)

-- Cutting a file at a known boundary.
pub set_len-append : (xs ys : List ℕ) (n : ℕ) → length xs ≡ n → set_len (xs ++ ys) n ≡ xs
unfolding set_len
set_len-append xs ys n e =
    ap (take n) (append_assoc xs ys (replicate (n - length (xs ++ ys)) 0))
    ∙ take-append n xs (ys ++ replicate (n - length (xs ++ ys)) 0) e

-- Writing at the end of a file.
pub write_all_at-end : (xs buf : List ℕ) (n : ℕ) → length xs ≡ n → write_all_at xs buf n ≡ xs ++ buf
unfolding write_all_at
write_all_at-end xs buf n e =
    ap (λ t. t ++ (buf ++ drop (n + length buf) xs))
      (take-append n xs (replicate (n - length xs) 0) e)
    ∙ ap (λ t. xs ++ (buf ++ t)) (drop_all (n + length buf) xs (omega arith))
    ∙ ap (λ t. xs ++ t) (append-nil buf)
