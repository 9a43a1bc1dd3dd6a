-- ===== src/Records/Bytes.antt =====
-- A file of records of one size, as SysOpy/lab2/src/zad1/zad1.c reads and writes it.
use semestr.Prelude.{
  ℕ, zero, suc, ◌+◌, ◌-◌, ◌≤◌, ◌≡◌, refl, ◌∙◌, sym, ap, List, [], ◌∷◌, ◌++◌, append-nil,
  append_assoc, length, length-append, take, drop, arith,
}
use semestr.Records.{Bytes, read_at, write_at}

-- The bytes of a list of records.
abbrev pub bytes : List Bytes → Bytes
bytes [] = []
bytes (r ∷ rs) = r ++ bytes rs

abbrev pub AllOf : ℕ → List Bytes → Type 0
AllOf size [] = Unit {0}
AllOf size (r ∷ rs) = (length r ≡ size) × AllOf size rs

pub bytes-append : (rs ss : List Bytes) → bytes (rs ++ ss) ≡ bytes rs ++ bytes ss
bytes-append [] ss = refl
bytes-append (r ∷ rs) ss = rw (bytes-append rs ss) (sym (append_assoc r (bytes rs) (bytes ss)))

take-append : (xs ys : Bytes) → take (length xs) (xs ++ ys) ≡ xs
take-append [] ys = refl
take-append (x ∷ xs) ys = ap (◌∷◌ x) (take-append xs ys)

drop-append : (xs ys : Bytes) → drop (length xs) (xs ++ ys) ≡ ys
drop-append [] ys = refl
drop-append (x ∷ xs) ys = drop-append xs ys

drop-length : (xs : Bytes) (n : ℕ) → length xs ≤ n → drop n xs ≡ []
drop-length [] zero h = refl
drop-length [] (suc n) h = refl
drop-length (x ∷ xs) zero h = absurd (omega arith)
drop-length (x ∷ xs) (suc n) h = drop-length xs n (omega arith)

-- A read of exactly the bytes of `r`, into a buffer of their number.
pub read_at_lem :
    (before r after buffer : Bytes)
    → length r ≡ length buffer
    → read_at (before ++ (r ++ after)) (length before) (length r) buffer ≡ r
unfolding read_at
read_at_lem before r after buffer e =
    rw
      (
        drop-append before (r ++ after),
        take-append r after,
        drop-length buffer (length r) (omega arith),
      )
      (append-nil r)

drop-append_add : (xs ys : Bytes) (n : ℕ) → drop (length xs + n) (xs ++ ys) ≡ drop n ys
drop-append_add [] ys n = ap (λ k. drop k ys) {x = 0 + n} {y = n} (omega arith)
drop-append_add (x ∷ xs) ys n =
    ap (λ k. drop k (x ∷ (xs ++ ys))) {x = suc (length xs) + n} {y = suc (length xs + n)}
      (omega arith)
    ∙ drop-append_add xs ys n

-- A write over exactly the bytes of `r`.
pub write_at_lem :
    (before r after new : Bytes)
    → length r ≡ length new
    → write_at (before ++ (r ++ after)) (length before) new ≡ before ++ (new ++ after)
unfolding write_at
write_at_lem before r after new e =
    rw
      (
        take-append before (r ++ after),
        no_gap,
        drop-append_add before (r ++ after) (length new),
        ← e,
        drop-append r after,
      )
      refl
  where
    no_gap : length before - length (before ++ (r ++ after)) ≡ 0
    no_gap = omega (arith, length-append before (r ++ after))
