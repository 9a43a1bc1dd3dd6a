-- ===== src/Filter/Image/Rows.antt =====
-- The lines that `writeToFile` writes for the rows, as the loop of `parseImage` reads them.
use semestr.Prelude.{
  ℕ, zero, suc, ◌+◌, ◌*◌, ◌≤◌, ◌<◌, ◌≡◌, refl, sym, subst, ap, ◌∙◌, arith, true, false, none, some,
  List, [], ◌∷◌, ◌++◌, append_assoc, length, length-append,
}
use semestr.Prelude.Int.{ℤ}
use semestr.CString.{Text, has, strtok, atoi, is_digit}
use semestr.CString.Decimal.{print_int, atoi-print_int, print_int-cons}
use semestr.CString.Lines.{newline, Plain-append}
use semestr.CString.Reading.{fgets, fgets-line}
use semestr.CString.Tokens.{Plain, strtok-token}
use semestr.CString.Words.{words, tokens}
use semestr.Filter.Image.{blank, blanks, store_words, store_line, read_rows, print_row, print_rows}
use native.Mathlib.Nat.{mul-le-mul_right}
use semestr.Filter.Image.Places.{Filled, Spells, place-div, place-mod, store_words-Filled}

-- The words of a row.
printed : ℕ → ℕ → (ℕ → ℤ) → List Text
printed zero j row = []
printed (suc n) j row = print_int (row j) ∷ printed n (j + 1) row

length-printed : (n j : ℕ) (row : ℕ → ℤ) → length (printed n j row) ≡ n
unfolding printed
length-printed zero j row = refl
length-printed (suc n) j row = ap suc (length-printed n (j + 1) row)

-- `" \n"` has no digit and no minus.
blanks-digit : (c : ℕ) → is_digit c ≡ true → has blanks c ≡ false
blanks-digit c e = ground arith

pub blank-digit : (c : ℕ) → is_digit c ≡ true → has blank c ≡ false
blank-digit c e = ground arith

pub newline-digit : (c : ℕ) → is_digit c ≡ true → has newline c ≡ false
newline-digit c e = ground arith

-- A number before a delimiter is a token.
pub strtok-print_int :
    (d : Text) (x : ℤ) (c : ℕ) (rest : Text)
    → ((c : ℕ) → is_digit c ≡ true → has d c ≡ false)
    → has d b'-' ≡ false
    → has d c ≡ true
    → strtok d (print_int x ++ c ∷ rest) ≡ some (print_int x, rest)
strtok-print_int d x c rest h m is =
    let (b, bs, e, plain) = print_int-cons d x h m in rw e (strtok-token d b bs c rest plain is)

strtok-newline : strtok blanks newline ≡ none
unfolding strtok
strtok-newline = refl

tokens-print_row :
    (fuel n j : ℕ) (row : ℕ → ℤ)
    → n < fuel
    → tokens fuel blanks (print_row n j row ++ newline) ≡ some (printed n j row)
unfolding tokens print_row printed
tokens-print_row zero n j row h = absurd (omega arith)
tokens-print_row (suc fuel) zero j row h = rw (strtok-newline, tokens) refl
tokens-print_row (suc fuel) (suc n) j row h =
    rw
      (
        append_assoc (print_int (row j)) (b' ' ∷ print_row n (j + 1) row) newline,
        tokens,
        strtok-print_int blanks (row j) b' ' (print_row n (j + 1) row ++ newline) blanks-digit refl
            refl,
        tokens-print_row fuel n (j + 1) row (omega arith),
      )
      refl

pub length-print_row : (n j : ℕ) (row : ℕ → ℤ) → n ≤ length (print_row n j row)
unfolding print_row
length-print_row zero j row = omega arith
length-print_row (suc n) j row = omega (
  arith,
  length-append (print_int (row j)) (b' ' ∷ print_row n (j + 1) row),
  length-print_row n (j + 1) row,
)

words-print_row :
    (n j : ℕ) (row : ℕ → ℤ) → words blanks (print_row n j row ++ newline) ≡ some (printed n j row)
unfolding words
words-print_row n j row =
    tokens-print_row (suc (length (print_row n j row ++ newline))) n j row
      (omega (arith, length-append (print_row n j row) newline, length-print_row n j row))

print_row-Plain : (n j : ℕ) (row : ℕ → ℤ) → Plain newline (print_row n j row)
unfolding print_row
print_row-Plain zero j row = tt
print_row-Plain (suc n) j row =
    let (b, bs, e, plain) = print_int-cons newline (row j) newline-digit refl in
    Plain-append newline (print_int (row j)) (b' ' ∷ print_row n (j + 1) row)
      (subst (Plain newline) (sym e) plain) (refl, print_row-Plain n (j + 1) row)

fgets_end : fgets 128 [] ≡ none
unfolding fgets
fgets_end = refl

module _ (w h : ℕ) (out : ℕ → ℕ → ℤ) (fits : 0 < w) where
  printed-Spells : (n x j : ℕ) → j + n ≤ w → Spells w h out (x * w + j) (printed n j (out x))
  unfolding printed Spells
  printed-Spells zero x j le = tt
  printed-Spells (suc n) x j le =
      let next : x * w + (j + 1) ≡ x * w + j + 1 = omega arith in
      (
        atoi-print_int (out x j)
            ∙ rw (place-div w h out x j (omega arith), place-mod w h out x j (omega arith)) refl,
        subst (λ i. Spells w h out i (printed n (j + 1) (out x))) next
            (printed-Spells n x (j + 1) (omega arith)),
      )

  store_line_lem :
      (i : ℕ) (line : Text) (ts : List Text) (rows : ℕ → ℕ → ℤ)
      → words blanks line ≡ some ts
      → 0 < length ts
      → store_line (λ t old. atoi t) (λ i. true) w h i line rows
        ≡ store_words (λ t old. atoi t) (λ i. true) w h i ts rows
  unfolding store_line
  store_line_lem i line [] rows e p = absurd (omega arith)
  store_line_lem i line (t ∷ ts) rows e p = rw (store_line, e) refl

  -- A row in its place.
  store_line-print_row :
      (x : ℕ) (rows : ℕ → ℕ → ℤ)
      → x < h
      → Filled w h out (x * w) rows
      → (stored : ℕ → ℕ → ℤ) × (store_line
            (λ t old. atoi t)
            (λ i. true)
            w
            h
            (x * w)
            (print_row w 0 (out x) ++ newline)
            rows
          ≡ some (suc x * w, stored))
        × Filled w h out (suc x * w) stored
  store_line-print_row x rows lt old =
      let ts = printed w 0 (out x) in
      let size = length-printed w 0 (out x) in
      let end : x * w + length ts ≡ suc x * w = rw size (omega arith) in
      let start : x * w + 0 ≡ x * w = omega arith in
      let inside : suc x * w ≤ h * w = mul-le-mul_right w lt in
      let (stored, e, filled) =
        store_words-Filled w h out (λ i. true) ts (x * w) rows fits (omega (arith, inside, end))
          (subst (λ i. Spells w h out i ts) start (printed-Spells w x 0 (omega arith))) old in
      (
        stored,
        store_line_lem (x * w) (print_row w 0 (out x) ++ newline) ts rows
              (words-print_row w 0 (out x)) (omega (arith, size))
            ∙ e
            ∙ rw end refl,
        subst (λ i. Filled w h out i stored) end filled,
      )

  pub read_rows-print_rows :
      (fuel n x : ℕ) (rows : ℕ → ℕ → ℤ)
      → n < fuel
      → x + n ≡ h
      → ((x : ℕ) → x < h → length (print_row w 0 (out x)) + 2 ≤ 128)
      → Filled w h out (x * w) rows
      → (all : ℕ → ℕ → ℤ) × (read_rows
            (λ t old. atoi t)
            (λ i. true)
            w
            h
            fuel
            (x * w)
            (print_rows n x w out)
            rows
          ≡ some all)
        × Filled w h out (h * w) all
  unfolding read_rows print_rows
  read_rows-print_rows zero n x rows lt sum short old = absurd (omega arith)
  read_rows-print_rows (suc fuel) zero x rows lt sum short old =
      let same : x ≡ h = omega arith in
      (rows, rw (fgets_end, read_rows) refl, subst (λ k. Filled w h out (k * w) rows) same old)
  read_rows-print_rows (suc fuel) (suc n) x rows lt sum short old =
      let line =
        fgets-line 128 (print_row w 0 (out x)) (print_rows n (x + 1) w out)
          (print_row-Plain w 0 (out x)) (short x (omega arith)) in
      let (stored, e, filled) = store_line-print_row x rows (omega arith) old in
      let next : suc x ≡ x + 1 = omega arith in
      let (all, f, done) =
        read_rows-print_rows fuel n (x + 1) stored (omega arith) (omega arith) short
          (subst (λ k. Filled w h out (k * w) stored) next filled) in
      (all, rw (line, read_rows, e, next) f, done)
