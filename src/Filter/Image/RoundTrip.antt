-- ===== src/Filter/Image/RoundTrip.antt =====
-- What `writeToFile` writes is what `parseImage` reads, where the buffers of `fgets` hold the lines.
use semestr.Prelude.{
  ℕ, zero, suc, ◌+◌, ◌*◌, ◌≤◌, ◌<◌, ◌≡◌, refl, sym, subst, ◌∙◌, arith, true, some, [], ◌∷◌, ◌++◌,
  append_assoc, length, length-append,
}
use semestr.Prelude.Int.{ℤ, pos}
use semestr.CString.{Text, strtok, atoi}
use semestr.CString.Decimal.{print_int, atoi-print_int, print_int-cons}
use semestr.CString.Lines.{newline, Plain-append}
use semestr.CString.Reading.{fgets-line}
use semestr.CString.Tokens.{Plain}
use semestr.Filter.Image.{
  blank, next_line, read_rows, parse_image, parse_rows, print_row, print_rows, write_to_file,
}
use native.Mathlib.Nat.{mul-le-mul_right}
use semestr.Filter.Image.Places.{Filled}
use semestr.Filter.Image.Rows.{blank-digit, newline-digit, strtok-print_int, read_rows-print_rows}

next_line-line :
    (t rest buf : Text)
    → Plain newline t
    → length t ≤ 8
    → next_line buf (t ++ 10 ∷ rest) ≡ (t ++ newline, rest)
unfolding next_line
next_line-line t rest buf p h = rw (fgets-line 10 t rest p (omega arith), next_line) refl

print_int-Plain : (x : ℤ) → Plain newline (print_int x)
print_int-Plain x =
    let (b, bs, e, plain) = print_int-cons newline x newline-digit refl in
    subst (Plain newline) (sym e) plain

-- The line of the sizes.
abbrev sizes : ℕ → ℕ → Text
sizes w h = print_int (pos w) ++ b' ' ∷ print_int (pos h)

sizes-Plain : (w h : ℕ) → Plain newline (sizes w h)
sizes-Plain w h =
    Plain-append newline (print_int (pos w)) (b' ' ∷ print_int (pos h)) (print_int-Plain (pos w))
      (refl, print_int-Plain (pos h))

sizes-strtok :
    (w h : ℕ)
    → strtok blank (sizes w h ++ newline) ≡ some (print_int (pos w), print_int (pos h) ++ newline)
sizes-strtok w h =
    rw (append_assoc (print_int (pos w)) (b' ' ∷ print_int (pos h)) newline)
      (strtok-print_int blank (pos w) b' ' (print_int (pos h) ++ newline) blank-digit refl refl)

parse_image-lines :
    (w h : ℕ) (lines : Text)
    → length (sizes w h) ≤ 8
    → parse_image ((b'P' ∷ b'2' ∷ []) ++ 10 ∷ (sizes w h ++ 10 ∷ b'2' ∷ b'5' ∷ b'5' ∷ 10 ∷ lines))
      ≡ parse_rows (pos w) (pos h) lines
unfolding parse_image
parse_image-lines w h lines short =
    rw
      (
        parse_image,
        next_line-line (sizes w h) (b'2' ∷ b'5' ∷ b'5' ∷ 10 ∷ lines) (b'P' ∷ b'2' ∷ newline)
            (sizes-Plain w h) short,
        sizes-strtok w h,
        strtok-print_int newline (pos h) 10 [] newline-digit refl refl,
      )
      (λ i. parse_rows (atoi-print_int (pos w) i) (atoi-print_int (pos h) i) lines)

length-print_rows : (n i w : ℕ) (rows : ℕ → ℕ → ℤ) → n ≤ length (print_rows n i w rows)
unfolding print_rows
length-print_rows zero i w rows = omega arith
length-print_rows (suc n) i w rows = omega (
  arith,
  length-append (print_row w 0 (rows i)) (10 ∷ print_rows n (i + 1) w rows),
  length-print_rows n (i + 1) w rows,
)

place_below : (w h i j : ℕ) → i < h → j < w → i * w + j < h * w
place_below w h i j p q =
    let under : suc i * w ≤ h * w = mul-le-mul_right w p in omega (arith, under)

-- Where the line of the sizes has at most 8 bytes and each row at most 126, each without its newline, and
-- there is a column: what `writeToFile` writes is read back by `parseImage`, without a fault, as an
-- image of the same sizes and pixels.
pub parse_image-write_to_file :
    (w h : ℕ) (out : ℕ → ℕ → ℤ)
    → 0 < w
    → length (print_int (pos w) ++ b' ' ∷ print_int (pos h)) ≤ 8
    → ((x : ℕ) → x < h → length (print_row w 0 (out x)) ≤ 126)
    → (pixels : ℕ → ℕ → ℤ) × (parse_image
          (write_to_file (record { width = pos w; height = pos h; pixels = out }))
        ≡ some (record { width = pos w; height = pos h; pixels = pixels }))
      × ((i j : ℕ) → i < h → j < w → pixels i j ≡ out i j)
unfolding write_to_file Filled parse_rows
parse_image-write_to_file w h out some_column short rows =
    let lines = print_rows h 0 w out in
    let (pixels, e, filled) =
      read_rows-print_rows w h out some_column (suc (length lines)) h 0 (λ i j. pos 0)
        (omega (arith, length-print_rows h 0 w out)) (omega arith)
        (λ x lt. omega (arith, rows x lt)) (λ a b lt below. absurd (omega arith)) in
    let start : 0 * w ≡ 0 = omega arith in
    let found =
      subst
        (λ k.
          read_rows (λ t old. atoi t) (λ i. true) w h (suc (length lines)) k lines (λ i j. pos 0)
          ≡ some pixels)
        start e in
    (
      pixels,
      parse_image-lines w h lines short ∙ rw (parse_rows, found) refl,
      λ i j p q. filled i j q (place_below w h i j p q),
    )
