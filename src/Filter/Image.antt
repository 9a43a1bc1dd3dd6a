-- ===== src/Filter/Image.antt =====
-- The files of SysOpy/lab8/src/zad1/main.c: `parseImage`, `parseFilter` and `writeToFile`, over the bytes of a
-- file, which hold no NUL. `none` is a read of a null pointer, an access outside the rows or a division
-- by zero. What `calloc` gives for a negative size is never used without one.
mod Places
mod Rows
pub mod RoundTrip
use semestr.Prelude.{
  ℕ, zero, suc, ◌+◌, ◌*◌, ◌/◌, ◌%◌, Bool, true, false, ◌&&◌, Option, none, some, List, [], ◌∷◌,
  ◌++◌, length, ltb, ◌==◌, if◌then◌else◌, ◌>>=◌,
}
use semestr.Prelude.Int.{ℤ, pos, pos_part, neg_part}
use semestr.CString.{Text, strtok, atoi}
use semestr.CString.Decimal.{print_int}
use semestr.CString.Lines.{newline}
use semestr.CString.Reading.{fgets}
use semestr.CString.Words.{words}
use semestr.Filter.{set_cell}

-- `" "` and `" \n"`
abbrev pub blank : Text
blank = b' ' ∷ []

abbrev pub blanks : Text
blanks = b' ' ∷ 10 ∷ []

-- `fgets(buf, 10, file)`, with what `buf` holds then and what is left of the file.
unfoldable pub next_line : Text → Text → Text × Text
unfolding fgets
next_line buf file = elim (fgets 10 file) [ none ↦ (buf, file) | some r ↦ r ]

module _ {A : Type 0} (value : Text → A → A) (more : ℕ → Bool) (w h : ℕ) where
  -- The numbers of a line, stored from place `i` on, in rows of `w`.
  unfoldable pub store_words : ℕ → List Text → (ℕ → ℕ → A) → Option (ℕ × (ℕ → ℕ → A))
  store_words i [] rows = some (i, rows)
  store_words i (t ∷ ts) rows =
      let v = value t (rows (i / w) (i % w)) in
      let rest = store_words (i + 1) ts (set_cell (i / w) (i % w) v rows) in
      if ltb 0 w && ltb (i / w) h then rest else none

  -- The body of the loop over the lines: the first `strtok` has to find a number.
  unfoldable pub store_line : ℕ → Text → (ℕ → ℕ → A) → Option (ℕ × (ℕ → ℕ → A))
  unfolding store_words
  store_line i line rows = words blanks line >>= λ ts. elim ts [
    | [] ↦ none
    | t ∷ others ↦ store_words i (t ∷ others) rows
  ]

  -- The loop over the lines, on fuel.
  unfoldable pub read_rows : ℕ → ℕ → Text → (ℕ → ℕ → A) → Option (ℕ → ℕ → A)
  unfolding store_line
  read_rows zero i file rows = none
  read_rows (suc fuel) i file rows = elim (fgets 128 file) [
    | none ↦ some rows
    | some (line, rest) ↦ elim (more i) [
      | false ↦ some rows
      | true ↦ do (j, stored) ← store_line i line rows; read_rows fuel j rest stored
    ]
  ]

-- WIDTH, HEIGHT and the rows.
pub record Image : Type 0 where
  pub width : ℤ
  pub height : ℤ
  pub pixels : ℕ → ℕ → ℤ

-- The rows behind the sizes.
unfoldable pub parse_rows : ℤ → ℤ → Text → Option Image
unfolding read_rows
parse_rows w h lines = do
  pixels ←
      read_rows (λ t old. atoi t) (λ i. true) (pos_part w) (pos_part h) (suc (length lines)) 0 lines
        (λ i j. pos 0)
  some (record { width = w; height = h; pixels = pixels })

unfoldable pub parse_image : Text → Option Image
unfolding next_line parse_rows
parse_image file =
    let (first, after_first) = next_line [] file in
    let (sizes, after_sizes) = next_line first after_first in
    let (last, lines) = next_line sizes after_sizes in
    do
      (columns, rest) ← strtok blank sizes
      (rows, end) ← strtok newline rest
      parse_rows (atoi columns) (atoi rows) lines

-- FILTER_SIZE and the rows.
pub record Weights (D : Type 0) : Type 0 where
  pub filter_size : ℤ
  pub filter : ℕ → ℕ → D

-- With what `sscanf` reads from a text for `%lf`, and with `0` as a double. FILTER_SIZE*FILTER_SIZE is
-- the square of its absolute value.
unfoldable pub parse_filter : {D : Type 0} → (Text → Option D) → D → Text → Option (Weights D)
unfolding next_line read_rows
parse_filter scan zero_double file =
    let (buf, lines) = next_line [] file in
    let size = atoi buf in
    let side = pos_part size + neg_part size in
    do
      filter ←
          read_rows (λ t old. elim (scan t) [ none ↦ old | some v ↦ v ]) (λ i. ltb i (side * side))
            (pos_part size) (pos_part size) (suc (length lines)) 0 lines (λ i j. zero_double)
      some (record { filter_size = size; filter = filter })

-- The loops of `writeToFile`, with the rounds that are left.
unfoldable pub print_row : ℕ → ℕ → (ℕ → ℤ) → Text
unfolding print_int
print_row zero j row = []
print_row (suc n) j row = print_int (row j) ++ b' ' ∷ print_row n (j + 1) row

unfoldable pub print_rows : ℕ → ℕ → ℕ → (ℕ → ℕ → ℤ) → Text
unfolding print_row
print_rows zero i w rows = []
print_rows (suc n) i w rows = print_row w 0 (rows i) ++ 10 ∷ print_rows n (i + 1) w rows

-- What `writeToFile` leaves in the file.
unfoldable pub write_to_file : Image → Text
unfolding print_rows
write_to_file image =
    let sizes = print_int image.width ++ b' ' ∷ print_int image.height in
    let rows = print_rows (pos_part image.height) 0 (pos_part image.width) image.pixels in
    (b'P' ∷ b'2' ∷ []) ++ 10 ∷ (sizes ++ 10 ∷ b'2' ∷ b'5' ∷ b'5' ∷ 10 ∷ rows)
