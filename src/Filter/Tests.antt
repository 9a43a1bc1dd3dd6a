-- ===== src/Filter/Tests.antt =====
-- Two threads on an image of two rows and three columns, with integers for doubles.
use semestr.Prelude.{
  if◌then◌else◌, ◌++◌, ◌≤◌, ℕ, zero, suc, ◌≡◌, ◌<◌, ◌+◌, refl, arith, Option, some, true, List, [],
  ◌∷◌, length,
}
use semestr.Prelude.Int.{ℤ, pos, ◌+ℤ◌}
use semestr.Filter.{
  set_cell, sum_rows, sum_row, term, cells_of_rows, cells_of_row, first_column, max_width, Doubles,
  Globals, State, start, run, all_finished, pixel_of, cells,
}
use semestr.CString.{Text, same_text, strtok, atoi, signed_value, digits_value}
use semestr.CString.Reading.{fgets}
use semestr.CString.Words.{words, tokens}
use semestr.CString.Decimal.{decimal, digits_from, print_int}
use semestr.Filter.Image.{
  parse_image, write_to_file, print_rows, print_row, Weights, parse_filter, parse_rows, next_line,
  read_rows, store_line, store_words,
}
use semestr.Filter.Image.RoundTrip.{parse_image-write_to_file}
use semestr.Filter.Main.{writes, globals, filter_main}
use semestr.Filter.Main.Run.{IsFiltered, filter_main-IsFiltered}
use semestr.Filter.Threads.{run-filtered}
use semestr.Filter.Waiting.{count, run-finishes}

abbrev integers : Doubles ℤ
integers = record { zero_double = pos 0; add = λ a b. a +ℤ b; scale = λ a b. a; round = λ a. a }

abbrev image : Globals ℤ
image = record {
  width = 3;
  height = 2;
  num_of_threads = 2;
  filter_size = 1;
  input = λ i j. pos (i + j);
  filter = λ i j. pos 1;
}

first_thread_test : cells image 0 ≡ (1, 1) ∷ (2, 1) ∷ []
unfolding cells
first_thread_test = refl

pixel_test : pixel_of integers image 2 3 ≡ some (pos 3)
unfolding pixel_of ◌+ℤ◌
pixel_test = refl

abbrev schedule : List ℕ
schedule = 1 ∷ 0 ∷ 1 ∷ 1 ∷ 0 ∷ 1 ∷ 0 ∷ 1 ∷ []

enough : (s : ℕ) → s < 2 → length (cells image s) < count s schedule
unfolding cells
enough zero h = omega arith
enough (suc zero) h = omega arith
enough (suc (suc n)) h = absurd (omega arith)

run-filtered_example :
    (t : State) × (run integers image (1 ∷ 0 ∷ 1 ∷ []) (start integers image) ≡ some t)
    × (all_finished 2 t.finished ≡ true
        → (i j : ℕ) → i < 2
        → j < 3
        → pixel_of integers image (i + 1) (j + 1) ≡ some (t.output i j))
run-filtered_example =
    run-filtered integers image (1 ∷ 0 ∷ 1 ∷ []) (omega arith) (omega arith)
      (omega arith, (omega arith, (omega arith, tt)))

run-finishes_example :
    (t : State) × (run integers image schedule (start integers image) ≡ some t)
    × (all_finished 2 t.finished ≡ true)
    × ((i j : ℕ) → i < 2 → j < 3 → pixel_of integers image (i + 1) (j + 1) ≡ some (t.output i j))
run-finishes_example =
    run-finishes integers image schedule (omega arith) (omega arith)
      (
        omega arith,
        (
          omega arith,
          (
            omega arith,
            (omega arith, (omega arith, (omega arith, (omega arith, (omega arith, tt))))),
          ),
        ),
      )
      enough

-- One row of two pixels, a filter of one place, and one thread.
abbrev row : ℕ → ℕ → ℤ
row i j = pos (j + 7)

abbrev image_text : Text
image_text =
    b'P' ∷ b'2' ∷ 10 ∷ b'2' ∷ b' ' ∷ b'1' ∷ 10 ∷ b'2' ∷ b'5' ∷ b'5' ∷ 10 ∷ b'7' ∷ b' ' ∷ b'8' ∷ b' '
    ∷ 10 ∷ []

write_to_file_test :
    write_to_file (record { width = pos 2; height = pos 1; pixels = row }) ≡ image_text
unfolding write_to_file print_rows print_row print_int decimal digits_from
write_to_file_test = refl

short_rows : (x : ℕ) → x < 1 → length (print_row 2 0 (row x)) ≤ 126
unfolding print_row print_int decimal digits_from
short_rows x h = omega arith

parse_image-write_to_file_example :
    (pixels : ℕ → ℕ → ℤ) × (parse_image
        (write_to_file (record { width = pos 2; height = pos 1; pixels = row }))
      ≡ some (record { width = pos 2; height = pos 1; pixels = pixels }))
    × ((i j : ℕ) → i < 1 → j < 2 → pixels i j ≡ row i j)
unfolding write_to_file print_rows print_row print_int decimal digits_from
parse_image-write_to_file_example =
    parse_image-write_to_file 2 1 row (omega arith) (omega arith) short_rows

abbrev scan : Text → Option ℤ
scan t = some (atoi t)

abbrev image_name : Text
image_name = b'i' ∷ []

abbrev filter_name : Text
filter_name = b'f' ∷ []

abbrev filter_text : Text
filter_text = b'1' ∷ 10 ∷ b'1' ∷ 10 ∷ []

abbrev files : Text → Option Text
files name = if same_text name image_name then some image_text else some filter_text

abbrev parsed : ℕ → ℕ → ℤ
parsed = set_cell 0 1 (pos 8) (set_cell 0 0 (pos 7) (λ i j. pos 0))

abbrev weights : Weights ℤ
weights = record { filter_size = pos 1; filter = set_cell 0 0 (pos 1) (λ i j. pos 0) }

abbrev small_globals : Globals ℤ
small_globals = globals (pos 1) (record { width = pos 2; height = pos 1; pixels = parsed }) weights

image_parsed_test :
    parse_image image_text ≡ some (record { width = pos 2; height = pos 1; pixels = parsed })
unfolding parse_image strtok atoi signed_value digits_value fgets words tokens read_rows store_line
    store_words next_line parse_rows
image_parsed_test = refl

filter_parsed_test : parse_filter scan (pos 0) filter_text ≡ some weights
unfolding parse_filter strtok atoi signed_value digits_value fgets words tokens read_rows store_line
    store_words next_line
filter_parsed_test = refl

small_pixels :
    (i j : ℕ) (v : ℤ)
    → i < 1
    → j < 2
    → pixel_of integers small_globals (i + 1) (j + 1) ≡ some v
    → length (print_int v) ≤ 1
unfolding pixel_of sum_rows sum_row term globals ◌+ℤ◌ print_int decimal digits_from
small_pixels zero zero v p q e = let same : pos 7 ≡ v = cc in rw (← same) (omega arith)
small_pixels zero (suc zero) v p q e = let same : pos 8 ≡ v = cc in rw (← same) (omega arith)
small_pixels zero (suc (suc j)) v p q e = absurd (omega arith)
small_pixels (suc i) j v p q e = absurd (omega arith)

small_schedule : (s : ℕ) → s < 1 → length (cells small_globals s) < count s (0 ∷ 0 ∷ 0 ∷ [])
unfolding cells cells_of_rows cells_of_row globals first_column max_width
small_schedule zero h = omega arith
small_schedule (suc s) h = absurd (omega arith)

short_sizes : length (print_int (pos 2) ++ b' ' ∷ print_int (pos 1)) ≤ 8
unfolding print_int decimal digits_from
short_sizes = omega arith

one_thread : atoi (b'1' ∷ []) ≡ pos 1
unfolding atoi signed_value digits_value
one_thread = refl

filter_main-IsFiltered_example :
    (file : Text) × (filter_main integers scan files
        (0 ∷ 0 ∷ 0 ∷ [])
        ((b'1' ∷ []) ∷ image_name ∷ filter_name ∷ (b'o' ∷ []) ∷ [])
      ≡ some (writes (b'o' ∷ []) file))
    × IsFiltered integers small_globals file
filter_main-IsFiltered_example =
    filter_main-IsFiltered integers 2 1 parsed scan files (b'1' ∷ []) image_name filter_name
      (b'o' ∷ []) image_text filter_text 1 1 weights (0 ∷ 0 ∷ 0 ∷ []) one_thread refl
      image_parsed_test refl filter_parsed_test (omega arith) (omega arith) short_sizes
      (omega arith) (omega arith) small_pixels (omega arith, (omega arith, (omega arith, tt)))
      small_schedule
