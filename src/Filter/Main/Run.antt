-- ===== src/Filter/Main/Run.antt =====
-- The whole program: the file that is written holds the filtered image.
use semestr.Prelude.{
  ℕ, zero, suc, ◌+◌, ◌*◌, ◌≤◌, ◌<◌, ◌≡◌, refl, ◌∙◌, ap, sym, arith, Option, some, List, [], ◌∷◌,
  ◌++◌, length, length-append,
}
use semestr.Prelude.Int.{ℤ, pos, int_limit}
use semestr.CString.{Text, atoi}
use semestr.CString.Decimal.{print_int}
use semestr.Filter.{Doubles, Globals, pixel_of, cells}
use semestr.Filter.Image.{Image, parse_image, Weights, parse_filter, print_row, write_to_file}
use semestr.Filter.Image.RoundTrip.{parse_image-write_to_file}
use semestr.Filter.Main.{writes, globals, do_some_work, filter_main}
use semestr.Filter.Threads.{AllThreads}
use semestr.Filter.Waiting.{count, run-finishes}

length-print_row :
    (k n j : ℕ) (row : ℕ → ℤ)
    → ((a : ℕ) → j ≤ a → a < j + n → length (print_int (row a)) ≤ k)
    → length (print_row n j row) ≤ n * (k + 1)
unfolding print_row
length-print_row k zero j row h = omega arith
length-print_row k (suc n) j row h = omega (
  arith,
  length-append (print_int (row j)) (b' ' ∷ print_row n (j + 1) row),
  h j (omega arith) (omega arith),
  length-print_row k n (j + 1) row (λ a p q. h a (omega arith) (omega arith)),
)

-- A file that `parseImage` reads back as the filtered image.
abbrev pub IsFiltered : {D : Type 0} → Doubles D → Globals D → Text → Type 0
IsFiltered d g file =
    (pixels : ℕ → ℕ → ℤ) × (parse_image file
      ≡ some (record { width = pos g.width; height = pos g.height; pixels = pixels }))
    × ((i j : ℕ) → i < g.height → j < g.width → pixel_of d g (i + 1) (j + 1) ≡ some (pixels i j))

module _ {D : Type 0} (d : Doubles D) (w h : ℕ) (input : ℕ → ℕ → ℤ) where
  abbrev image : Image
  image = record { width = pos w; height = pos h; pixels = input }

  do_some_work-IsFiltered :
      (n k : ℕ) (weights : Weights D) (schedule : List ℕ) (output : Text)
      → 0 < n
      → 0 < w
      → length (print_int (pos w) ++ b' ' ∷ print_int (pos h)) ≤ 8
      → w * (k + 1) ≤ 126
      → n * w < int_limit
      → ((i j : ℕ) (v : ℤ)
          → i < h
          → j < w
          → pixel_of d (globals (pos n) image weights) (i + 1) (j + 1) ≡ some v
          → length (print_int v) ≤ k)
      → AllThreads n schedule
      → ((s : ℕ) → s < n → length (cells (globals (pos n) image weights) s) < count s schedule)
      → (file : Text) × (do_some_work d (globals (pos n) image weights) image schedule output
          ≡ some (writes output file))
        × IsFiltered d (globals (pos n) image weights) file
  unfolding do_some_work globals
  do_some_work-IsFiltered n k weights schedule output p c short narrow fits small all enough =
      let (s, e, done, filtered) =
        run-finishes d (globals (pos n) image weights) schedule p fits all enough in
      let (pixels, f, same) = parse_image-write_to_file w h s.output c short (λ x lt. omega (
        arith,
        narrow,
        length-print_row k w 0 (s.output x) (λ a q r.
            small x a (s.output x a) lt (omega (arith, r)) (filtered x a lt (omega (arith, r)))),
      )) in
      (
        write_to_file (record { width = pos w; height = pos h; pixels = s.output }),
        rw (do_some_work, e, done) refl,
        (pixels, f, λ i j q r. filtered i j q r ∙ ap some (sym (same i j q r))),
      )

  -- With four arguments, a number of threads above 0 whose product with the width is in the range of
  -- an `int`, an image of at least one column whose sizes' line
  -- has at most 8 bytes, and a filter; where a filtered pixel is written with at most k bytes and
  -- a row of such pixels with at most 126: after every order of steps in which each thread takes one
  -- step more than it has pixels, the program has written a file that `parseImage` reads back as
  -- an image of the same sizes, each pixel with its filtered value.
  pub filter_main-IsFiltered :
      (scan : Text → Option D) (files : Text → Option Text)
      (threads from_file filter_file output image_text filter_text : Text) (n k : ℕ)
      (weights : Weights D) (schedule : List ℕ)
      → atoi threads ≡ pos n
      → files from_file ≡ some image_text
      → parse_image image_text ≡ some image
      → files filter_file ≡ some filter_text
      → parse_filter scan d.zero_double filter_text ≡ some weights
      → 0 < n
      → 0 < w
      → length (print_int (pos w) ++ b' ' ∷ print_int (pos h)) ≤ 8
      → w * (k + 1) ≤ 126
      → n * w < int_limit
      → ((i j : ℕ) (v : ℤ)
          → i < h
          → j < w
          → pixel_of d (globals (pos n) image weights) (i + 1) (j + 1) ≡ some v
          → length (print_int v) ≤ k)
      → AllThreads n schedule
      → ((s : ℕ) → s < n → length (cells (globals (pos n) image weights) s) < count s schedule)
      → (file : Text) × (filter_main d scan files schedule
            (threads ∷ from_file ∷ filter_file ∷ output ∷ [])
          ≡ some (writes output file))
        × IsFiltered d (globals (pos n) image weights) file
  unfolding filter_main
  filter_main-IsFiltered scan files threads from_file filter_file output image_text filter_text n k
        weights schedule number opened parsed filter_opened filter_parsed p c short narrow fits
        small all enough =
      let (file, e, filtered) =
        do_some_work-IsFiltered n k weights schedule output p c short narrow fits small all
          enough in
      (file, rw (filter_main, opened, parsed, filter_opened, filter_parsed, number) e, filtered)
