-- ===== src/Records/Program/Commands.antt =====
-- The commands that `parse` of SysOpy/lab2/src/zad1/zad1.c starts, each by itself.
use semestr.Prelude.{
  ℕ, zero, suc, ◌+◌, ◌*◌, ◌≡◌, refl, ap, ◌∙◌, arith, Bool, true, false, not, ◌&&◌, ◌||◌, ◌<◌, some,
  List, [], ◌∷◌, length, take, ltb, if◌then◌else◌,
}
use semestr.Prelude.Int.{pos, pos_part, int_limit, fits_int, ◌*ℤ◌}
use semestr.CString.{Text, same_text, atoi}
use semestr.CString.Tokens.{same_text_refl}
use semestr.Records.{Bytes, sort, copy_loop}
use semestr.Records.Bytes.{bytes, AllOf}
use semestr.Records.Copy.{copy_loop_lem}
use semestr.Records.Program.{
  Files, put, quiet, generate_random_string, generated, written, generate, sort_file, copy_file,
  generate_word, sort_word, copy_word, is_mode, parse_generate, parse_sort, parse_copy, parse,
}

length-generate_random_string :
    (rand : ℕ → ℕ) (k n : ℕ) → length (generate_random_string rand k n) ≡ n
unfolding generate_random_string
length-generate_random_string rand k zero = refl
length-generate_random_string rand k (suc n) = ap suc (length-generate_random_string rand (k + 1) n)

pub generated-AllOf : (rand : ℕ → ℕ) (k n size : ℕ) → AllOf size (generated rand k n size)
unfolding generated
generated-AllOf rand k zero size = tt
generated-AllOf rand k (suc n) size =
    (length-generate_random_string rand k size, generated-AllOf rand (k + size) n size)

pub length-generated : (rand : ℕ → ℕ) (k n size : ℕ) → length (generated rand k n size) ≡ n
unfolding generated
length-generated rand k zero size = refl
length-generated rand k (suc n) size = ap suc (length-generated rand (k + size) n size)

pub written-bytes : (rs : List Bytes) → written rs ≡ bytes rs
written-bytes [] = refl
written-bytes (r ∷ rs) = rw (written-bytes rs) refl

pub put_self : (name : Text) (b : Bytes) (files : Files) → put name b files name ≡ some b
put_self name b files = rw (same_text_refl name) refl

pos-mul : (a b : ℕ) → pos_part (pos a *ℤ pos b) ≡ a * b
unfolding ◌*ℤ◌
pos-mul a b = ground arith

mul-fits_int : (a b : ℕ) → a * b < int_limit → fits_int (pos a *ℤ pos b) ≡ true
unfolding ◌*ℤ◌
mul-fits_int a b h = ground arith

pub put_other :
    (name other : Text) (b : Bytes) (files : Files)
    → same_text other name ≡ false
    → put name b files other ≡ files other
put_other name other b files e = rw e refl

if_true : {A : Type 0} (b : Bool) (x y : A) → b ≡ true → (if b then x else y) ≡ x
if_true b x y e = rw e refl

-- The three commands, by themselves.
generate_lem :
    (rand : ℕ → ℕ) (name : Text) (files : Files) (n s : ℕ)
    → generate rand name (pos n) (pos s) files
      ≡ some (record { message = quiet; files = put name (written (generated rand 0 n s)) files })
unfolding generate
generate_lem rand name files zero s = refl
generate_lem rand name files (suc n) s = refl

sort_file_lem :
    (name : Text) (files : Files) (n s : ℕ) (file : Bytes)
    → n * suc s < int_limit
    → files name ≡ some file
    → sort_file name (pos n) (pos (suc s)) files
      ≡ some (record { message = quiet; files = put name (sort n (suc s) file) files })
unfolding sort_file
sort_file_lem name files n s file fits found =
    let within : ltb (n * suc s) int_limit ≡ true = ground arith in
    let defined : (ltb 1 n && not (ltb 0 (suc s)) || not (ltb (n * suc s) int_limit)) ≡ false =
      ground (arith, within) in
    rw (sort_file, found, defined) refl

copied :
    (source : Bytes) (b m : ℕ)
    → copy_loop (suc (length source)) (suc b) source m [] ≡ some (take m source)
copied source b m =
    copy_loop_lem (suc (length source)) (suc b) source m [] (omega arith) (omega arith)

copy_file_lem :
    (source destination : Text) (files : Files) (m b s : ℕ) (before file : Bytes)
    → m * s < int_limit
    → files source ≡ some before
    → put destination [] files source ≡ some file
    → copy_file source destination (pos m) (pos (suc b)) (pos s) files
      ≡ some (record {
        message = quiet;
        files = put destination (take (m * s) file) (put destination [] files);
      })
unfolding copy_file
copy_file_lem source destination files m b s before file fits found emptied =
    rw (copy_file, found, emptied, pos-mul m s, mul-fits_int m s fits, copied file b (m * s)) refl

pub parse-generate :
    (rand : ℕ → ℕ) (name number size : Text) (files : Files) (n s : ℕ)
    → atoi number ≡ pos n
    → atoi size ≡ pos s
    → parse rand (generate_word ∷ name ∷ number ∷ size ∷ []) files
      ≡ some (record { message = quiet; files = put name (written (generated rand 0 n s)) files })
unfolding parse parse_generate
parse-generate rand name number size files n s e f =
    (λ i. generate rand name (e i) (f i) files) ∙ generate_lem rand name files n s

pub parse-sort :
    (rand : ℕ → ℕ) (name number size mode : Text) (files : Files) (n s : ℕ) (file : Bytes)
    → atoi number ≡ pos n
    → atoi size ≡ pos (suc s)
    → is_mode mode ≡ true
    → n * suc s < int_limit
    → files name ≡ some file
    → parse rand (sort_word ∷ name ∷ number ∷ size ∷ mode ∷ []) files
      ≡ some (record { message = quiet; files = put name (sort n (suc s) file) files })
unfolding parse parse_sort
parse-sort rand name number size mode files n s file e f known fits found =
    if_true (is_mode mode) (sort_file name (atoi number) (atoi size) files) _ known
    ∙ (λ i. sort_file name (e i) (f i) files)
    ∙ sort_file_lem name files n s file fits found

pub parse-copy :
    (rand : ℕ → ℕ) (source destination how_many buffer size mode : Text) (files : Files) (m b s : ℕ)
    (before file : Bytes)
    → atoi how_many ≡ pos m
    → atoi buffer ≡ pos (suc b)
    → atoi size ≡ pos s
    → is_mode mode ≡ true
    → m * s < int_limit
    → files source ≡ some before
    → put destination [] files source ≡ some file
    → parse rand (copy_word ∷ source ∷ destination ∷ how_many ∷ buffer ∷ size ∷ mode ∷ []) files
      ≡ some (record {
        message = quiet;
        files = put destination (take (m * s) file) (put destination [] files);
      })
unfolding parse parse_copy
parse-copy rand source destination how_many buffer size mode files m b s before file e f g known
      fits found emptied =
    if_true (is_mode mode)
      (copy_file source destination (atoi how_many) (atoi buffer) (atoi size) files) _ known
    ∙ (λ i. copy_file source destination (e i) (f i) (g i) files)
    ∙ copy_file_lem source destination files m b s before file fits found emptied
