-- ===== src/Records/Program.antt =====
-- `parse` and `generate` of SysOpy/lab2/src/zad1/zad1.c, over the files by their names. `none` is undefined: a
-- comparison with the null pointer after the last argument, or a buffer without the byte that is
-- read or written. Files can be created and written, and a file that is not there cannot be read.
pub mod Commands
pub mod Runs
use semestr.Prelude.{
  ℕ, zero, suc, ◌+◌, ◌*◌, ◌%◌, Bool, true, false, not, ◌&&◌, ◌||◌, Option, none, some, List, [],
  ◌∷◌, ◌++◌, length, ltb, if◌then◌else◌, ◌>>=◌,
}
use semestr.Prelude.Int.{ℤ, pos, negsuc, pos_part, int_limit, fits_int, ◌*ℤ◌}
use semestr.CString.{Text, same_text, atoi}
use semestr.Records.{Bytes, sort, copy_loop}

abbrev pub Files : Type 0
Files = Text → Option Bytes

abbrev pub put : Text → Bytes → Files → Files
put name bytes files other = if same_text other name then some bytes else files other

-- How the program ends: with the help, with the error of a file that does not open, or without a message.
pub data Message : Type 0 where
  help opening_error quiet : Message

pub record Outcome : Type 0 where
  pub message : Message
  pub files : Files

-- `rand` gives the numbers of its calls, from call `k` on.
unfoldable pub generate_random_string : (ℕ → ℕ) → ℕ → ℕ → Bytes
generate_random_string rand k zero = []
generate_random_string rand k (suc n) = rand k % 256 ∷ generate_random_string rand (k + 1) n

-- The records of `generate`, with the rounds that are left.
unfoldable pub generated : (ℕ → ℕ) → ℕ → ℕ → ℕ → List Bytes
unfolding generate_random_string
generated rand k zero size = []
generated rand k (suc n) size =
    generate_random_string rand k size ∷ generated rand (k + size) n size

-- What is written one after the other.
abbrev pub written : List Bytes → Bytes
written [] = []
written (r ∷ rs) = r ++ written rs

unfoldable pub generate : (ℕ → ℕ) → Text → ℤ → ℤ → Files → Option Outcome
unfolding generated
generate rand name (pos (suc n)) (negsuc size) files = none
generate rand name number size files = some (record {
  message = quiet;
  files = put name (written (generated rand 0 (pos_part number) (pos_part size))) files;
})

-- `sort`, whose loop reads the first byte of each buffer where there are two records, and whose
-- offsets are products of `int`s.
unfoldable pub sort_file : Text → ℤ → ℤ → Files → Option Outcome
unfolding sort
sort_file name number size files =
    let failed : Outcome = record { message = opening_error; files = files } in
    let empty = ltb 1 (pos_part number) && not (ltb 0 (pos_part size)) in
    let undefined = empty || not (ltb (pos_part number * pos_part size) int_limit) in
    elim (files name) [
      | none ↦ some failed
      | some file ↦
          if undefined
          then none
          else some (record {
            message = quiet;
            files = put name (sort (pos_part number) (pos_part size) file) files;
          })
    ]

-- `copy`: the destination is made empty before either handler is tested, and before the source is read.
unfoldable pub copy_file : Text → Text → ℤ → ℤ → ℤ → Files → Option Outcome
unfolding copy_loop
copy_file source destination how_many (negsuc buffer_size) size files = none
copy_file source destination how_many (pos buffer_size) size files =
    let emptied = put destination [] files in
    let failed : Outcome = record { message = opening_error; files = emptied } in
    elim (files source) [
      | none ↦ some failed
      | some before ↦ do
        bytes ← emptied source
        dest ← copy_loop (suc (length bytes)) buffer_size bytes (pos_part (how_many *ℤ size)) []
        let done : Outcome = record { message = quiet; files = put destination dest emptied }
        if fits_int (how_many *ℤ size) then some done else none
    ]

abbrev pub generate_word : Text
generate_word = b'g' ∷ b'e' ∷ b'n' ∷ b'e' ∷ b'r' ∷ b'a' ∷ b't' ∷ b'e' ∷ []

abbrev pub sort_word : Text
sort_word = b's' ∷ b'o' ∷ b'r' ∷ b't' ∷ []

abbrev pub copy_word : Text
copy_word = b'c' ∷ b'o' ∷ b'p' ∷ b'y' ∷ []

-- "sys" or "lib"
unfoldable pub is_mode : Text → Bool
is_mode mode = same_text mode (b's' ∷ b'y' ∷ b's' ∷ []) || same_text mode (b'l' ∷ b'i' ∷ b'b' ∷ [])

unfoldable pub parse_generate : (ℕ → ℕ) → List Text → Files → Option Outcome
unfolding generate
parse_generate rand (name ∷ number ∷ size ∷ []) files =
    generate rand name (atoi number) (atoi size) files
parse_generate rand args files = some (record { message = help; files = files })

unfoldable pub parse_sort : List Text → Files → Option Outcome
unfolding sort_file is_mode
parse_sort (name ∷ number ∷ size ∷ mode ∷ []) files =
    if is_mode mode
    then sort_file name (atoi number) (atoi size) files
    else some (record { message = help; files = files })
parse_sort args files = some (record { message = help; files = files })

unfoldable pub parse_copy : List Text → Files → Option Outcome
unfolding copy_file is_mode
parse_copy (source ∷ destination ∷ how_many ∷ buffer ∷ size ∷ mode ∷ []) files =
    if is_mode mode
    then copy_file source destination (atoi how_many) (atoi buffer) (atoi size) files
    else some (record { message = help; files = files })
parse_copy args files = some (record { message = help; files = files })

-- `main`, from the arguments after the program's name, with the help where `parse` returns -1.
unfoldable pub parse : (ℕ → ℕ) → List Text → Files → Option Outcome
unfolding parse_generate parse_sort parse_copy
parse rand [] files = none
parse rand (command ∷ args) files =
    if same_text command generate_word
    then parse_generate rand args files
    else if same_text command sort_word
    then parse_sort args files
    else if same_text command copy_word
    then parse_copy args files
    else some (record { message = help; files = files })
