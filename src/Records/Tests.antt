-- ===== src/Records/Tests.antt =====
-- SysOpy/lab2/src/zad1/zad1.c on small files.
use mathlib.Core.List.{Perm}
use semestr.Prelude.Int.{pos}
use semestr.CString.{atoi, signed_value, digits_value}
use semestr.Records.Program.{
  Files, put, Outcome, generated, generate_word, sort_word, copy_word, is_mode, parse,
}
use semestr.Records.Program.Runs.{copy-sort-generate, copy_itself}
use semestr.Prelude.{ℕ, ◌-◌, none, true, take, ◌≡◌, refl, some, List, [], ◌∷◌, ◌++◌, arith}
use semestr.Records.{
  Bytes, read_at, write_at, shift, sort_round, sort_rounds, sort, copy_loop, copy,
}
use semestr.Records.Bytes.{bytes}
use semestr.Records.Insertion.{Ascending}
use semestr.Records.Sort.{sort_lem}

abbrev records : List Bytes
records = (5 ∷ 1 ∷ []) ∷ (3 ∷ 2 ∷ []) ∷ (5 ∷ 3 ∷ []) ∷ (1 ∷ 4 ∷ []) ∷ []

-- The fifth record is not among the four that are sorted.
sort_four : sort 4 2 (bytes records ++ (0 ∷ 9 ∷ [])) ≡ 1 ∷ 4 ∷ 3 ∷ 2 ∷ 5 ∷ 1 ∷ 5 ∷ 3 ∷ 0 ∷ 9 ∷ []
unfolding sort sort_rounds sort_round shift read_at write_at
sort_four = refl

copy_three : copy 3 4 1 (7 ∷ 8 ∷ 9 ∷ 10 ∷ 11 ∷ []) ≡ some (7 ∷ 8 ∷ 9 ∷ [])
unfolding copy copy_loop
copy_three = refl

sort_lem_example :
    (rs' : List Bytes) × (sort 4 2 (bytes records ++ (0 ∷ 9 ∷ [])) ≡ bytes rs' ++ (0 ∷ 9 ∷ []))
    × Perm rs' records
    × Ascending 0 rs'
sort_lem_example = sort_lem 2 records (0 ∷ 9 ∷ []) (omega arith)

abbrev one_file : Files
one_file = put (b'f' ∷ []) (7 ∷ 8 ∷ []) (λ name. none)

number_two : atoi (b'2' ∷ []) ≡ pos 2
unfolding atoi signed_value digits_value
number_two = refl

lib_mode : is_mode (b'l' ∷ b'i' ∷ b'b' ∷ []) ≡ true
unfolding is_mode
lib_mode = refl

abbrev descending : ℕ → ℕ
descending k = 9 - k

copy-sort-generate_example :
    (t : Outcome) × (u : Outcome) × (v : Outcome) × (rs : List Bytes) × (parse descending
        (generate_word ∷ (b'f' ∷ []) ∷ (b'2' ∷ []) ∷ (b'2' ∷ []) ∷ [])
        one_file
      ≡ some t)
    × (parse descending
          (sort_word ∷ (b'f' ∷ []) ∷ (b'2' ∷ []) ∷ (b'2' ∷ []) ∷ (b'l' ∷ b'i' ∷ b'b' ∷ []) ∷ [])
          t.files
        ≡ some u)
    × (parse descending
          (copy_word
            ∷ (b'f' ∷ [])
            ∷ (b'g' ∷ [])
            ∷ (b'2' ∷ [])
            ∷ (b'2' ∷ [])
            ∷ (b'2' ∷ [])
            ∷ (b'l' ∷ b'i' ∷ b'b' ∷ [])
            ∷ [])
          u.files
        ≡ some v)
    × (u.files (b'f' ∷ []) ≡ some (bytes rs))
    × Perm rs (generated descending 0 2 2)
    × Ascending 0 rs
    × (v.files (b'f' ∷ []) ≡ some (bytes rs))
    × (v.files (b'g' ∷ []) ≡ some (take 4 (bytes rs)))
copy-sort-generate_example =
    copy-sort-generate descending (b'f' ∷ []) (b'g' ∷ []) (b'2' ∷ []) (b'2' ∷ []) (b'2' ∷ [])
      (b'2' ∷ []) (b'l' ∷ b'i' ∷ b'b' ∷ []) one_file 2 1 2 1 number_two number_two number_two
      number_two lib_mode (omega arith) (omega arith) refl

copy_itself_example :
    (t : Outcome) × (parse descending
        (copy_word
          ∷ (b'f' ∷ [])
          ∷ (b'f' ∷ [])
          ∷ (b'2' ∷ [])
          ∷ (b'2' ∷ [])
          ∷ (b'2' ∷ [])
          ∷ (b'l' ∷ b'i' ∷ b'b' ∷ [])
          ∷ [])
        one_file
      ≡ some t)
    × (t.files (b'f' ∷ []) ≡ some [])
copy_itself_example =
    copy_itself descending (b'f' ∷ []) (b'2' ∷ []) (b'2' ∷ []) (b'2' ∷ []) (b'l' ∷ b'i' ∷ b'b' ∷ [])
      one_file (7 ∷ 8 ∷ []) 2 1 2 number_two number_two number_two lib_mode (omega arith) refl
