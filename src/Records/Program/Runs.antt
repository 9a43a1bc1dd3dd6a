-- ===== src/Records/Program/Runs.antt =====
-- Runs of SysOpy/lab2/src/zad1/zad1.c that follow each other.
use mathlib.Core.List.{Perm}
use semestr.Prelude.{
  ℕ, suc, ◌*◌, ◌<◌, ◌≡◌, ap, sym, ◌∙◌, true, false, some, List, [], ◌∷◌, ◌++◌, append-nil, length,
  take,
}
use semestr.Prelude.Int.{pos, int_limit}
use semestr.CString.{Text, same_text, atoi}
use semestr.Records.{Bytes, sort}
use semestr.Records.Bytes.{bytes}
use semestr.Records.Copy.{take-nil}
use semestr.Records.Insertion.{Ascending}
use semestr.Records.Sort.{sort_lem}
use semestr.Records.Program.{
  Files, put, quiet, Outcome, generated, written, generate_word, sort_word, copy_word, is_mode,
  parse,
}
use semestr.Records.Program.Commands.{
  generated-AllOf, length-generated, written-bytes, put_self, put_other, parse-generate, parse-sort,
  parse-copy,
}

-- What `sort` makes of the generated records.
sorted_records :
    (rand : ℕ → ℕ) (n s : ℕ)
    → (rs : List Bytes) × (sort n (suc s) (written (generated rand 0 n (suc s))) ≡ bytes rs)
      × Perm rs (generated rand 0 n (suc s))
      × Ascending 0 rs
sorted_records rand n s =
    let made = generated rand 0 n (suc s) in
    let (rs, e, perm, rising) = sort_lem (suc s) made [] (generated-AllOf rand 0 n (suc s)) in
    let before : bytes made ++ [] ≡ written made =
      append-nil (bytes made) ∙ sym (written-bytes made) in
    let same : sort (length made) (suc s) (bytes made ++ []) ≡ sort n (suc s) (written made) =
      λ i. sort (length-generated rand 0 n (suc s) i) (suc s) (before i) in
    (rs, sym same ∙ e ∙ append-nil (bytes rs), perm, rising)

-- Records that one run generates are sorted by the next, and the first of them copied by a third, with
-- the numbers of records and their size given alike: after the second run the file holds the
-- generated records in rising order of their first bytes, and after the third the other file holds
-- the bytes of so many records from its start, whatever the size of the buffer. The products of
-- the numbers of records with their size are in the range of an `int`.
pub copy-sort-generate :
    (rand : ℕ → ℕ) (name other number size how_many buffer mode : Text) (files : Files)
    (n s m b : ℕ)
    → atoi number ≡ pos n
    → atoi size ≡ pos (suc s)
    → atoi how_many ≡ pos m
    → atoi buffer ≡ pos (suc b)
    → is_mode mode ≡ true
    → n * suc s < int_limit
    → m * suc s < int_limit
    → same_text name other ≡ false
    → (t : Outcome) × (u : Outcome) × (v : Outcome) × (rs : List Bytes) × (parse rand
          (generate_word ∷ name ∷ number ∷ size ∷ [])
          files
        ≡ some t)
      × (parse rand (sort_word ∷ name ∷ number ∷ size ∷ mode ∷ []) t.files ≡ some u)
      × (parse rand (copy_word ∷ name ∷ other ∷ how_many ∷ buffer ∷ size ∷ mode ∷ []) u.files
          ≡ some v)
      × (u.files name ≡ some (bytes rs))
      × Perm rs (generated rand 0 n (suc s))
      × Ascending 0 rs
      × (v.files name ≡ some (bytes rs))
      × (v.files other ≡ some (take (m * suc s) (bytes rs)))
copy-sort-generate rand name other number size how_many buffer mode files n s m b e f g h known fits
      fits_copy differs =
    let (rs, sorted, perm, rising) = sorted_records rand n s in
    let made : Files = put name (written (generated rand 0 n (suc s))) files in
    let ordered : Files = put name (sort n (suc s) (written (generated rand 0 n (suc s)))) made in
    let there : ordered name ≡ some (bytes rs) =
      put_self name (sort n (suc s) (written (generated rand 0 n (suc s)))) made ∙ ap some sorted in
    let still : put other [] ordered name ≡ some (bytes rs) =
      put_other other name [] ordered differs ∙ there in
    let first = take (m * suc s) (bytes rs) in
    (
      record { message = quiet; files = made },
      record { message = quiet; files = ordered },
      record { message = quiet; files = put other first (put other [] ordered) },
      rs,
      parse-generate rand name number size files n (suc s) e f,
      parse-sort rand name number size mode made n s (written (generated rand 0 n (suc s))) e f
          known fits (put_self name (written (generated rand 0 n (suc s))) files),
      parse-copy rand name other how_many buffer size mode ordered m b (suc s) (bytes rs) (bytes rs)
          g h f known fits_copy there still,
      there,
      perm,
      rising,
      put_other other name first (put other [] ordered) differs ∙ still,
      put_self other first (put other [] ordered),
    )

-- With the same name for both files, a number of records and a size that are not negative and whose
-- product is in the range of an `int`, a buffer of a byte or more and one of the two modes, a file
-- that exists is empty after `copy`.
pub copy_itself :
    (rand : ℕ → ℕ) (name how_many buffer size mode : Text) (files : Files) (before : Bytes)
    (m b s : ℕ)
    → atoi how_many ≡ pos m
    → atoi buffer ≡ pos (suc b)
    → atoi size ≡ pos s
    → is_mode mode ≡ true
    → m * s < int_limit
    → files name ≡ some before
    → (t : Outcome) × (parse rand
          (copy_word ∷ name ∷ name ∷ how_many ∷ buffer ∷ size ∷ mode ∷ [])
          files
        ≡ some t)
      × (t.files name ≡ some [])
copy_itself rand name how_many buffer size mode files before m b s e f g known fits found = (
  record { message = quiet; files = put name (take (m * s) []) (put name [] files) },
  parse-copy rand name name how_many buffer size mode files m b s before [] e f g known fits found
      (put_self name [] files),
  put_self name (take (m * s) []) (put name [] files) ∙ ap some (take-nil (m * s)),
)
