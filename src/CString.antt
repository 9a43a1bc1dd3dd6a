-- ===== src/CString.antt =====
-- The C library's functions on strings, over lists of bytes without the closing NUL, as the
-- programs of SysOpy use them.
pub mod Tokens
pub mod Lines
pub mod Words
pub mod Decimal
pub mod Reading
use semestr.Prelude.{
  ℕ, zero, suc, ◌+◌, ◌-◌, ◌*◌, Bool, true, false, ◌&&◌, ◌||◌, Option, none, some, List, [], ◌∷◌,
  ◌++◌, ltb, leb, ◌==◌, if◌then◌else◌,
}
use semestr.Prelude.Int.{ℤ, pos, ◌-ℤ◌}

abbrev pub Text : Type 0
Text = List ℕ

-- `strchr(delimiters, c) != NULL`, for a byte of a string.
abbrev pub has : Text → ℕ → Bool
has [] c = false
has (d ∷ ds) c = d == c || has ds c

-- `strcmp(a, b) == 0`
abbrev pub same_text : Text → Text → Bool
same_text [] [] = true
same_text [] (y ∷ ys) = false
same_text (x ∷ xs) [] = false
same_text (x ∷ xs) (y ∷ ys) = x == y && same_text xs ys

-- `s + strspn(s, delimiters)`
abbrev pub skip : Text → Text → Text
skip delimiters [] = []
skip delimiters (c ∷ cs) = if has delimiters c then skip delimiters cs else c ∷ cs

-- The bytes before the first delimiter, and those after it.
abbrev pub split_at : Text → Text → Text × Text
split_at delimiters [] = ([], [])
split_at delimiters (c ∷ cs) =
    let (token, rest) = split_at delimiters cs in
    if has delimiters c then ([], cs) else (c ∷ token, rest)

abbrev pub token_of : Text → Text → Option (Text × Text)
token_of delimiters [] = none
token_of delimiters (c ∷ cs) = some (split_at delimiters (c ∷ cs))

-- `strtok`: a token, with what the next call goes on with; NULL at the end of the string.
unfoldable pub strtok : Text → Text → Option (Text × Text)
strtok delimiters s = token_of delimiters (skip delimiters s)

-- A digit's value is `c - '0'`.
abbrev pub is_digit : ℕ → Bool
is_digit c = leb b'0' c && leb c b'9'

unfoldable pub digits_value : ℕ → Text → ℕ
digits_value acc [] = acc
digits_value acc (c ∷ cs) =
    let rest = digits_value (acc * 10 + (c - b'0')) cs in if is_digit c then rest else acc

-- After the white space of `atoi`.
unfoldable pub signed_value : Text → ℤ
unfolding digits_value
signed_value [] = pos 0
signed_value (c ∷ cs) =
    if c == b'-'
    then pos 0 -ℤ pos (digits_value 0 cs)
    else if c == b'+'
    then pos (digits_value 0 cs)
    else pos (digits_value 0 (c ∷ cs))

-- `atoi`, for numbers that an `int` holds.
unfoldable pub atoi : Text → ℤ
unfolding signed_value
atoi s = signed_value (skip (32 ∷ 9 ∷ 10 ∷ 11 ∷ 12 ∷ 13 ∷ []) s)
