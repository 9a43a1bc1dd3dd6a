-- ===== src/CString/Reading.antt =====
-- `fgets` on the bytes of a file that are left.
use semestr.Prelude.{
  ℕ, zero, suc, ◌+◌, ◌-◌, ◌≤◌, ◌<◌, ◌≡◌, refl, arith, false, Option, none, some, [], ◌∷◌, ◌++◌,
  length, ◌==◌, if◌then◌else◌,
}
use semestr.CString.{Text}
use semestr.CString.Lines.{newline}
use semestr.CString.Tokens.{Plain}

-- At most so many bytes, up to a newline and with it; and what is left.
abbrev pub take_line : ℕ → Text → Text × Text
take_line zero s = ([], s)
take_line (suc n) [] = ([], [])
take_line (suc n) (c ∷ cs) =
    let (line, rest) = take_line n cs in if c == 10 then (c ∷ [], cs) else (c ∷ line, rest)

-- `fgets(buf, size, file)`: nothing at the end of the file.
unfoldable pub fgets : ℕ → Text → Option (Text × Text)
fgets size [] = none
fgets size (c ∷ cs) = some (take_line (size - 1) (c ∷ cs))

take_line-line :
    (n : ℕ) (t rest : Text)
    → Plain newline t
    → length t < n
    → take_line n (t ++ 10 ∷ rest) ≡ (t ++ 10 ∷ [], rest)
take_line-line zero t rest p h = absurd (omega arith)
take_line-line (suc n) [] rest p h = refl
take_line-line (suc n) (c ∷ cs) rest p h =
    let more : (c == 10) ≡ false = ground (arith, p.0) in
    rw (more, take_line-line n cs rest p.1 (omega arith)) refl

-- A line that the buffer holds with its newline and the NUL is read whole.
pub fgets-line :
    (size : ℕ) (t rest : Text)
    → Plain newline t
    → length t + 2 ≤ size
    → fgets size (t ++ 10 ∷ rest) ≡ some (t ++ 10 ∷ [], rest)
unfolding fgets
fgets-line size [] rest p h = rw (fgets, take_line-line (size - 1) [] rest p (omega arith)) refl
fgets-line size (c ∷ cs) rest p h =
    rw (fgets, take_line-line (size - 1) (c ∷ cs) rest p (omega arith)) refl
