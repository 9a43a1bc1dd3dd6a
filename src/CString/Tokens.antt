-- ===== src/CString/Tokens.antt =====
-- Laws of `strtok`, which SysOpy's programs split commands and requests with.
use semestr.Prelude.{ℕ, ◌≡◌, refl, ap, true, false, none, some, [], ◌∷◌, ◌++◌, arith}
use semestr.CString.{Text, has, same_text, skip, split_at, strtok}

-- No byte of the text is a delimiter.
abbrev pub Plain : Text → Text → Type 0
Plain delimiters [] = Unit {0}
Plain delimiters (c ∷ cs) = (has delimiters c ≡ false) × Plain delimiters cs

skip-Plain : (d : Text) (c : ℕ) (cs : Text) → has d c ≡ false → skip d (c ∷ cs) ≡ c ∷ cs
skip-Plain d c cs h = rw h

split_at-Plain :
    (d token : Text) (c : ℕ) (rest : Text)
    → Plain d token
    → has d c ≡ true
    → split_at d (token ++ c ∷ rest) ≡ (token, rest)
split_at-Plain d [] c rest h e = rw e
split_at-Plain d (t ∷ ts) c rest h e = rw (h.0, split_at-Plain d ts c rest h.1 e)

split_at-last : (d token : Text) → Plain d token → split_at d token ≡ (token, [])
split_at-last d [] h = refl
split_at-last d (t ∷ ts) h = rw (h.0, split_at-last d ts h.1)

-- A token before a delimiter is split off, with what follows the delimiter.
pub strtok-token :
    (d : Text) (t : ℕ) (ts : Text) (c : ℕ) (rest : Text)
    → Plain d (t ∷ ts)
    → has d c ≡ true
    → strtok d ((t ∷ ts) ++ c ∷ rest) ≡ some (t ∷ ts, rest)
unfolding strtok
strtok-token d t ts c rest h e =
    rw (skip-Plain d t (ts ++ c ∷ rest) h.0) (ap some (split_at-Plain d (t ∷ ts) c rest h e))

-- The last token needs no delimiter.
pub strtok-last :
    (d : Text) (t : ℕ) (ts : Text) → Plain d (t ∷ ts) → strtok d (t ∷ ts) ≡ some (t ∷ ts, [])
unfolding strtok
strtok-last d t ts h = rw (skip-Plain d t ts h.0) (ap some (split_at-last d (t ∷ ts) h))

pub strtok-nil : strtok [] [] ≡ none
unfolding strtok
strtok-nil = refl

pub same_text_eq : (a b : Text) → same_text a b ≡ true → a ≡ b
same_text_eq [] [] e = refl
same_text_eq [] (y ∷ ys) e = cc
same_text_eq (x ∷ xs) [] e = cc
same_text_eq (x ∷ xs) (y ∷ ys) e = ground (arith, same_text_eq xs ys)

pub same_text_refl : (a : Text) → same_text a a ≡ true
same_text_refl [] = refl
same_text_refl (x ∷ xs) = ground (arith, same_text_refl xs)

pub same_text_sym : (a b : Text) → same_text a b ≡ same_text b a
same_text_sym [] [] = refl
same_text_sym [] (y ∷ ys) = refl
same_text_sym (x ∷ xs) [] = refl
same_text_sym (x ∷ xs) (y ∷ ys) = ground (arith, same_text_sym xs ys)

pub Plain-nil : (s : Text) → Plain [] s
Plain-nil [] = tt
Plain-nil (c ∷ cs) = (refl, Plain-nil cs)
