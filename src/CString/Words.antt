-- ===== src/CString/Words.antt =====
-- The loops of `strtok` that split a whole text: SysOpy's programs collect the arguments of commands
-- with them.
use semestr.Prelude.{
  ℕ, zero, suc, ◌≤◌, ◌<◌, ◌≡◌, ◌≢◌, refl, true, Option, none, some, List, [], ◌∷◌, ◌++◌, arith,
  length, ◌>>=◌, Option-cases, inl, inr, length-append,
}
use semestr.CString.{Text, has, skip, split_at, token_of, strtok}
use semestr.CString.Tokens.{Plain, strtok-token, strtok-last}

-- `p = strtok(s, d); while (p) { ...; p = strtok(NULL, d); }` on fuel.
unfoldable pub tokens : ℕ → Text → Text → Option (List Text)
tokens zero d s = none
tokens (suc fuel) d s = elim (strtok d s) [
  | none ↦ some []
  | some (t, rest) ↦ do ts ← tokens fuel d rest; some (t ∷ ts)
]

-- Each round takes at least one byte, so one round more than there are bytes is enough.
unfoldable pub words : Text → Text → Option (List Text)
unfolding tokens
words d s = tokens (suc (length s)) d s

length-skip : (d s : Text) → length (skip d s) ≤ length s
length-skip d [] = omega arith
length-skip d (c ∷ cs) = ground (arith, length-skip d cs)

length-split_at : (d : Text) (c : ℕ) (cs : Text) → length (split_at d (c ∷ cs)).1 ≤ length cs
length-split_at d c [] = ground arith
length-split_at d c (x ∷ cs) = ground (arith, length-split_at d x cs)

length-token_of : (d s t rest : Text) → token_of d s ≡ some (t, rest) → length rest < length s
length-token_of d [] t rest e = cc
length-token_of d (c ∷ cs) t rest e =
    let same : (split_at d (c ∷ cs)).1 ≡ rest = cc in
    rw (← same) (omega (arith, length-split_at d c cs))

strtok-shorter : (d s t rest : Text) → strtok d s ≡ some (t, rest) → length rest < length s
unfolding strtok
strtok-shorter d s t rest e = omega (arith, length-skip d s, length-token_of d (skip d s) t rest e)

tokens-total :
    (fuel : ℕ) (d s : Text) → length s < fuel → (ts : List Text) × (tokens fuel d s ≡ some ts)
unfolding tokens
tokens-total zero d s h = absurd (omega arith)
tokens-total (suc fuel) d s h = elim (Option-cases (strtok d s)) [
  | inl over ↦ ([], rw (over, tokens) refl)
  | inr ((t, rest), e) ↦
      let (ts, more) = tokens-total fuel d rest (omega (arith, strtok-shorter d s t rest e)) in
      (t ∷ ts, rw (e, tokens, more) refl)
]

-- The loop ends, on every text and for all delimiters.
pub words-total : (d s : Text) → (ts : List Text) × (words d s ≡ some ts)
unfolding words
words-total d s = tokens-total (suc (length s)) d s (omega arith)

-- A list of words that are not empty and hold no delimiter, and its text with a `c` between them.
abbrev pub AllWords : Text → List Text → Type 0
AllWords d [] = Unit {0}
AllWords d (w ∷ ws) = (w ≢ []) × Plain d w × AllWords d ws

abbrev pub join : ℕ → List Text → Text
join c [] = []
join c (w ∷ []) = w
join c (w ∷ v ∷ ws) = w ++ c ∷ join c (v ∷ ws)

strtok_end : (d : Text) → strtok d [] ≡ none
unfolding strtok
strtok_end d = refl

tokens-join :
    (fuel : ℕ) (d : Text) (c : ℕ) (ws : List Text)
    → has d c ≡ true
    → length ws < fuel
    → AllWords d ws
    → tokens fuel d (join c ws) ≡ some ws
unfolding tokens
tokens-join zero d c ws is h all = absurd (omega arith)
tokens-join (suc fuel) d c [] is h all = rw (strtok_end d, tokens) refl
tokens-join (suc fuel) d c ([] ∷ ws) is h all = absurd (all.0 refl)
tokens-join (suc fuel) d c ((x ∷ w) ∷ []) is h all =
    rw (strtok-last d x w all.1, tokens, tokens-join fuel d c [] is (omega arith) tt) refl
tokens-join (suc fuel) d c ((x ∷ w) ∷ v ∷ ws) is h all =
    rw
      (
        strtok-token d x w c (join c (v ∷ ws)) all.1 is,
        tokens,
        tokens-join fuel d c (v ∷ ws) is (omega arith) all.2,
      )
      refl

length-join : (d : Text) (c : ℕ) (ws : List Text) → AllWords d ws → length ws ≤ length (join c ws)
length-join d c [] all = omega arith
length-join d c ([] ∷ ws) all = absurd (all.0 refl)
length-join d c ((x ∷ w) ∷ []) all = omega arith
length-join d c ((x ∷ w) ∷ v ∷ ws) all =
    omega (arith, length-append (x ∷ w) (c ∷ join c (v ∷ ws)), length-join d c (v ∷ ws) all.2)

-- Words without delimiters, joined by a delimiter, are found again.
pub words-join :
    (d : Text) (c : ℕ) (ws : List Text)
    → has d c ≡ true
    → AllWords d ws
    → words d (join c ws) ≡ some ws
unfolding words
words-join d c ws is all =
    tokens-join (suc (length (join c ws))) d c ws is (omega (arith, length-join d c ws all)) all
