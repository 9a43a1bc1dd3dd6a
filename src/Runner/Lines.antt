-- ===== src/Runner/Lines.antt =====
-- The lines of a file of commands, and the arguments that a line gives.
use semestr.Prelude.{ℕ, ◌≤◌, ◌<◌, ◌≡◌, ◌≢◌, refl, ap, some, List, [], ◌∷◌, ◌++◌, map, arith, length}
use semestr.CString.{Text}
use semestr.CString.Tokens.{Plain}
use semestr.CString.Words.{words-total, AllWords, join, words-join}
use semestr.CString.Lines.{newline, ended, join-ended, AllWords-ended, Plain-append}
use semestr.Runner.{line_of, getline, before_newline, cut, arguments}

-- A command: at least one word, none of them empty and none with a space or a newline.
abbrev pub IsCommand : List Text → Type 0
IsCommand ws = (ws ≢ []) × AllWords (32 ∷ []) ws × AllWords newline ws

before_newline-Plain : (w : Text) → Plain newline w → before_newline (w ++ newline) ≡ w
before_newline-Plain [] h = refl
before_newline-Plain (c ∷ cs) h = ground (arith, before_newline-Plain cs h.1)

before_newline_same : (w : Text) → Plain newline w → before_newline w ≡ w
before_newline_same [] h = refl
before_newline_same (c ∷ cs) h = ground (arith, before_newline_same cs h.1)

cut-Plain : (w : Text) → Plain newline w → cut w ≡ w
unfolding cut
cut-Plain [] h = refl
cut-Plain (c ∷ cs) h = ground (arith, before_newline_same cs h.1)

cut-newline : (w : Text) → w ≢ [] → Plain newline w → cut (w ++ newline) ≡ w
unfolding cut
cut-newline [] ne h = absurd (ne refl)
cut-newline (c ∷ cs) ne h = ground (arith, before_newline-Plain cs h.1)

cut-ended : (ws : List Text) → AllWords newline ws → map cut (ended ws) ≡ ws
cut-ended [] all = refl
cut-ended (w ∷ []) all = rw (cut-newline w all.0 all.1) refl
cut-ended (w ∷ v ∷ ws) all = rw (cut-Plain w all.1, cut-ended (v ∷ ws) all.2) refl

-- The arguments of a command's line are its words.
pub arguments-join : (ws : List Text) → IsCommand ws → arguments (join 32 ws ++ newline) ≡ some ws
unfolding arguments
arguments-join ws h =
    rw
      (
        ← join-ended 32 ws h.0,
        words-join (32 ∷ []) 32 (ended ws) refl (AllWords-ended 32 ws refl h.1),
      )
      (ap some (cut-ended ws h.2))

pub arguments-total : (line : Text) → (args : List Text) × (arguments line ≡ some args)
unfolding arguments
arguments-total line = let (ws, e) = words-total (32 ∷ []) line in (map cut ws, rw e refl)

line_of-newline :
    (t rest : Text) → Plain newline t → line_of (t ++ 10 ∷ rest) ≡ (t ++ newline, rest)
line_of-newline [] rest h = refl
line_of-newline (c ∷ cs) rest h = ground (arith, line_of-newline cs rest h.1)

pub getline-newline :
    (t rest : Text) → Plain newline t → getline (t ++ 10 ∷ rest) ≡ some (t ++ newline, rest)
getline-newline [] rest h = refl
getline-newline (c ∷ cs) rest h = ap some (line_of-newline (c ∷ cs) rest h)

length-line_of : (c : ℕ) (cs : Text) → length (line_of (c ∷ cs)).1 ≤ length cs
length-line_of c [] = ground arith
length-line_of c (x ∷ cs) = ground (arith, length-line_of x cs)

-- A line takes at least one byte.
pub getline-shorter :
    (file line rest : Text) → getline file ≡ some (line, rest) → length rest < length file
getline-shorter [] line rest e = cc
getline-shorter (c ∷ cs) line rest e =
    let same : (line_of (c ∷ cs)).1 ≡ rest = cc in rw (← same) (omega (arith, length-line_of c cs))

pub join-Plain : (ws : List Text) → AllWords newline ws → Plain newline (join 32 ws)
join-Plain [] all = tt
join-Plain (w ∷ []) all = all.1
join-Plain (w ∷ v ∷ ws) all =
    Plain-append newline w (32 ∷ join 32 (v ∷ ws)) all.1 (refl, join-Plain (v ∷ ws) all.2)
