-- ===== src/Pipeline/Lines.antt =====
-- The programs of a line, and their arguments.
use semestr.Prelude.{ℕ, ◌≡◌, ◌≢◌, refl, ap, some, true, false, List, [], ◌∷◌, ◌++◌, map, arith}
use semestr.CString.{Text, has}
use semestr.CString.Tokens.{Plain}
use semestr.CString.Words.{words-total, AllWords, join, words-join}
use semestr.CString.Lines.{newline, ended, join-ended, AllWords-ended, Plain-append}
use semestr.Pipeline.{drop_last, without_newline, prepare_arguments, each_program, pipeline}

-- No newline in a text.
has-Plain : (w : Text) → Plain newline w → has w 10 ≡ false
has-Plain [] h = refl
has-Plain (c ∷ cs) h = ground (arith, has-Plain cs h.1)

has-newline : (w : Text) → has (w ++ newline) 10 ≡ true
has-newline [] = refl
has-newline (c ∷ cs) = ground (arith, has-newline cs)

drop_last-newline : (w : Text) → drop_last (w ++ newline) ≡ w
drop_last-newline [] = refl
drop_last-newline (c ∷ []) = refl
drop_last-newline (c ∷ d ∷ cs) = ap (λ t. c ∷ t) (drop_last-newline (d ∷ cs))

same_words : (ws : List Text) → AllWords newline ws → map without_newline ws ≡ ws
same_words [] all = refl
same_words (w ∷ []) all = rw (has-Plain w all.1) refl
same_words (w ∷ v ∷ ws) all = rw (has-Plain w all.1, same_words (v ∷ ws) all.2) refl

ended_words : (ws : List Text) → AllWords newline ws → map without_newline (ended ws) ≡ ws
ended_words [] all = refl
ended_words (w ∷ []) all = rw (has-newline w, drop_last-newline w) refl
ended_words (w ∷ v ∷ ws) all = rw (has-Plain w all.1, ended_words (v ∷ ws) all.2) refl

prepare_arguments-join :
    (c : ℕ) (ws : List Text)
    → AllWords (c ∷ []) ws
    → AllWords newline ws
    → prepare_arguments (join c ws) c ≡ some ws
unfolding prepare_arguments
prepare_arguments-join c ws all lines =
    rw (words-join (c ∷ []) c ws (ground arith) all) (ap some (same_words ws lines))

prepare_arguments-ended :
    (c : ℕ) (ws : List Text)
    → ws ≢ []
    → has (c ∷ []) 10 ≡ false
    → AllWords (c ∷ []) ws
    → AllWords newline ws
    → prepare_arguments (join c ws ++ newline) c ≡ some ws
unfolding prepare_arguments
prepare_arguments-ended c ws ne h all lines =
    rw
      (
        ← join-ended c ws ne,
        words-join (c ∷ []) c (ended ws) (ground arith) (AllWords-ended c ws h all),
      )
      (ap some (ended_words ws lines))

-- A command whose words have no space, `|` or newline.
abbrev pub IsCommand : List Text → Type 0
IsCommand ws = (ws ≢ []) × AllWords (32 ∷ []) ws × AllWords (b'|' ∷ []) ws × AllWords newline ws

abbrev pub AllCommands : List (List Text) → Type 0
AllCommands [] = Unit {0}
AllCommands (ws ∷ cs) = IsCommand ws × AllCommands cs

-- The commands as texts.
abbrev pub texts : List (List Text) → List Text
texts cs = map (join 32) cs

join-Plain :
    (c : ℕ) (ws : List Text)
    → has (c ∷ []) 32 ≡ false
    → AllWords (c ∷ []) ws
    → Plain (c ∷ []) (join 32 ws)
join-Plain c [] h all = tt
join-Plain c (w ∷ []) h all = all.1
join-Plain c (w ∷ v ∷ ws) h all =
    Plain-append (c ∷ []) w (32 ∷ join 32 (v ∷ ws)) all.1 (h, join-Plain c (v ∷ ws) h all.2)

join_ne : (c : ℕ) (ws : List Text) → ws ≢ [] → AllWords (c ∷ []) ws → join 32 ws ≢ []
join_ne c [] ne all = absurd (ne refl)
join_ne c ([] ∷ ws) ne all = absurd (all.0 refl)
join_ne c ((x ∷ w) ∷ []) ne all = λ e. cc
join_ne c ((x ∷ w) ∷ v ∷ ws) ne all = λ e. cc

texts-bars : (cs : List (List Text)) → AllCommands cs → AllWords (b'|' ∷ []) (texts cs)
texts-bars [] all = tt
texts-bars (ws ∷ cs) all =
    let (ne, spaces, bars, lines) = all.0 in
    (join_ne 32 ws ne spaces, join-Plain b'|' ws refl bars, texts-bars cs all.1)

texts-lines : (cs : List (List Text)) → AllCommands cs → AllWords newline (texts cs)
texts-lines [] all = tt
texts-lines (ws ∷ cs) all =
    let (ne, spaces, bars, lines) = all.0 in
    (join_ne 32 ws ne spaces, join-Plain 10 ws refl lines, texts-lines cs all.1)

each_program-texts : (cs : List (List Text)) → AllCommands cs → each_program (texts cs) ≡ some cs
unfolding each_program
each_program-texts [] all = refl
each_program-texts (ws ∷ cs) all =
    let (ne, spaces, bars, lines) = all.0 in
    rw (prepare_arguments-join 32 ws spaces lines, each_program-texts cs all.1) refl

texts_ne : (cs : List (List Text)) → cs ≢ [] → texts cs ≢ []
texts_ne [] ne = absurd (ne refl)
texts_ne (ws ∷ cs) ne = λ e. cc

-- A line of commands, with a `|` between two of them, a space between two words and a newline at the
-- end, gives the words of each command.
pub pipeline-join :
    (cs : List (List Text))
    → cs ≢ []
    → AllCommands cs
    → pipeline (join b'|' (texts cs) ++ newline) ≡ some cs
unfolding pipeline
pipeline-join cs ne all =
    rw
      (prepare_arguments-ended b'|' (texts cs) (texts_ne cs ne) refl (texts-bars cs all)
        (texts-lines cs all))
      (each_program-texts cs all)

prepare_arguments-total :
    (text : Text) (c : ℕ) → (ws : List Text) × (prepare_arguments text c ≡ some ws)
unfolding prepare_arguments
prepare_arguments-total text c =
    let (ws, e) = words-total (c ∷ []) text in (map without_newline ws, rw e refl)

each_program-total : (ps : List Text) → (cs : List (List Text)) × (each_program ps ≡ some cs)
unfolding each_program
each_program-total [] = ([], refl)
each_program-total (p ∷ ps) =
    let (ws, e) = prepare_arguments-total p 32 in
    let (cs, f) = each_program-total ps in (ws ∷ cs, rw (e, f) refl)

-- The loops that split a line end, on every line.
pub pipeline-total : (line : Text) → (cs : List (List Text)) × (pipeline line ≡ some cs)
unfolding pipeline
pipeline-total line =
    let (ps, e) = prepare_arguments-total line b'|' in
    let (cs, f) = each_program-total ps in (cs, rw e f)
