-- ===== src/Runner/Batch.antt =====
-- What `readAndExecute` makes of a whole file of commands.
use semestr.Prelude.{
  ℕ, zero, suc, ◌*◌, ◌%◌, ◌^◌, ◌≤◌, ◌<◌, ◌≡◌, refl, ap, ◌∙◌, Option, none, some, true, false, List,
  [], ◌∷◌, ◌++◌, arith, length, ◌>>=◌, if◌then◌else◌, Option-cases, inl, inr, length-append,
}
use semestr.Prelude.Int.{pos}
use semestr.CString.{Text, strtok}
use semestr.CString.Words.{words, tokens, join}
use semestr.CString.Lines.{newline}
use semestr.Runner.{
  getline, arguments, Status, exited, signaled, fails, Run, run_line, report_line, read_lines,
  read_and_execute, Report, terminated, report, report_lines, limited_read_and_execute, cut, limits,
  to_rlim,
}
use semestr.Runner.Lines.{
  IsCommand, arguments-join, arguments-total, getline-newline, getline-shorter, join-Plain,
}

-- The text of a list of commands, one a line.
abbrev pub script : List (List Text) → Text
script [] = []
script (ws ∷ cs) = join 32 ws ++ 10 ∷ script cs

abbrev pub AllCommands : List (List Text) → Type 0
AllCommands [] = Unit {0}
AllCommands (ws ∷ cs) = IsCommand ws × AllCommands cs

-- The commands in their order, up to the first that fails.
unfoldable pub batch : (List Text → Status) → List (List Text) → Run
unfolding fails
batch run [] = ([], true)
batch run (ws ∷ cs) =
    let (more, ended) = batch run cs in
    let one : List Text × Status = (ws, run ws) in
    if fails (run ws) then (one ∷ [], false) else (one ∷ more, ended)

length-script : (cs : List (List Text)) → length cs ≤ length (script cs)
length-script [] = omega arith
length-script (ws ∷ cs) =
    omega (arith, length-append (join 32 ws) (10 ∷ script cs), length-script cs)

run_line-batch :
    (run : List Text → Status) (ws : List Text) (cs : List (List Text))
    → run_line run ws (some (batch run cs)) ≡ some (batch run (ws ∷ cs))
unfolding run_line batch
run_line-batch run ws cs = ground arith

read_lines-line :
    (fuel : ℕ) (run : List Text → Status) (file line rest : Text) (args : List Text)
    → getline file ≡ some (line, rest)
    → arguments line ≡ some args
    → read_lines (suc fuel) run file ≡ run_line run args (read_lines fuel run rest)
unfolding read_lines
read_lines-line fuel run file line rest args e f = rw (read_lines, e, f) refl

read_lines_end :
    (fuel : ℕ) (run : List Text → Status) → read_lines (suc fuel) run [] ≡ some ([], true)
unfolding read_lines
read_lines_end fuel run = refl

read_lines-script :
    (fuel : ℕ) (run : List Text → Status) (cs : List (List Text))
    → length cs < fuel
    → AllCommands cs
    → read_lines fuel run (script cs) ≡ some (batch run cs)
unfolding batch
read_lines-script zero run cs h all = absurd (omega arith)
read_lines-script (suc fuel) run [] h all = read_lines_end fuel run
read_lines-script (suc fuel) run (ws ∷ cs) h all =
    let tail = read_lines-script fuel run cs (omega arith) all.1 in
    let line = getline-newline (join 32 ws) (script cs) (join-Plain ws all.0.2) in
    read_lines-line fuel run (script (ws ∷ cs)) (join 32 ws ++ newline) (script cs) ws line
      (arguments-join ws all.0)
    ∙ ap (run_line run ws) tail
    ∙ run_line-batch run ws cs

-- A file of commands with a space between two words and a newline after each command is run as these
-- commands, with their words as arguments, in their order and up to the first that fails; every
-- such file is read to its end otherwise.
pub read_and_execute-script :
    (run : List Text → Status) (cs : List (List Text))
    → AllCommands cs
    → read_and_execute run (script cs) ≡ some (batch run cs)
unfolding read_and_execute
read_and_execute-script run cs all =
    read_lines-script (suc (length (script cs))) run cs (omega (arith, length-script cs)) all

-- The commands of a file: the words of its lines, in their order.
abbrev pub CommandsOf : Text → List (List Text) → Type 0
CommandsOf file [] = getline file ≡ none
CommandsOf file (ws ∷ cs) =
    (line : Text) × (rest : Text) × (getline file ≡ some (line, rest))
    × (arguments line ≡ some ws)
    × CommandsOf rest cs

read_lines-CommandsOf :
    (fuel : ℕ) (run : List Text → Status) (file : Text)
    → length file < fuel
    → (cs : List (List Text)) × CommandsOf file cs
      × (read_lines fuel run file ≡ some (batch run cs))
unfolding read_lines batch
read_lines-CommandsOf zero run file h = absurd (omega arith)
read_lines-CommandsOf (suc fuel) run file h = elim (Option-cases (getline file)) [
  | inl over ↦ ([], over, rw (read_lines, over) refl)
  | inr ((line, rest), e) ↦
      let (ws, f) = arguments-total line in
      let (cs, known, g) =
        read_lines-CommandsOf fuel run rest (omega (arith, getline-shorter file line rest e)) in
      (
        ws ∷ cs,
        (line, rest, e, f, known),
        read_lines-line fuel run file line rest ws e f
            ∙ ap (run_line run ws) g
            ∙ run_line-batch run ws cs,
      )
]

-- Where every program ends, `readAndExecute` returns on every file: the programs that it started are
-- those of the file's commands, in their order and up to the first that fails, and it has read the
-- file to its end exactly where none fails.
pub read_and_execute-batch :
    (run : List Text → Status) (file : Text)
    → (cs : List (List Text)) × CommandsOf file cs
      × (read_and_execute run file ≡ some (batch run cs))
unfolding read_and_execute
read_and_execute-batch run file = read_lines-CommandsOf (suc (length file)) run file (omega arith)

-- The reports of a run.
abbrev pub reports : List (List Text × Status) → List Report
reports [] = []
reports ((args, s) ∷ more) = report s ∷ reports more

abbrev pub reports_of : Option Run → Option (List Report)
reports_of none = none
reports_of (some (ran, ended)) = some (reports ran)

report-stops : (s : Status) → fails s ≡ true → report s ≡ terminated
unfolding fails report
report-stops (exited n) e = ground arith
report-stops (signaled n) e = cc

report_line-status :
    (s : Status) (args : List Text) (rest : Option Run)
    → report_line s (reports_of rest)
      ≡ reports_of (
          if fails s
          then some ((args, s) ∷ [], false)
          else do (more, ended) ← rest; some ((args, s) ∷ more, ended))
unfolding report_line report fails
report_line-status (exited zero) args none = refl
report_line-status (exited zero) args (some r) = refl
report_line-status (exited (suc n)) args rest = ground arith
report_line-status (signaled n) args none = refl
report_line-status (signaled n) args (some r) = refl

report_line-run_line :
    (run : List Text → Status) (args : List Text) (rest : Option Run)
    → report_line (run args) (reports_of rest) ≡ reports_of (run_line run args rest)
unfolding run_line
report_line-run_line run args rest = report_line-status (run args) args rest

report_lines-read_lines :
    (fuel : ℕ) (run : List Text → Status) (file : Text)
    → report_lines fuel run file ≡ reports_of (read_lines fuel run file)
unfolding report_lines read_lines
report_lines-read_lines zero run file = refl
report_lines-read_lines (suc fuel) run file = elim (Option-cases (getline file)) [
  | inl over ↦ rw (report_lines, read_lines, over) refl
  | inr ((line, rest), e) ↦
      let (args, f) = arguments-total line in
      let tail = report_lines-read_lines fuel run rest in
      rw (report_lines, read_lines, e, f, tail)
        (report_line-run_line run args (read_lines fuel run rest))
]

-- On every file zad3a runs the commands that zad2 runs with the same children, and prints the report
-- of each; it stops where zad2 stops.
pub limited_read_and_execute-reports :
    (run : List Text → Status) (file : Text)
    → limited_read_and_execute run file ≡ reports_of (read_and_execute run file)
unfolding limited_read_and_execute read_and_execute
limited_read_and_execute-reports run file = report_lines-read_lines (suc (length file)) run file

arguments_blank : arguments newline ≡ some (newline ∷ [])
unfolding arguments words tokens strtok cut
arguments_blank = refl

-- An empty line is a command whose name is a newline: where there is no such program, the lines after
-- it are not run.
pub blank_line :
    (run : List Text → Status) (rest : Text)
    → fails (run (newline ∷ [])) ≡ true
    → read_and_execute run (10 ∷ rest) ≡ some ((newline ∷ [], run (newline ∷ [])) ∷ [], false)
unfolding read_and_execute run_line
blank_line run rest h =
    read_lines-line (suc (length rest)) run (10 ∷ rest) newline rest (newline ∷ []) refl
      arguments_blank
    ∙ ground arith

-- For numbers that an `int` holds and that are not negative, the limits are the seconds and the
-- megabytes given, without overflow.
pub limits-exact :
    (time memory : ℕ)
    → time < 2 ^ 31
    → memory < 2 ^ 31
    → limits (pos time) (pos memory) ≡ record { cpu = time; address_space = memory * 1048576 }
unfolding limits to_rlim
limits-exact time memory p q =
    let seconds : time % 2 ^ 64 ≡ time = omega arith in
    let megabytes : memory % 2 ^ 64 ≡ memory = omega arith in
    let bytes : (memory * 1048576) % 2 ^ 64 ≡ memory * 1048576 = omega arith in
    rw (seconds, megabytes, bytes) refl
