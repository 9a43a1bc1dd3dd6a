-- ===== src/Runner.antt =====
-- SysOpy/lab3/src/zad2/zad2.c and SysOpy/lab3/src/zad3a/zad3a.c: programs that run the commands of a
-- file, a line at a time, each in a child process, up to the first one that fails. zad3a limits the
-- time and the memory of its children. What the programs that are run do, and `basename`, are
-- arguments; that `basename` cuts slashes off the end of its argument is left out.
pub mod Lines
pub mod Batch
mod Tests
use semestr.Prelude.{
  ℕ, zero, suc, ◌+◌, ◌-◌, ◌*◌, ◌%◌, ◌^◌, Bool, true, false, not, ◌&&◌, ◌||◌, Option, none, some,
  List, [], ◌∷◌, map, length, ◌==◌, if◌then◌else◌, ◌>>=◌,
}
use semestr.Prelude.Int.{ℤ, pos, negsuc}
use semestr.CString.{Text, atoi}
use semestr.CString.Words.{words}

-- What `getline` reads: a line with its newline, or what the file ends with; -1 at the end.
abbrev pub line_of : Text → Text × Text
line_of [] = ([], [])
line_of (c ∷ cs) =
    let (line, rest) = line_of cs in if c == 10 then (c ∷ [], cs) else (c ∷ line, rest)

abbrev pub getline : Text → Option (Text × Text)
getline [] = none
getline (c ∷ cs) = some (line_of (c ∷ cs))

-- The string that `strtok(s, "\n")` leaves in `s`: it ends where the newline after the token was.
abbrev pub before_newline : Text → Text
before_newline [] = []
before_newline (c ∷ cs) = if c == 10 then [] else c ∷ before_newline cs

unfoldable pub cut : Text → Text
cut [] = []
cut (c ∷ cs) = let rest = cut cs in if c == 10 then c ∷ rest else c ∷ before_newline cs

-- The words of a line, without their newlines.
unfoldable pub arguments : Text → Option (List Text)
unfolding cut words
arguments line = do ws ← words (32 ∷ []) line; some (map cut ws)

-- `arguments[0]`, which is NULL on a line of spaces.
abbrev pub program : List Text → Option Text
program [] = none
program (w ∷ ws) = some w

-- What `wait` says of a child.
pub data Status : Type 0 where
  exited signaled : ℕ → Status

-- `execv` and `execvp`: nothing where they return -1, else how the program ends.
abbrev pub Exec : Type 0
Exec = Option Text → List Text → Option Status

-- `WIFEXITED(result) && WEXITSTATUS(result) != 0`
unfoldable pub fails : Status → Bool
fails (exited n) = not (n == 0)
fails (signaled n) = false

-- The child of zad2.
unfoldable pub child : Exec → Exec → (Option Text → Option Text) → List Text → Status
child execv execvp basename args = elim (execv (program args) args) [
  | some s ↦ s
  | none ↦ elim (execvp (basename (program args)) args) [ some s ↦ s | none ↦ exited 255 ]
]

-- The commands that were run, with their ends, and whether the end of the file was reached; `none`
-- is a loop that runs out of fuel.
abbrev pub Run : Type 0
Run = List (List Text × Status) × Bool

-- A round of zad2 with the arguments of its line, and the rounds that may follow.
unfoldable pub run_line : (List Text → Status) → List Text → Option Run → Option Run
unfolding fails
run_line run args rest =
    if fails (run args)
    then some ((args, run args) ∷ [], false)
    else do (more, ended) ← rest; some ((args, run args) ∷ more, ended)

-- The loop of zad2's `readAndExecute`.
unfoldable pub read_lines : ℕ → (List Text → Status) → Text → Option Run
unfolding run_line arguments
read_lines zero run file = none
read_lines (suc fuel) run file = elim (getline file) [
  | none ↦ some ([], true)
  | some (line, rest) ↦ do args ← arguments line; run_line run args (read_lines fuel run rest)
]

-- A line has at least one byte, so one round more than there are bytes is enough.
unfoldable pub read_and_execute : (List Text → Status) → Text → Option Run
unfolding read_lines
read_and_execute run file = read_lines (suc (length file)) run file

-- `(rlim_t) n`
unfoldable pub to_rlim : ℤ → ℕ
to_rlim (pos n) = n % 2 ^ 64
to_rlim (negsuc n) = 2 ^ 64 - 1 - n % 2 ^ 64

pub record Limits : Type 0 where
  pub cpu : ℕ
  pub address_space : ℕ

unfoldable pub limits : ℤ → ℤ → Limits
unfolding to_rlim
limits time memory = record {
  cpu = to_rlim time;
  address_space = (to_rlim memory * 1048576) % 2 ^ 64;
}

-- `parse` of zad3a, from `argc` and the two numbers: nothing where it returns -1.
unfoldable pub parse_limits : ℕ → Text → Text → Option Limits
unfolding limits atoi
parse_limits argc time memory = if argc == 4 then some (limits (atoi time) (atoi memory)) else none

-- The child of zad3a, under its limits.
unfoldable pub limited_child :
    (Limits → Exec) → (Limits → Exec) → (Option Text → Option Text) → Limits → List Text → Status
limited_child execv execvp basename l args = elim (execvp l (program args) args) [
  | some s ↦ s
  | none ↦ elim (execv l (basename (program args)) args) [ some s ↦ s | none ↦ exited 255 ]
]

-- What zad3a prints of a child.
pub data Report : Type 0 where
  terminated resources : Report
  killed : ℕ → Report

unfoldable pub report : Status → Report
report (exited n) = if n == 0 then resources else terminated
report (signaled n) = killed n

-- A round of zad3a; a child that a signal ended does not end the program.
unfoldable pub report_line : Status → Option (List Report) → Option (List Report)
unfolding report
report_line s rest = elim (report s) [
  | terminated ↦ some (terminated ∷ [])
  | resources ↦ do more ← rest; some (resources ∷ more)
  | killed n ↦ do more ← rest; some (killed n ∷ more)
]

-- The loop of zad3a's `readAndExecute`, and what it prints.
unfoldable pub report_lines : ℕ → (List Text → Status) → Text → Option (List Report)
unfolding report_line arguments
report_lines zero run file = none
report_lines (suc fuel) run file = elim (getline file) [
  | none ↦ some []
  | some (line, rest) ↦ do
    args ← arguments line
    report_line (run args) (report_lines fuel run rest)
]

unfoldable pub limited_read_and_execute : (List Text → Status) → Text → Option (List Report)
unfolding report_lines
limited_read_and_execute run file = report_lines (suc (length file)) run file
