-- ===== src/Pipeline.antt =====
-- SysOpy/lab5/src/zad1/zad1.c: a program that runs each line of a file as a pipeline, its programs
-- separated by `|`. `none` is a loop that runs out of fuel. The pipes of earlier lines, which stay open in
-- the parent and in later children, are left out.
pub mod Lines
pub mod Descriptors
pub mod Filters
mod Tests
use semestr.Prelude.{
  ℕ, zero, suc, ◌+◌, ◌-◌, Bool, true, false, not, ◌&&◌, ◌||◌, Option, none, some, List, [], ◌∷◌,
  map, ltb, ◌==◌, if◌then◌else◌, ◌>>=◌,
}
use semestr.CString.{Text, has}
use semestr.CString.Words.{words}

-- `buf`, all bytes of a string but the last.
abbrev pub drop_last : Text → Text
drop_last [] = []
drop_last (c ∷ []) = []
drop_last (c ∷ d ∷ cs) = c ∷ drop_last (d ∷ cs)

-- The loop that deletes newlines, for one argument.
abbrev pub without_newline : Text → Text
without_newline argument = if has argument 10 then drop_last argument else argument

unfoldable pub prepare_arguments : Text → ℕ → Option (List Text)
unfolding words
prepare_arguments program separator = do
  arguments ← words (separator ∷ []) program
  some (map without_newline arguments)

-- The arguments of each program of a line.
unfoldable pub each_program : List Text → Option (List (List Text))
unfolding prepare_arguments
each_program [] = some []
each_program (program ∷ programs) = do
  arguments ← prepare_arguments program 32
  more ← each_program programs
  some (arguments ∷ more)

-- A line of `readAndExecute`, up to the children.
unfoldable pub pipeline : Text → Option (List (List Text))
unfolding each_program
pipeline line = do programs ← prepare_arguments line b'|'; each_program programs

-- What a file descriptor is open on: the ends of pipe `i` are `fd[i][0]` and `fd[i][1]`.
pub data End : Type 0 where
  terminal : End
  reads writes : ℕ → End

abbrev pub same_end : End → End → Bool
same_end terminal terminal = true
same_end terminal (reads j) = false
same_end terminal (writes j) = false
same_end (reads i) terminal = false
same_end (reads i) (reads j) = i == j
same_end (reads i) (writes j) = false
same_end (writes i) terminal = false
same_end (writes i) (reads j) = false
same_end (writes i) (writes j) = i == j

-- The descriptors of a process: 0, 1, and those that `pipe` returned.
pub record Fds : Type 0 where
  pub input : End
  pub output : End
  pub others : List End

-- The loop of `pipe` calls, the last pipe first.
unfoldable pub make_pipes : ℕ → List End
make_pipes zero = []
make_pipes (suc n) = reads n ∷ writes n ∷ make_pipes n

unfoldable pub close_end : End → List End → List End
close_end e [] = []
close_end e (f ∷ fs) = let rest = close_end e fs in if same_end e f then rest else f ∷ rest

-- A child has what the parent had at its `fork`.
unfoldable pub parent_fds : ℕ → Fds
unfolding make_pipes
parent_fds n = record { input = terminal; output = terminal; others = make_pipes (n - 1) }

unfoldable pub take_input : ℕ → Fds → Fds
unfolding close_end
take_input i fds = if i == 0 then fds else record fds {
  input = reads (i - 1);
  others = close_end (writes (i - 1)) (close_end (reads (i - 1)) fds.others);
}

unfoldable pub give_output : ℕ → ℕ → Fds → Fds
unfolding close_end
give_output n i fds = if i == n - 1 then fds else record fds {
  output = writes i;
  others = close_end (writes i) (close_end (reads i) fds.others);
}

-- The descriptors of child `i` of `n`, where it starts its program.
unfoldable pub child_fds : ℕ → ℕ → Fds
unfolding parent_fds take_input give_output
child_fds n i = give_output n i (take_input i (parent_fds n))

abbrev pub is_open : End → List End → Bool
is_open e [] = false
is_open e (f ∷ fs) = same_end e f || is_open e fs

-- Whether a process can write to a pipe.
unfoldable pub holds_write : Fds → ℕ → Bool
holds_write fds j = same_end (writes j) fds.output || is_open (writes j) fds.others
