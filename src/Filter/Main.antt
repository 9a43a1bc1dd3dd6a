-- ===== src/Filter/Main.antt =====
-- `main` of SysOpy/lab8/src/zad1/main.c: the files, the threads and the file that is written. A file that
-- cannot be opened is a fault, as `fgets` takes a null pointer then.
pub mod Run
use semestr.Prelude.{ℕ, Bool, Option, none, some, List, [], ◌∷◌, if◌then◌else◌, ◌>>=◌}
use semestr.Prelude.Int.{ℤ, pos_part}
use semestr.CString.{Text, atoi}
use semestr.Filter.{Doubles, Globals, State, start, run, all_finished}
use semestr.Filter.Image.{Image, parse_image, Weights, parse_filter, write_to_file}

-- How the program ends, or that the loop of `doSomeWork` goes on after the threads' steps.
pub data Exit : Type 0 where
  bad_arguments waits : Exit
  writes : Text → Text → Exit

-- The globals that the threads read. With a negative number no loop over it makes a round.
unfoldable pub globals : {D : Type 0} → ℤ → Image → Weights D → Globals D
globals threads image weights = record {
  width = pos_part image.width;
  height = pos_part image.height;
  num_of_threads = pos_part threads;
  filter_size = pos_part weights.filter_size;
  input = image.pixels;
  filter = weights.filter;
}

-- `doSomeWork`, with the threads' steps in their order, and `writeToFile`.
unfoldable pub do_some_work :
    {D : Type 0} → Doubles D → Globals D → Image → List ℕ → Text → Option Exit
unfolding run all_finished write_to_file start
do_some_work d g image schedule output = do
  s ← run d g schedule (start d g)
  some (
      if all_finished g.num_of_threads s.finished
      then writes output (write_to_file (record image { pixels = s.output }))
      else waits)

-- From the arguments after the program's name, with the files by their names.
unfoldable pub filter_main :
    {D : Type 0}
    → Doubles D
    → (Text → Option D)
    → (Text → Option Text)
    → List ℕ
    → List Text
    → Option Exit
unfolding parse_image parse_filter do_some_work globals
filter_main d scan files schedule (threads ∷ input ∷ filter ∷ output ∷ []) = do
  image_file ← files input
  image ← parse_image image_file
  filter_file ← files filter
  weights ← parse_filter scan d.zero_double filter_file
  do_some_work d (globals (atoi threads) image weights) image schedule output
filter_main d scan files schedule args = some bad_arguments
