-- ===== src/Pipeline/Tests.antt =====
-- Lines of `cat a|sort` and their processes.
use semestr.Prelude.{◌≡◌, refl, arith, some, true, false, ◌==◌, if◌then◌else◌, List, [], ◌∷◌, ◌++◌}
use semestr.CString.{Text}
use semestr.CString.Words.{join}
use semestr.CString.Lines.{newline}
use semestr.Pipeline.{pipeline}
use semestr.Pipeline.Lines.{texts, pipeline-join}
use semestr.Pipeline.Filters.{Processes, parent_ends, child_ends, run, deadlock}

abbrev commands : List (List Text)
commands = ((b'c' ∷ []) ∷ (b'a' ∷ []) ∷ []) ∷ ((b's' ∷ []) ∷ []) ∷ []

pipeline-join_example : pipeline (join b'|' (texts commands) ++ newline) ≡ some commands
pipeline-join_example =
    pipeline-join commands (λ e. cc)
      (
        (
          (λ e. cc),
          ((λ e. cc), (refl, tt), ((λ e. cc), (refl, tt), tt)),
          ((λ e. cc), (refl, tt), ((λ e. cc), (refl, tt), tt)),
          ((λ e. cc), (refl, tt), ((λ e. cc), (refl, tt), tt)),
        ),
        (
          (
            (λ e. cc),
            ((λ e. cc), (refl, tt), tt),
            ((λ e. cc), (refl, tt), tt),
            ((λ e. cc), (refl, tt), tt),
          ),
          tt,
        ),
      )

-- The first program and the parent have ended.
abbrev waiting : Processes
waiting = record { parent = false; children = λ j. if j == 0 then false else true }

deadlock_example : (waiting.children 1 ≡ true) × (waiting.children 2 ≡ true)
unfolding run
deadlock_example = deadlock 3 (parent_ends ∷ child_ends 0 ∷ []) waiting (omega arith) refl
