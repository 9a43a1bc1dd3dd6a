-- ===== src/Toggle/Tests.antt =====
-- Signals to the parent of SysOpy/lab4/src/zad1/zad1.c.
use semestr.Prelude.{◌≡◌, refl, true, not, ◌&&◌, ◌==◌, List, [], ◌∷◌}
use semestr.Toggle.{start, Event, sigtstp, goes_on, sigint, run}
use semestr.Toggle.Scripts.{run-scripts}

abbrev stop_and_go : List Event
stop_and_go = sigtstp ∷ goes_on ∷ sigtstp ∷ goes_on ∷ goes_on ∷ []

run-scripts_example :
    (run stop_and_go start).scripts 1
    ≡ (1 == (run stop_and_go start).child && not (run stop_and_go start).stopped)
unfolding run start
run-scripts_example = run-scripts stop_and_go refl refl 1

-- SIGINT between `fork` and the assignment to CHILD leaves the new script running.
orphan_test : (run (sigtstp ∷ goes_on ∷ sigtstp ∷ goes_on ∷ sigint ∷ []) start).scripts 1 ≡ true
unfolding run start
orphan_test = refl
