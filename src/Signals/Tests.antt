-- ===== src/Signals/Tests.antt =====
-- SysOpy/lab4/src/zad2/zad2.c on small inputs: a parent with two requests wanted and three made, a run of
-- the parent with two children, and two options.
use semestr.Prelude.{◌≡◌, ◌≤◌, refl, arith, Option, none, some, List, [], ◌∷◌, ◌==◌}
use semestr.CString.{Text}
use semestr.Signals.{Parent, start, after_request, signal_handling, requests, grant_pending}
use semestr.Signals.Grants.{requests-granted}
use semestr.Signals.Options.{
  pid_option, kill_option, option_value, count_enum_value, tests_option, occurrences, ask_option,
  perm_option, sig_option, count_enum_value-tests,
}
use semestr.Signals.System.{
  State, Event, asks, suspends, resumes, waits, parent_handles, start_system, handle_request,
  handle_permission, step, run,
}
use semestr.Signals.System.Counting.{asked}
use semestr.Signals.System.Asked.{has_permission-asked}
use semestr.Signals.System.Stuck.{IsStuck, both_ask, lost_request}

requests-granted_example :
    (t : Parent) × (requests (11 ∷ 12 ∷ 13 ∷ []) (start 2) ≡ some t)
    × (t.granted ≡ 12 ∷ 11 ∷ 13 ∷ [])
requests-granted_example = requests-granted 2 (11 ∷ 12 ∷ 13 ∷ [])

abbrev both_served : List Event
both_served =
    asks 0
    ∷ parent_handles
    ∷ suspends 0
    ∷ asks 1
    ∷ suspends 1
    ∷ parent_handles
    ∷ resumes 1
    ∷ waits 1
    ∷ resumes 0
    ∷ []

abbrev after : Option State → State
after none = start_system 2
after (some t) = t

abbrev served : State
served = after (run 2 both_served (start_system 2))

has_permission-asked_example : 2 ≤ asked 2 served.child
unfolding run step handle_request handle_permission signal_handling after_request start_system start
    grant_pending
has_permission-asked_example = has_permission-asked 2 2 0 both_served served refl refl

lost_request_example : (t : State) × (run 2 both_ask (start_system 3) ≡ some t) × IsStuck 2 t
lost_request_example = lost_request 1

abbrev two_options : List Text
two_options = kill_option ∷ pid_option ∷ []

count_enum_value-tests_example :
    (tests_option (count_enum_value two_options) 1 ≡ (occurrences pid_option two_options == 1))
    × (tests_option (count_enum_value two_options) 2 ≡ (occurrences ask_option two_options == 1))
    × (tests_option (count_enum_value two_options) 4 ≡ (occurrences perm_option two_options == 1))
    × (tests_option (count_enum_value two_options) 8 ≡ (occurrences sig_option two_options == 1))
    × (tests_option (count_enum_value two_options) 16 ≡ (occurrences kill_option two_options == 1))
unfolding option_value
count_enum_value-tests_example =
    count_enum_value-tests two_options (omega arith) (omega arith) (omega arith) (omega arith)
      (omega arith)
