-- ===== src/Toggle.antt =====
-- SysOpy/lab4/src/zad1/zad1.c: a parent that ends its script on one SIGTSTP and starts it again on the
-- next. The handler of SIGTSTP lets SIGINT in, so that it is taken in steps: the test of STOPPED, then
-- `kill`, or `fork` and the assignment of its result. The pids are numbers that were not used before;
-- the script does not end by itself.
pub mod Scripts
mod Tests
use semestr.Prelude.{
  ℕ, zero, suc, ◌+◌, Bool, true, false, Option, none, some, List, [], ◌∷◌, ◌==◌, if◌then◌else◌,
  ◌>>=◌,
}

-- Where the parent is: in the loop of `main`, or in the handler of SIGTSTP, before `kill`, before
-- `fork`, or before the assignment of the pid of the new script.
pub data Place : Type 0 where
  looping killing forking : Place
  assigning : ℕ → Place

-- STOPPED and CHILD, the scripts that run, and whether the parent does.
pub record State : Type 0 where
  pub stopped : Bool
  pub child : ℕ
  pub scripts : ℕ → Bool
  pub next_pid : ℕ
  pub place : Place
  pub alive : Bool

abbrev pub with_script : ℕ → Bool → (ℕ → Bool) → ℕ → Bool
with_script pid runs scripts q = if q == pid then runs else scripts q

-- `main`, where the first script is started.
unfoldable pub start : State
start = record {
  stopped = false;
  child = 0;
  scripts = λ q. if q == 0 then true else false;
  next_pid = 1;
  place = looping;
  alive = true;
}

-- SIGTSTP, which waits while its handler runs, and the steps of the handler.
unfoldable pub on_sigtstp : Place → State → State
on_sigtstp looping s =
    if s.stopped
    then record s { stopped = false; place = forking }
    else record s { stopped = true; place = killing }
on_sigtstp killing s = s
on_sigtstp forking s = s
on_sigtstp (assigning p) s = s

unfoldable pub go_on : Place → State → State
go_on looping s = s
go_on killing s = record s { scripts = with_script s.child false s.scripts; place = looping }
go_on forking s = record s {
  scripts = with_script s.next_pid true s.scripts;
  next_pid = s.next_pid + 1;
  place = assigning s.next_pid;
}
go_on (assigning p) s = record s { child = p; place = looping }

-- SIGINT: `kill(CHILD, SIGKILL); raise(SIGKILL);`
unfoldable pub on_sigint : State → State
on_sigint s = record s { scripts = with_script s.child false s.scripts; alive = false }

pub data Event : Type 0 where
  sigtstp goes_on sigint : Event

unfoldable pub step : Event → State → State
unfolding on_sigtstp go_on on_sigint
step sigtstp s = if s.alive then on_sigtstp s.place s else s
step goes_on s = if s.alive then go_on s.place s else s
step sigint s = if s.alive then on_sigint s else s

unfoldable pub run : List Event → State → State
unfolding step
run [] s = s
run (e ∷ es) s = run es (step e s)
