-- ===== src/Counters.antt =====
-- SysOpy/lab4/src/zad3/zad3.c: a parent that sends signals to its child, which answers each one, and
-- counters of both. A signal below SIGRTMIN is pending once at most, the others are queued; a handler
-- runs with all signals blocked (SIGINT aside), so that it is one step. The steps start after the `sleep`
-- in which the child gets ready; `sleep` in type 3 is long: its time is over only when no process has
-- something to do. Signals that are pending together are taken in any order. `none` is a step that cannot
-- be taken.
pub mod Counts
pub mod Replies
mod Tests
use semestr.Prelude.{
  ℕ, zero, suc, ◌+◌, Bool, true, false, ◌&&◌, Option, none, some, List, [], ◌∷◌, ltb, leb, ◌==◌,
  if◌then◌else◌, ◌>>=◌,
}
use semestr.Prelude.Int.{ℤ, pos, negsuc}

-- Where the parent is in `licenceToKill`: in the loop with the rounds that are left, between `kill`
-- and `pause`, in `pause`, at the `kill`s of type 3, in `sleep`, in `waitpid`, after it, and ended
-- by SIGINT.
pub data Phase : Type 0 where
  sending before_pause pausing real_time : ℕ → Phase
  sleeping waiting returned killed : Phase

-- The globals of both processes, the signals that are pending, and whether SIGUSR2 is for the child.
pub record State : Type 0 where
  pub kind : ℕ
  pub sent : ℕ
  pub received_child : ℕ
  pub received_parent : ℕ
  pub child_pending : ℕ
  pub parent_pending : ℕ
  pub child_usr2 : Bool
  pub child_alive : Bool
  pub parent : Phase

abbrev pub rounds : ℤ → ℕ
rounds (pos n) = n
rounds (negsuc n) = 0

-- `fork` in `licenceToKill`, with both counters at 0.
unfoldable pub licence_to_kill : ℕ → ℕ → State
licence_to_kill n kind = record {
  kind = kind;
  sent = 0;
  received_child = 0;
  received_parent = 0;
  child_pending = 0;
  parent_pending = 0;
  child_usr2 = false;
  child_alive = true;
  parent = if ltb kind 3 then sending n else real_time 2;
}

-- `parse`, from `argc` and what `sscanf` reads: nothing where it returns -1.
unfoldable pub parse : ℕ → Option ℤ → Option ℤ → Option State
unfolding licence_to_kill
parse argc number kind =
    if argc == 3
    then (do
      n ← number
      k ← kind
      elim k [
        | pos t ↦ if leb 1 t && leb t 3 then some (licence_to_kill (rounds n) t) else none
        | negsuc t ↦ none
      ])
    else none

-- What is pending after one more signal.
abbrev pub pend : ℕ → ℕ → ℕ
pend kind pending = if kind == 3 then suc pending else 1

-- `SENT++; kill(CHILD, SIGUSR1); if (type == 2) pause();` up to the `pause`.
unfoldable pub send_one : ℕ → State → State
send_one n s = record s {
  sent = s.sent + 1;
  child_pending = pend s.kind s.child_pending;
  parent = if s.kind == 2 then before_pause n else sending n;
}

-- The next statement of the parent.
unfoldable pub parent_runs : Phase → State → Option State
unfolding send_one
parent_runs (sending (suc n)) s = some (send_one n s)
parent_runs (sending zero) s = some (record s { child_usr2 = true; parent = waiting })
parent_runs (before_pause n) s = some (record s { parent = pausing n })
parent_runs (pausing n) s = none
parent_runs (real_time (suc n)) s =
    some (record s { child_pending = pend s.kind s.child_pending; parent = real_time n })
parent_runs (real_time zero) s = some (record s { sent = 2; parent = sleeping })
parent_runs sleeping s =
    if s.child_pending == 0 && s.parent_pending == 0
    then some (record s { parent = sending 0 })
    else none
parent_runs waiting s = if s.child_alive then none else some (record s { parent = returned })
parent_runs returned s = none
parent_runs killed s = none

-- Where the parent goes on after a handler: `pause`, `sleep` and `waitpid` return.
abbrev pub woken : Phase → Phase
woken (sending n) = sending n
woken (before_pause n) = before_pause n
woken (pausing n) = sending n
woken (real_time n) = real_time n
woken sleeping = sending 0
woken waiting = returned
woken returned = returned
woken killed = killed

abbrev pub is_over : Phase → Bool
is_over (sending n) = false
is_over (before_pause n) = false
is_over (pausing n) = false
is_over (real_time n) = false
is_over sleeping = false
is_over waiting = false
is_over returned = true
is_over killed = true

-- `signalHandling` in the parent, for the signals that count.
unfoldable pub parent_handles : ℕ → State → Option State
parent_handles zero s = none
parent_handles (suc pending) s =
    if is_over s.parent
    then none
    else some (record s {
      parent_pending = pending;
      received_parent = s.received_parent + 1;
      parent = woken s.parent;
    })

-- `signalHandling` in the child, for the signals that count.
unfoldable pub child_handles : ℕ → State → Option State
child_handles zero s = none
child_handles (suc pending) s =
    if s.child_alive
    then some (record s {
      child_pending = pending;
      received_child = s.received_child + 1;
      parent_pending = pend s.kind s.parent_pending;
    })
    else none

-- `signalHandling` in the child, for SIGUSR2.
unfoldable pub child_dies : State → Option State
child_dies s =
    if s.child_alive && s.child_usr2
    then some (record s { child_alive = false; child_usr2 = false })
    else none

-- `signalHandling` in the parent, for SIGINT.
unfoldable pub interrupted : State → Option State
interrupted s =
    if is_over s.parent
    then none
    else some (record s { child_usr2 = s.child_alive; parent = killed })

pub data Event : Type 0 where
  parent_step parent_handler child_handler child_usr2_handler interrupt : Event

unfoldable pub step : Event → State → Option State
unfolding parent_runs parent_handles child_handles child_dies interrupted
step parent_step s = parent_runs s.parent s
step parent_handler s = parent_handles s.parent_pending s
step child_handler s = child_handles s.child_pending s
step child_usr2_handler s = child_dies s
step interrupt s = interrupted s

unfoldable pub run : List Event → State → Option State
unfolding step
run [] s = some s
run (e ∷ es) s = do t ← step e s; run es t
