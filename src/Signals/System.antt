-- ===== src/Signals/System.antt =====
-- The processes of SysOpy/lab4/src/zad2/zad2.c: the parent with its handler and its loop over `wait`, and
-- children that ask once, in `childLabour`. Child `i` has the pid `i`. SIGUSR1 is pending once at most,
-- with the pid of the sender that made it so. The real-time signal of a child that goes on leads to a
-- print only, and is left out, as is SIGINT. The handlers are taken to be installed before the first
-- request, which the children's `usleep` is for. `none` is a step that cannot be taken.
pub mod Counting
pub mod Asked
pub mod Stuck
use semestr.Prelude.{
  ℕ, zero, suc, ◌+◌, Bool, true, false, ◌&&◌, ◌||◌, Option, none, some, List, [], ◌∷◌, length, drop,
  ltb, ◌==◌, if◌then◌else◌, ◌>>=◌,
}
use semestr.Signals.{Parent, start, signal_handling}

-- A child: before its request, between `kill` and `sigsuspend`, in `sigsuspend`, the same with its
-- permission behind it, ended, and waited for.
pub data Phase : Type 0 where
  resting asking suspended late exited reaped : Phase

pub record State : Type 0 where
  pub parent : Parent
  pub request : Option ℕ
  pub child : ℕ → Phase
  pub permission : ℕ → Bool

abbrev pub update {ℓ} : {A : Type ℓ} → ℕ → A → (ℕ → A) → ℕ → A
update i a f j = if j == i then a else f j

-- `parse` and `makeChildren`, with so many requests wanted.
unfoldable pub start_system : ℕ → State
unfolding start
start_system requests = record {
  parent = start requests;
  request = none;
  child = λ i. resting;
  permission = λ i. false;
}

abbrev pub is_resting : Phase → Bool
is_resting resting = true
is_resting _ = false

abbrev pub is_asking : Phase → Bool
is_asking asking = true
is_asking _ = false

abbrev pub is_exited : Phase → Bool
is_exited exited = true
is_exited _ = false

-- `kill(getppid(), SIGUSR1)`: nothing is added to a signal that is pending.
abbrev pub pend : ℕ → Option ℕ → Option ℕ
pend i none = some i
pend i (some j) = some j

-- Whether a pid is among those that were sent SIGUSR2.
abbrev pub is_in : ℕ → List ℕ → Bool
is_in i [] = false
is_in i (p ∷ ps) = i == p || is_in i ps

-- SIGUSR1 in the parent, with the SIGUSR2 that its handler sends.
unfoldable pub handle_request : ℕ → State → Option State
unfolding signal_handling
handle_request pid s = do
  parent ← signal_handling pid s.parent
  let sent = drop (length s.parent.granted) parent.granted
  some (record s {
    parent = parent;
    request = none;
    permission = λ i. is_in i sent || s.permission i;
  })

-- SIGUSR2 in a child, which `sigsuspend` returns for. A child that is not there yet goes into it later.
abbrev pub resumed : Phase → Option Phase
resumed resting = some resting
resumed asking = some late
resumed suspended = some exited
resumed late = some exited
resumed exited = none
resumed reaped = none

unfoldable pub handle_permission : ℕ → State → Option State
handle_permission i s =
    if s.permission i
    then (do
      phase ← resumed (s.child i)
      some (record s { child = update i phase s.child; permission = update i false s.permission }))
    else none

pub data Event : Type 0 where
  asks suspends resumes waits : ℕ → Event
  parent_handles : Event

-- A step of the processes, of `n` children.
unfoldable pub step : ℕ → Event → State → Option State
unfolding handle_request handle_permission
step n (asks i) s =
    if ltb i n && is_resting (s.child i)
    then some (record s { child = update i asking s.child; request = pend i s.request })
    else none
step n (suspends i) s =
    if is_asking (s.child i) then some (record s { child = update i suspended s.child }) else none
step n (resumes i) s = handle_permission i s
step n (waits i) s =
    if is_exited (s.child i) then some (record s { child = update i reaped s.child }) else none
step n parent_handles s = s.request >>= λ pid. handle_request pid s

unfoldable pub run : ℕ → List Event → State → Option State
unfolding step
run n [] s = some s
run n (e ∷ es) s = do t ← step n e s; run n es t
