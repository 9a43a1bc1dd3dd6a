-- ===== src/Barber.antt =====
-- The sleeping barber of SysOpy/lab7/src/zad1: barber.c and client.c, which share a record, a
-- message queue and a semaphore. The semaphore orders the bodies of the loops (Barber/Semaphore),
-- so each body is one step here. The program of zad2 has the same two loops over POSIX objects.
pub mod Semaphore
pub mod System
pub mod Invariant
pub mod Deadlock
mod Tests
use semestr.Prelude.{
  ℕ, zero, suc, ◌+◌, ◌-◌, Bool, true, false, not, ◌&&◌, ◌||◌, List, [], ◌∷◌, ◌++◌, ltb, leb, ◌==◌,
  if◌then◌else◌,
}

-- `enum status`
pub data Status : Type 0 where
  sleep wakes sits sits_first start ends leaves invites : Status

infix 50 ◌=?◌
abbrev pub ◌=?◌ : Status → Status → Bool
sleep =? sleep = true
wakes =? wakes = true
sits =? sits = true
sits_first =? sits_first = true
start =? start = true
ends =? ends = true
leaves =? leaves = true
invites =? invites = true
_ =? _ = false

-- `struct data`, with the pids in the message queue, oldest first.
pub record Shop : Type 0 where
  pub waiting_clients : ℕ
  pub queue_length : ℕ
  pub status : Status
  pub client_pid : ℕ
  pub barber_pid : ℕ
  pub queue : List ℕ

-- `main` of barber.c: the record that it copies into the shared memory.
unfoldable pub open_shop : ℕ → ℕ → Shop
open_shop queue_length pid = record {
  waiting_clients = 0;
  queue_length = queue_length;
  status = invites;
  client_pid = 0;
  barber_pid = pid;
  queue = [];
}

-- `msgrcv` with IPC_NOWAIT: the pid in the oldest message, or, with no message, `msg` as it was.
abbrev pub receive : ℕ → List ℕ → ℕ × List ℕ
receive msg [] = (msg, [])
receive msg (p ∷ ps) = (p, ps)

-- The branch of `barberLogic` at INVITES; the result has `msg.pid` beside the shop.
invite : ℕ → Shop → ℕ × Shop
invite msg s =
    let (pid, rest) = receive msg s.queue in
    if ltb 0 s.waiting_clients
    then (pid, record s { client_pid = pid; status = sits; queue = rest })
    else (msg, record s { status = sleep; client_pid = 0 })

-- One round of `barberLogic`, by the process with pid `me`.
unfoldable pub barber_logic : ℕ → ℕ → Shop → ℕ × Shop
unfolding invite
barber_logic me msg s =
    if s.status =? wakes && s.barber_pid == me
    then (msg, record s { status = sits_first })
    else if s.status =? start && s.barber_pid == me
    then (msg, record s { status = ends })
    else if s.status =? ends && s.barber_pid == me
    then (msg, record s { status = leaves })
    else if s.status =? invites && s.barber_pid == me
    then invite msg s
    else (msg, s)

-- What a round of `clientLogic` leaves: the shop, the global `client`, and whether the shave is over.
pub record Turn : Type 0 where
  pub shop : Shop
  pub client : ℕ
  pub over : Bool

-- The branch of `clientLogic` for a client that finds the barber busy.
take_seat : ℕ → ℕ → Shop → Turn
take_seat me client s =
    if leb s.queue_length s.waiting_clients
    then record { shop = s; client = client; over = true }
    else record {
      shop = record s { waiting_clients = s.waiting_clients + 1; queue = s.queue ++ me ∷ [] };
      client = me;
      over = false;
    }

-- One round of the inner loop of `clientLogic`, by the process with pid `me`.
unfoldable pub client_logic : ℕ → ℕ → Shop → Turn
unfolding take_seat
client_logic me client s =
    if s.status =? sleep && s.client_pid == 0 && client == 0
    then record {
      shop = record s { client_pid = me; status = wakes };
      client = client;
      over = false;
    }
    else if s.status =? sits_first && s.client_pid == me
    then record { shop = record s { status = start }; client = me; over = false }
    else if s.status =? sits && s.client_pid == me
    then record {
      shop = record s { status = start; waiting_clients = s.waiting_clients - 1 };
      client = client;
      over = false;
    }
    else if s.status =? leaves && s.client_pid == me
    then record { shop = record s { status = invites; client_pid = 0 }; client = 0; over = true }
    else if client == 0 && not (s.client_pid == 0)
    then take_seat me client s
    else record { shop = s; client = client; over = false }
