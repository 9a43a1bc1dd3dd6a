-- ===== src/Queues.antt =====
-- SysOpy/lab6/src/zad1/server.c: a server that reads requests from a System V message queue and
-- answers into the queues of its clients. The queues are the environment: what `msgrcv` delivers,
-- the queue that `msgget` finds for a key, the text of `ctime` and that of a number by "%f" are
-- arguments. Texts have at most 119 bytes, as a message carries no more of `mtext`. `none` is
-- undefined behaviour: a null pointer that is read.
pub mod Clients
pub mod Mirror
pub mod Calc
pub mod Commands
pub mod Runs
mod Tests
use semestr.Prelude.{
  ℕ, zero, suc, ◌+◌, ◌-◌, Bool, true, false, ◌&&◌, Option, none, some, List, [], ◌∷◌, ◌++◌, length,
  get_elem?, ◌==◌, if◌then◌else◌, ◌>>=◌,
}
use semestr.Prelude.Int.{ℤ, pos, ◌+ℤ◌, ◌-ℤ◌, ◌*ℤ◌}
use semestr.CString.{Text, has, strtok, atoi}

-- `enum msgType`; any other `mtype` above 0 is `unknown`.
pub data MsgType : Type 0 where
  init mirror time calc end unknown : MsgType

-- `struct msgbuf`, as the server receives it.
pub record Msg : Type 0 where
  pub mtype : MsgType
  pub pid : ℕ
  pub key : ℕ
  pub mtext : Text

-- `struct client`; a queue of -1 is none.
pub record Client : Type 0 where
  pub pid : ℕ
  pub client_id : ℕ
  pub queue : Option ℕ

-- A message that was put into a client's queue.
pub record Sent : Type 0 where
  pub to : ℕ
  pub mtype : ℕ
  pub mtext : Text

-- The locals of `receive`, with the messages sent so far, oldest first.
pub record Server : Type 0 where
  pub client_id : ℕ
  pub clients : List Client
  pub close_flag : Bool
  pub sent : List Sent

-- What the server gets from the system.
pub record System : Type 0 where
  pub msgget : ℕ → Option ℕ
  pub now : Text
  pub print : ℤ → ℤ → Text

abbrev pub fresh : Server
fresh = record { client_id = 0; clients = []; close_flag = false; sent = [] }

-- The values of `enum msgType`.
abbrev pub code : MsgType → ℕ
code init = 1
code mirror = 2
code time = 3
code calc = 4
code end = 5
code unknown = 6

-- `getQueue`
unfoldable pub get_queue : ℕ → List Client → Option ℕ
get_queue pid [] = none
get_queue pid (c ∷ cs) = if c.pid == pid then c.queue else get_queue pid cs

-- `msgsnd`, which fails for a queue of -1.
abbrev pub send : Option ℕ → ℕ → Text → Server → Server
send none mtype text s = s
send (some q) mtype text s = record s {
  sent = s.sent ++ record { to = q; mtype = mtype; mtext = text } ∷ [];
}

-- `*strpbrk(text, "+-/*")`
unfoldable pub operator : Text → Option ℕ
operator [] = none
operator (c ∷ cs) = if has (b'+' ∷ b'-' ∷ b'/' ∷ b'*' ∷ []) c then some c else operator cs

-- The `switch` over the operator: a quotient, which is over 1 except for a division.
unfoldable pub compute : ℕ → ℤ → ℤ → ℤ × ℤ
unfolding ◌+ℤ◌ ◌-ℤ◌ ◌*ℤ◌
compute op a b =
    if op == b'+'
    then (a +ℤ b, pos 1)
    else if op == b'-'
    then (a -ℤ b, pos 1)
    else if op == b'*'
    then (a *ℤ b, pos 1)
    else (a, b)

-- The case CALC up to the reply: the quotient.
unfoldable pub calculate : Text → Option (ℤ × ℤ)
calculate text = do
  op ← operator text
  (first, rest) ← strtok (b' ' ∷ b'+' ∷ b'-' ∷ b'*' ∷ b'/' ∷ 10 ∷ []) text
  (second, _) ← strtok (10 ∷ []) rest
  some (compute op (atoi first) (atoi second))

-- The loop of the case MIRROR from `i = n - 1` on.
unfoldable pub mirror_from : Text → ℕ → Text → Option Text
mirror_from text zero result = some result
mirror_from text (suc i) result = do c ← get_elem? text i; mirror_from text i (result ++ c ∷ [])

-- The case INIT.
unfoldable pub register : System → Msg → Server → Server
register sys m s =
    let queue = sys.msgget m.key in
    send queue (s.client_id + 1) m.mtext (record s {
      client_id = s.client_id + 1;
      clients =
          s.clients ++ record { pid = m.pid; client_id = s.client_id + 1; queue = queue } ∷ [];
    })

-- A reply to the client that a message came from.
unfoldable pub reply : Msg → Text → Server → Server
reply m text s = send (get_queue m.pid s.clients) (code m.mtype) text s

-- What a round of the loop leaves: the server, or the call of `exit`.
pub data Round : Type 0 where
  continues : Server → Round
  exits : Round

-- The `switch` of `receive`.
unfoldable pub handle : System → Server → Msg → Option Round
handle sys s m = elim m.mtype [
  | init ↦ some (continues (register sys m s))
  | calc ↦ do (a, b) ← calculate m.mtext; some (continues (reply m (sys.print a b) s))
  | time ↦ some (continues (reply m sys.now s))
  | end ↦ some (continues (record s { close_flag = true }))
  | mirror ↦ do text ← mirror_from m.mtext (length m.mtext) []; some (continues (reply m text s))
  | unknown ↦ some exits
]

-- How the loop of `receive` stands: it goes on polling, has closed the queue, or has exited.
pub data Stand : Type 0 where
  polling : Server → Stand
  closed : Server → Stand
  exited : Stand

-- The loop of `receive`, with what its calls of `msgrcv` deliver.
unfoldable pub receive : System → List (Option Msg) → Server → Option Stand
receive sys [] s = some (polling s)
receive sys (none ∷ ms) s =
    let rest = receive sys ms s in if s.close_flag then some (closed s) else rest
receive sys (some m ∷ ms) s = do
  round ← handle sys s m
  elim round [ continues t ↦ receive sys ms t | exits ↦ some exited ]
