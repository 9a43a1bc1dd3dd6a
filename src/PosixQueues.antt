-- ===== src/PosixQueues.antt =====
-- SysOpy/lab6/src/zad2: server.c and client.c over POSIX message queues, whose messages are texts
-- "mode|queue|argument". A queue stands for its name; the text of a
-- date and of a number by "%f" are arguments. `none` is undefined behaviour, as is a
-- message or a line that does not fit into its 128 bytes.
pub mod Fields
pub mod Mirroring
pub mod Session
mod Tests
use semestr.Prelude.{
  ℕ, ◌+◌, Bool, true, false, not, Option, none, some, List, [], ◌∷◌, ◌++◌, length, ltb, ◌==◌,
  if◌then◌else◌, ◌>>=◌,
}
use semestr.Prelude.Int.{ℤ}
use semestr.Queues.Commands.{time_command, end_command, calc_command, mirror_command}
use semestr.CString.{Text, same_text, strtok}
use semestr.Queues.{calculate, mirror_from}

-- SERVER, "/server".
abbrev pub server_name : Text
server_name = b'/' ∷ b's' ∷ b'e' ∷ b'r' ∷ b'v' ∷ b'e' ∷ b'r' ∷ []

-- What `prepareMessage` writes.
unfoldable pub message_text : ℕ → Text → Text → Text
message_text mode name arg = (b'0' + mode) ∷ b'|' ∷ (name ++ b'|' ∷ arg)

-- Fits into MAX_MSG_LENGTH bytes with a final null.
abbrev pub fits_message : Text → Bool
fits_message text = ltb (length text) 128

-- `prepareMessage`, of the server for its own name and of the client for its queue's, into its buffer.
unfoldable pub prepare_message : ℕ → Text → Text → Option Text
unfolding message_text
prepare_message mode name arg =
    let text = message_text mode name arg in if fits_message text then some text else none

-- The queue's name in a message, with what follows the second "|".
unfoldable pub fields : Text → Option (Text × Text)
fields buffer = do (_, rest) ← strtok (b'|' ∷ []) buffer; strtok (b'|' ∷ []) rest

-- The argument in a message: for the server, and for the client that prints an answer.
unfoldable pub argument : Text → Option Text
argument buffer = do (_, rest) ← fields buffer; (arg, _) ← strtok (10 ∷ []) rest; some arg

-- The locals of the server's `receive`, with what it sent so far: queue and text.
pub record Server : Type 0 where
  pub clients : List Text
  pub sent : List (Text × Text)

-- What a round of the loop leaves.
pub data Round : Type 0 where
  continues : Server → Round
  closed exits : Round

-- `mq_send` into a client's queue.
abbrev pub send : Text → ℕ → Text → Server → Option Round
send name mode arg s = do
  message ← prepare_message mode server_name arg
  some (continues (record s { sent = s.sent ++ (name, message) ∷ [] }))

-- A round of the server's `receive`, on the text in `buffer`.
unfoldable pub handle : Text → (ℤ → ℤ → Text) → Server → Text → Option Round
unfolding prepare_message
handle now print s [] = none
handle now print s (mode ∷ rest) = do
  (name, _) ← fields (mode ∷ rest)
  let mirrored : Option Round = (do
    sentence ← argument (mode ∷ rest)
    result ← mirror_from sentence (length sentence) []
    send name 2 result s) in
      let computed : Option Round = (do
        expression ← argument (mode ∷ rest)
        (a, b) ← calculate expression
        send name 4 (print a b) s) in
      if mode == b'1'
      then send name 1 [] (record s { clients = s.clients ++ name ∷ [] })
      else if mode == b'4'
      then computed
      else if mode == b'3'
      then send name 3 now s
      else if mode == b'5'
      then some closed
      else if mode == b'2'
      then mirrored
      else some exits

-- A message with no argument.
abbrev pub without_argument : ℕ → Text → Option (Option Text)
without_argument mode name = do message ← prepare_message mode name []; some (some message)

-- The argument of a command; NULL is undefined.
abbrev pub with_argument : ℕ → Text → Text → Option (Option Text)
with_argument mode name rest = do
  (arg, _) ← strtok (10 ∷ []) rest
  message ← prepare_message mode name arg
  some (some message)

-- The body of the loop of `sendMessages`: what the client with this queue sends for a line, if
-- anything.
unfoldable pub send_message : Text → Text → Option (Option Text)
unfolding prepare_message
send_message name line =
    if not (fits_message line) then none else elim (strtok (32 ∷ 10 ∷ []) line) [
      | none ↦ some none
      | some (command, rest) ↦
          if same_text command time_command
          then without_argument 3 name
          else if same_text command end_command
          then without_argument 5 name
          else if same_text command calc_command
          then with_argument 4 name rest
          else if same_text command mirror_command
          then with_argument 2 name rest
          else some none
    ]
