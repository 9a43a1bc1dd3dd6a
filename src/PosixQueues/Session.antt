-- ===== src/PosixQueues/Session.antt =====
-- A whole run of SysOpy/lab6/src/zad2/client.c with the server: `init`, `connect` and the loop of
-- `sendMessages` over the lines of its input. The server handles a message before the client looks for
-- the answer; messages of other clients do not come between.
pub mod Scripts
use semestr.Prelude.{
  ℕ, zero, suc, ◌+◌, ◌-◌, ◌%◌, Bool, true, false, Option, none, some, List, [], ◌∷◌, ◌++◌,
  get_elem?, if◌then◌else◌, ◌>>=◌,
}
use semestr.Prelude.Int.{ℤ}
use semestr.CString.{Text, same_text}
use semestr.PosixQueues.{
  prepare_message, argument, Server, Round, continues, closed, exits, handle, send_message,
}

-- The letters of `getRandomName`, with what `rand` gives from call `k` on.
unfoldable pub random_letters : (ℕ → ℕ) → ℕ → ℕ → Text
random_letters rand k zero = []
random_letters rand k (suc n) = (rand k % (b'z' - b'a') + b'a') ∷ random_letters rand (k + 1) n

unfoldable pub get_random_name : (ℕ → ℕ) → Text
unfolding random_letters
get_random_name rand = b'/' ∷ random_letters rand 1 (rand 0 % 10 + 5 - 1)

-- The messages in a queue, the first one first, the ones that were taken included.
abbrev pub queue_of : Text → List (Text × Text) → List Text
queue_of name [] = []
queue_of name ((to, message) ∷ sent) =
    let rest = queue_of name sent in if same_text to name then message ∷ rest else rest

-- The client: the server as its messages have made it, the messages that it has taken from its queue,
-- and what it has printed.
pub record Client : Type 0 where
  pub server : Server
  pub taken : ℕ
  pub printed : List Text

-- `break` at END; a server that has ended; or the end of the input, where `getline` fails, `strtok`
-- returns NULL, and `continue` begins the loop again for ever.
pub data Ending : Type 0 where
  ends : Client → Ending
  spins : Client → Ending

-- `mq_receive`: the next message; with none the client would wait for ever.
abbrev pub receive_message : Text → Client → Option (Text × Client)
receive_message name c = do
  message ← get_elem? (queue_of name c.server.sent) c.taken
  some (message, record c { taken = c.taken + 1 })

-- `connect`
unfoldable pub connect : Text → (ℤ → ℤ → Text) → Text → Server → Option Client
unfolding handle
connect now print name s = prepare_message 1 name [] >>= λ hello. handle now print s hello >>= λ r.
    elim r [
      | continues t ↦ do
        (message, c) ← receive_message name (record { server = t; taken = 0; printed = [] })
        some c
      | closed ↦ none
      | exits ↦ none
    ]

-- An answer, and what `printf` gets.
unfoldable pub print_answer : Text → Client → Option Client
unfolding argument
print_answer name c = do
  (message, d) ← receive_message name c
  text ← argument message
  some (record d { printed = c.printed ++ text ∷ [] })

-- A message that was sent: the client that goes on, or none at END.
unfoldable pub exchange : Text → (ℤ → ℤ → Text) → Text → Text → Client → Option (Option Client)
unfolding handle print_answer
exchange now print name message c = handle now print c.server message >>= λ r. elim r [
  | continues t ↦ do d ← print_answer name (record c { server = t }); some (some d)
  | closed ↦ some none
  | exits ↦ none
]

-- The loop of `sendMessages`, over the lines that `getline` reads.
unfoldable pub send_messages : Text → (ℤ → ℤ → Text) → Text → List Text → Client → Option Ending
unfolding send_message exchange
send_messages now print name [] c = some (spins c)
send_messages now print name (line ∷ lines) c = send_message name line >>= λ sent. elim sent [
  | none ↦ send_messages now print name lines c
  | some message ↦ exchange now print name message c >>= λ next. elim next [
    | none ↦ some (ends c)
    | some d ↦ send_messages now print name lines d
  ]
]

-- `sender`, with the input's lines.
unfoldable pub sender : Text → (ℤ → ℤ → Text) → (ℕ → ℕ) → List Text → Server → Option Ending
unfolding connect get_random_name send_messages
sender now print rand lines s = do
  c ← connect now print (get_random_name rand) s
  send_messages now print (get_random_name rand) lines c
