-- ===== src/Cluster/Session.antt =====
-- The programs of SysOpy/lab10/src/zad1 together: the server, and nodes with their registration. A socket
-- delivers a message whole, and messages on different sockets in any order; that a dead node's
-- socket may end the server by SIGPIPE is left out, as is what `recv` of the nodes leaves in the buffer.
pub mod Messages
pub mod Results
use semestr.Prelude.{
  ℕ, zero, suc, ◌+◌, Bool, true, false, not, ◌&&◌, ◌||◌, Option, none, some, List, [], ◌∷◌, ◌==◌,
  if◌then◌else◌, ◌>>=◌,
}
use semestr.Prelude.Int.{ℤ}
use semestr.CString.{Text}
use semestr.CString.Decimal.{print_int}
use semestr.Cluster.{
  Slot, Server, start, Answer, yes_sent, no_sent, nothing, connect, ping, choose, request,
  on_result,
}
use semestr.Cluster.Node.{answer}

-- The first message of `receive` of client.c.
abbrev pub register_message : Text → Text
register_message name = b'1' ∷ name

-- What `monitor` of server.c sends back.
abbrev pub answer_text : Answer → Text
answer_text yes_sent = b'1' ∷ b'Y' ∷ []
answer_text no_sent = b'1' ∷ b'N' ∷ []
answer_text nothing = []

pub data Greeting : Type 0 where
  exists connected unknown : Greeting

-- The tests of `receive` of client.c on that; nothing where no byte was read into the buffer.
unfoldable pub greeted : Text → Option Greeting
greeted (c ∷ d ∷ rest) = some (
    if c == b'1' && (d == b'N' || d == b'Y')
    then (if d == b'N' then exists else connected)
    else unknown)
greeted _ = none

abbrev pub is_connected : Greeting → Bool
is_connected connected = true
is_connected _ = false

-- The server, the server's sockets of the nodes that are in their loop, the requests on their way with
-- those sockets, the answers on their way, and what the server has printed; `sent` is the history of the
-- slots and lines of `calc`. The last come first.
pub record Session : Type 0 where
  pub server : Server
  pub nodes : List ℕ
  pub requests : List (ℕ × Text)
  pub replies : List Text
  pub printed : List (Text × ℤ)
  pub sent : List (ℕ × Text)

unfoldable pub start_session : Session
unfolding start
start_session = record {
  server = start;
  nodes = [];
  requests = [];
  replies = [];
  printed = [];
  sent = [];
}

abbrev pub is_member : ℕ → List ℕ → Bool
is_member f [] = false
is_member f (g ∷ gs) = f == g || is_member f gs

abbrev pub is_slot_of : ℕ → Slot → Bool
is_slot_of f c = elim c.fd [ none ↦ false | some g ↦ f == g ]

abbrev pub has_socket : ℕ → List Slot → Bool
has_socket f [] = false
has_socket f (c ∷ cs) = is_slot_of f c || has_socket f cs

abbrev pub without : ℕ → List ℕ → List ℕ
without f [] = []
without f (g ∷ gs) = let rest = without f gs in if f == g then rest else g ∷ rest

-- An element of a list, and the others.
abbrev pub take_at {ℓ} : {A : Type ℓ} → ℕ → List A → Option (A × List A)
take_at i [] = none
take_at zero (x ∷ xs) = some (x, xs)
take_at (suc i) (x ∷ xs) = do (y, ys) ← take_at i xs; some (y, x ∷ ys)

-- A node registers over a new socket, a node ends, `ping` makes a round, `calc` sends a line, a node
-- answers a request, and `monitor` reads an answer.
pub data Event : Type 0 where
  joins : ℕ → Text → Event
  ends : ℕ → Event
  pings : (ℕ → Bool) → Event
  sends : List ℕ → Text → Event
  answers : ℕ → Event
  prints : ℕ → Event

unfoldable pub join_node : ℕ → Text → Session → Option Session
unfolding connect greeted
join_node fd name s = do
  (t, a) ← connect fd (register_message name) s.server
  g ← greeted (answer_text a)
  some (record s { server = t; nodes = if is_connected g then fd ∷ s.nodes else s.nodes })

-- A round of a node's loop.
unfoldable pub reply_to : Text → Session → Option Session
unfolding answer
reply_to message s = do
  reply ← answer print_int message
  some (elim reply [ none ↦ s | some text ↦ record s { replies = text ∷ s.replies } ])

unfoldable pub answer_request : ℕ → Session → Option Session
unfolding reply_to
answer_request i s = do
  ((fd, message), left) ← take_at i s.requests
  let rest : Session = record s { requests = left }
  if is_member fd s.nodes then reply_to message rest else some rest

unfoldable pub show_result : Text → Session → Option Session
unfolding on_result
show_result text s = do
  result ← on_result text
  some (elim result [ none ↦ s | some r ↦ record s { printed = r ∷ s.printed } ])

unfoldable pub print_result : ℕ → Session → Option Session
unfolding show_result
print_result i s = do
  (text, left) ← take_at i s.replies
  show_result text (record s { replies = left })

-- `send` of `ping` may succeed for a while after a node has ended.
unfoldable pub step : Event → Session → Option Session
unfolding join_node ping choose request answer_request print_result
step (joins fd name) s = if has_socket fd s.server.clients then none else join_node fd name s
step (ends fd) s = some (record s { nodes = without fd s.nodes })
step (pings late) s =
    some (record s { server = ping (λ f. is_member f s.nodes || late f) s.server })
step (sends rs line) s = do
  (p, fd) ← choose rs s.server.clients
  some (record s { requests = (fd, request p line) ∷ s.requests; sent = (p, line) ∷ s.sent })
step (answers i) s = answer_request i s
step (prints i) s = print_result i s

unfoldable pub run : List Event → Session → Option Session
unfolding step
run [] s = some s
run (e ∷ es) s = do t ← step e s; run es t
