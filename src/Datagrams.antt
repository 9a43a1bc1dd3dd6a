-- ===== src/Datagrams.antt =====
-- SysOpy/lab10/src/zad2: the cluster over datagrams. server.c keeps a table of nodes by address, and
-- sends requests to them; client.c is a node. The sockets are the environment: the datagrams that
-- arrive, with their senders, are arguments. `main` starts no thread for `ping`, so that nodes do
-- not leave the table. `none` is undefined behaviour.
pub mod Table
pub mod Requests
pub mod Ping
mod Tests
use semestr.Prelude.{
  ℕ, zero, suc, ◌+◌, ◌%◌, Bool, true, false, ◌||◌, Option, none, some, List, [], ◌∷◌, ◌++◌,
  replicate, get_elem?, ◌==◌, if◌then◌else◌, ◌>>=◌,
}
use semestr.Prelude.Int.{ℤ, pos, ◌-ℤ◌}
use semestr.CString.{Text, same_text, strtok}
use semestr.Cluster.Node.{calculate, result_text}

-- `struct node`; a `num` of -1 is none. `local` says that the node came over the local socket.
pub record Node : Type 0 where
  pub name : Text
  pub addr : ℕ
  pub num : Option ℕ
  pub local : Bool

abbrev pub free_node : Node
free_node = record { name = []; addr = 0; num = none; local = false }

-- `clients` and `numOfClients`.
pub record Server : Type 0 where
  pub clients : List Node
  pub num_of_clients : ℕ

abbrev pub cluster_size : ℕ
cluster_size = 20

-- `main`
unfoldable pub start : Server
start = record { clients = replicate cluster_size free_node; num_of_clients = 0 }

-- The loop that looks for the name among all nodes.
unfoldable pub name_taken : Text → List Node → Bool
name_taken name [] = false
name_taken name (c ∷ cs) = same_text c.name name || name_taken name cs

-- The loop that fills the first slot whose `num` is -1.
unfoldable pub fill_first : Node → List Node → List Node
fill_first node [] = []
fill_first node (c ∷ cs) = elim c.num [ none ↦ node ∷ cs | some n ↦ c ∷ fill_first node cs ]

-- What a datagram makes the server send back, or print: a text and a node's number.
pub data Reply : Type 0 where
  yes_sent no_sent nothing : Reply
  printed : Text → ℤ → Reply

-- The registration of a node.
unfoldable pub register : Bool → ℕ → Text → Server → Server × Reply
register local addr name s = if name_taken name s.clients then (s, no_sent) else (
  record {
    clients =
        fill_first (record { name = name; addr = addr; num = some s.num_of_clients; local = local })
          s.clients;
    num_of_clients = s.num_of_clients + 1;
  },
  yes_sent,
)

-- The body of the loop of `monitor` on a datagram with text `buffer`; one that starts with '2' is
-- only peeked at.
unfoldable pub on_datagram : Bool → ℕ → Text → Server → Option (Server × Reply)
on_datagram local addr [] s = some (s, nothing)
on_datagram local addr (c ∷ rest) s =
    let added = (do (name, _) ← strtok [] rest; some (register local addr name s)) in
    let shown : Option (Server × Reply) = (elim rest [
      | [] ↦ none
      | p ∷ text ↦ do (line, _) ← strtok [] text; some (s, printed line (pos p -ℤ pos 1))
    ]) in
    if c == b'2'
    then some (s, nothing)
    else if c == b'1'
    then added
    else if c == b'3'
    then shown
    else some (s, nothing)

-- A datagram with its sender.
pub record Datagram : Type 0 where
  pub local : Bool
  pub addr : ℕ
  pub text : Text

-- The loop of `monitor`: what is left of the server, and its replies.
unfoldable pub monitor : List Datagram → Server → Option (Server × List Reply)
monitor [] s = some (s, [])
monitor (d ∷ ds) s = do
  (t, reply) ← on_datagram d.local d.addr d.text s
  (u, replies) ← monitor ds t
  some (u, reply ∷ replies)

-- The loop of `calc` that picks a node, with what `rand` returns: its slot and its address.
unfoldable pub choose : List ℕ → List Node → Option (ℕ × ℕ)
choose [] clients = none
choose (r ∷ rs) clients = do
  c ← get_elem? clients (r % cluster_size)
  elim c.num [ none ↦ choose rs clients | some n ↦ some (r % cluster_size, c.addr) ]

-- The message of `calc`.
unfoldable pub request : ℕ → Text → Text
request p line = b'3' ∷ (p + 1) ∷ line

-- The body of the loop of `receive` in client.c, which a node is in after its registration: what the node
-- writes, if anything, with the text of a number by "%d".
unfoldable pub node_receive : (ℤ → Text) → Text → Option (Option Text)
node_receive print [] = some none
node_receive print (c ∷ rest) =
    let reply : Option (Option Text) = (elim rest [
      | [] ↦ none
      | p ∷ line ↦ do
        value ← calculate line
        text ← result_text print value
        some (some (b'3' ∷ p ∷ text))
    ]) in
    if c == b'3'
    then reply
    else if c == b'2'
    then some (some (b'2' ∷ []))
    else if c == b'5'
    then some (some rest)
    else some none
