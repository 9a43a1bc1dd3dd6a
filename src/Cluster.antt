-- ===== src/Cluster.antt =====
-- SysOpy/lab10/src/zad1: server.c keeps a table of the nodes of a cluster, checks that they live,
-- and sends requests to them; client.c is a node. Sockets and `epoll` are the environment: what
-- they deliver, and whether a `send` fails, are arguments. `none` is undefined behaviour.
pub mod Node
pub mod Table
pub mod Names
pub mod Requests
pub mod Session
mod Tests
use semestr.Prelude.{
  ℕ, zero, suc, ◌+◌, ◌-◌, ◌%◌, Bool, true, false, ◌&&◌, ◌||◌, Option, none, some, List, [], ◌∷◌,
  ◌++◌, replicate, get_elem?, ◌==◌, if◌then◌else◌, ◌>>=◌,
}
use semestr.CString.{Text, same_text, strtok}
use semestr.Prelude.Int.{ℤ, pos, ◌-ℤ◌}

-- `struct node`; an `fd` or a `num` of -1 is none.
pub record Slot : Type 0 where
  pub name : Text
  pub fd : Option ℕ
  pub num : Option ℕ

abbrev pub free_slot : Slot
free_slot = record { name = []; fd = none; num = none }

-- `clients` and `numOfClients`, and the sockets of nodes that `epoll` watches.
pub record Server : Type 0 where
  pub clients : List Slot
  pub num_of_clients : ℕ
  pub watched : List ℕ

abbrev pub cluster_size : ℕ
cluster_size = 20

-- `main`
unfoldable pub start : Server
start = record { clients = replicate cluster_size free_slot; num_of_clients = 0; watched = [] }

-- The loop that looks for the name among all slots.
unfoldable pub name_taken : Text → List Slot → Bool
name_taken name [] = false
name_taken name (c ∷ cs) = same_text c.name name || name_taken name cs

-- The loop that fills the first slot whose `fd` is -1.
unfoldable pub fill_first : Slot → List Slot → List Slot
fill_first node [] = []
fill_first node (c ∷ cs) = elim c.fd [ none ↦ node ∷ cs | some f ↦ c ∷ fill_first node cs ]

-- What `monitor` answers on a new connection: "1Y", "1N" and a close, or nothing.
pub data Answer : Type 0 where
  yes_sent no_sent nothing : Answer

-- `monitor` with the name of a new node.
unfoldable pub add_node : ℕ → Text → Server → Server × Answer
add_node client_fd name s = if name_taken name s.clients then (s, no_sent) else (
  record {
    clients =
        fill_first (record { name = name; fd = some client_fd; num = some s.num_of_clients })
          s.clients;
    num_of_clients = s.num_of_clients + 1;
    watched = client_fd ∷ s.watched;
  },
  yes_sent,
)

-- `monitor` on a new connection, with the string that `recv` put into `readBuff`. `strtok` with no
-- delimiter gives the whole rest of it, or NULL if that is empty, which `strcmp` then reads.
unfoldable pub connect : ℕ → Text → Server → Option (Server × Answer)
unfolding add_node
connect client_fd [] s = some (s, nothing)
connect client_fd (c ∷ rest) s =
    let added = (do (name, _) ← strtok [] rest; some (add_node client_fd name s)) in
    if c == b'1' then added else some (s, nothing)

-- One pass of the loop of `ping`: `alive` says whether `send` to a socket succeeds.
unfoldable pub ping_slots : (ℕ → Bool) → List Slot → List Slot
ping_slots alive [] = []
ping_slots alive (c ∷ cs) = elim c.fd [
  | none ↦ c ∷ ping_slots alive cs
  | some f ↦ (if alive f then c else free_slot) ∷ ping_slots alive cs
]

abbrev pub unwatch : (ℕ → Bool) → List ℕ → List ℕ
unwatch alive [] = []
unwatch alive (f ∷ fs) = let rest = unwatch alive fs in if alive f then f ∷ rest else rest

unfoldable pub ping : (ℕ → Bool) → Server → Server
unfolding ping_slots
ping alive s = record s { clients = ping_slots alive s.clients; watched = unwatch alive s.watched }

-- The loop of `calc` that picks a node, with what `rand` returns; none if it never ends.
unfoldable pub choose : List ℕ → List Slot → Option (ℕ × ℕ)
choose [] clients = none
choose (r ∷ rs) clients = do
  c ← get_elem? clients (r % cluster_size)
  elim c.fd [ none ↦ choose rs clients | some f ↦ some (r % cluster_size, f) ]

-- The message of `calc`: the slot's index counts from 1, so that it is no NUL.
unfoldable pub request : ℕ → Text → Text
request p line = b'3' ∷ (p + 1) ∷ line

-- `monitor` on a message of a node: the text and the number of the node that it prints, if any.
unfoldable pub on_result : Text → Option (Option (Text × ℤ))
on_result (c ∷ p ∷ rest) =
    let printed = (do (text, _) ← strtok [] rest; some (some (text, pos p -ℤ pos 1))) in
    if c == b'3' then printed else some none
on_result _ = some none
