-- ===== src/Cluster/Table.antt =====
-- The table of SysOpy/lab10/src/zad1/server.c as a map from names to sockets.
use semestr.Prelude.{
  ℕ, ◌+◌, ◌≡◌, refl, subst, inl, inr, Bool, true, false, Option, none, some, List, [], ◌∷◌, arith,
  if◌then◌else◌, Bool-cases,
}
use semestr.CString.{Text, same_text}
use semestr.CString.Tokens.{same_text_sym, same_text_eq}
use semestr.Cluster.{
  Slot, Server, yes_sent, name_taken, fill_first, add_node, connect, ping_slots, ping,
}
use semestr.Cluster.Names.{AllSlots, Unique, Inv, connect_lem}

-- The socket of the node of a name.
unfoldable pub lookup : Text → List Slot → Option ℕ
lookup name [] = none
lookup name (c ∷ cs) = if same_text c.name name then c.fd else lookup name cs

-- Some slot is free.
unfoldable pub has_room : List Slot → Bool
has_room [] = false
has_room (c ∷ cs) = elim c.fd [ none ↦ true | some f ↦ has_room cs ]

lookup-fill_first :
    (node : Slot) (n : ℕ) (ns : Text) (cs : List Slot) (k : ℕ)
    → AllSlots k cs
    → name_taken node.name cs ≡ false
    → has_room cs ≡ true
    → lookup (n ∷ ns) (fill_first node cs)
      ≡ (if same_text node.name (n ∷ ns) then node.fd else lookup (n ∷ ns) cs)
unfolding lookup fill_first has_room name_taken
lookup-fill_first node n ns [] k all new room = absurd (cc)
lookup-fill_first node n ns (c ∷ cs) k (inl (free, no_name, _), all) new room =
    ground (arith, same_text_eq c.name (n ∷ ns))
lookup-fill_first node n ns (c ∷ cs) k (inr (f, m, used, _, named, _), all) new room = ground (
  arith,
  lookup-fill_first node n ns cs k all,
  same_text_sym node.name c.name,
  same_text_eq c.name (n ∷ ns),
  same_text_eq node.name (n ∷ ns),
)

fill_first-full : (node : Slot) (cs : List Slot) → has_room cs ≡ false → fill_first node cs ≡ cs
unfolding fill_first has_room
fill_first-full node [] full = refl
fill_first-full node (c ∷ cs) full = ground (arith, fill_first-full node cs)

-- A node with a new name is answered "1Y"; where a slot is free it is entered under its name, and
-- the sockets of all other names stay.
pub connect-lookup :
    (client_fd c : ℕ) (name : Text) (s : Server)
    → Inv s
    → name_taken (c ∷ name) s.clients ≡ false
    → has_room s.clients ≡ true
    → (t : Server) × (connect client_fd (b'1' ∷ c ∷ name) s ≡ some (t, yes_sent))
      × ((n : ℕ) (ns : Text)
          → lookup (n ∷ ns) t.clients
            ≡ (if same_text (c ∷ name) (n ∷ ns) then some client_fd else lookup (n ∷ ns) s.clients))
unfolding add_node
connect-lookup client_fd c name s v new room = (
  (add_node client_fd (c ∷ name) s).0,
  rw (connect_lem client_fd c name s, add_node, new) refl,
  λ n ns.
      rw (add_node, new)
        (lookup-fill_first
          (record { name = c ∷ name; fd = some client_fd; num = some s.num_of_clients }) n ns
          s.clients s.num_of_clients v.slots new room),
)

-- With no free slot a node with a new name is answered "1Y" as well, and counted, and is not
-- entered: the table stays as it was.
pub connect-full :
    (client_fd c : ℕ) (name : Text) (s : Server)
    → name_taken (c ∷ name) s.clients ≡ false
    → has_room s.clients ≡ false
    → (t : Server) × (connect client_fd (b'1' ∷ c ∷ name) s ≡ some (t, yes_sent))
      × (t.clients ≡ s.clients)
      × (t.num_of_clients ≡ s.num_of_clients + 1)
unfolding add_node
connect-full client_fd c name s new full = (
  (add_node client_fd (c ∷ name) s).0,
  rw (connect_lem client_fd c name s, add_node, new) refl,
  rw (add_node, new)
      (fill_first-full
        (record { name = c ∷ name; fd = some client_fd; num = some s.num_of_clients }) s.clients
        full),
  rw (add_node, new) refl,
)

lookup-untaken :
    (n : ℕ) (ns : Text) (cs : List Slot)
    → name_taken (n ∷ ns) cs ≡ false
    → lookup (n ∷ ns) cs ≡ none
unfolding lookup name_taken
lookup-untaken n ns [] e = refl
lookup-untaken n ns (c ∷ cs) e = ground (arith, lookup-untaken n ns cs)

-- What a `ping` leaves of a socket.
abbrev pub still_alive : (ℕ → Bool) → Option ℕ → Option ℕ
still_alive alive none = none
still_alive alive (some f) = if alive f then some f else none

lookup-ping_slots :
    (alive : ℕ → Bool) (n : ℕ) (ns : Text) (cs : List Slot) (k : ℕ)
    → AllSlots k cs
    → Unique cs
    → lookup (n ∷ ns) (ping_slots alive cs) ≡ still_alive alive (lookup (n ∷ ns) cs)
unfolding lookup ping_slots name_taken
lookup-ping_slots alive n ns [] k all u = refl
lookup-ping_slots alive n ns (c ∷ cs) k (inl (free, no_name, _), all) u =
    ground (arith, lookup-ping_slots alive n ns cs k all u.1)
lookup-ping_slots alive n ns (c ∷ cs) k (inr (f, m, used, _, named, _), all) u =
    let rest = lookup-ping_slots alive n ns cs k all u.1 in
    elim (Bool-cases (same_text c.name (n ∷ ns))) [
      | inl same ↦
          let gone : lookup (n ∷ ns) cs ≡ none = lookup-untaken n ns cs (
            subst (λ x. name_taken x cs ≡ false) (same_text_eq c.name (n ∷ ns) same) (u.0 named)) in
          ground arith
      | inr other ↦ ground arith
    ]

-- A round of `ping` keeps the sockets of the nodes that still take a message under their names,
-- and drops the others.
pub ping-lookup :
    (alive : ℕ → Bool) (n : ℕ) (ns : Text) (s : Server)
    → Inv s
    → lookup (n ∷ ns) (ping alive s).clients ≡ still_alive alive (lookup (n ∷ ns) s.clients)
unfolding ping
ping-lookup alive n ns s v =
    lookup-ping_slots alive n ns s.clients s.num_of_clients v.slots v.unique
