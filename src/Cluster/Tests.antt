-- ===== src/Cluster/Tests.antt =====
-- Runs of the cluster of SysOpy/lab10/src/zad1 at concrete names and lines.
use semestr.Prelude.{
  ℕ, ◌≡◌, refl, Option, none, some, List, [], ◌∷◌, arith, false, ◌==◌, if◌then◌else◌, inl, inr,
}
use semestr.Prelude.Int.{pos}
use semestr.CString.{Text, same_text, strtok, atoi, signed_value, digits_value}
use semestr.Cluster.{Slot, free_slot, Server, yes_sent, start, name_taken, add_node, connect, ping}
use semestr.Cluster.Node.{apply, divide, calculate}
use semestr.Cluster.Names.{Inv, start-Inv, connect-Inv}
use semestr.Cluster.Session.{
  Session, start_session, Event, joins, sends, pings, answers, prints, run,
}
use semestr.Cluster.Table.{lookup, has_room, connect-lookup, connect-full, ping-lookup, still_alive}

abbrev node_a : Slot
node_a = record { name = b'a' ∷ []; fd = some 7; num = some 0 }

abbrev one_node : Server
one_node = record { clients = node_a ∷ free_slot ∷ []; num_of_clients = 1; watched = 7 ∷ [] }

abbrev full : Server
full = record { clients = node_a ∷ []; num_of_clients = 1; watched = 7 ∷ [] }

one_node-Inv : Inv one_node
unfolding name_taken
one_node-Inv = record {
  slots = (inr (7, 0, refl, refl, (λ e. cc), omega arith), (inl (refl, refl, refl), tt));
  unique = ((λ named. refl), ((λ named. refl), tt));
}

connect-Inv_example : Inv (add_node 5 (b'b' ∷ []) start).0
unfolding connect add_node strtok name_taken start
connect-Inv_example =
    connect-Inv 5 (b'1' ∷ b'b' ∷ []) start (add_node 5 (b'b' ∷ []) start).0 yes_sent start-Inv refl

connect-lookup_example :
    (t : Server) × (connect 9 (b'1' ∷ b'b' ∷ []) one_node ≡ some (t, yes_sent))
    × ((n : ℕ) (ns : Text)
        → lookup (n ∷ ns) t.clients
          ≡ (if same_text (b'b' ∷ []) (n ∷ ns) then some 9 else lookup (n ∷ ns) one_node.clients))
unfolding name_taken has_room
connect-lookup_example = connect-lookup 9 b'b' [] one_node one_node-Inv refl refl

ping-lookup_example :
    lookup (b'a' ∷ []) (ping (λ f. f == 7) one_node).clients
    ≡ still_alive (λ f. f == 7) (lookup (b'a' ∷ []) one_node.clients)
ping-lookup_example = ping-lookup (λ f. f == 7) b'a' [] one_node one_node-Inv

abbrev seven : Text
seven = b'1' ∷ b'2' ∷ 32 ∷ b'-' ∷ 32 ∷ b'5' ∷ 10 ∷ []

seven_value : calculate seven ≡ some (pos 7)
unfolding calculate strtok atoi signed_value digits_value apply divide
seven_value = refl

-- Two nodes register, a line goes to the first one, which answers it, and the answer is read.
abbrev one_request : List Event
one_request =
    joins 5 (b'a' ∷ [])
    ∷ joins 6 (b'b' ∷ [])
    ∷ sends (20 ∷ []) seven
    ∷ pings (λ f. false)
    ∷ answers 0
    ∷ prints 0
    ∷ []

abbrev after : Option Session → Session
after none = start_session
after (some t) = t

abbrev asked : Session
asked = after (run one_request start_session)

connect-full_example :
    (t : Server) × (connect 9 (b'1' ∷ b'b' ∷ []) full ≡ some (t, yes_sent))
    × (t.clients ≡ node_a ∷ [])
    × (t.num_of_clients ≡ 2)
unfolding name_taken has_room
connect-full_example = connect-full 9 b'b' [] full refl refl
