-- ===== src/Datagrams/Tests.antt =====
-- The cluster of SysOpy/lab10/src/zad2 with one node.
use semestr.Prelude.{◌≡◌, refl, true, some, [], ◌∷◌, length}
use semestr.Prelude.Int.{pos}
use semestr.CString.{Text, strtok, atoi, signed_value, digits_value}
use semestr.Cluster.Node.{calculate, apply}
use semestr.Datagrams.{
  Node, cluster_size, Server, start, name_taken, fill_first, yes_sent, register, on_datagram,
  monitor,
}
use semestr.Datagrams.Table.{Numbered, monitor-Numbered}

abbrev node_a : Node
node_a = record { name = b'a' ∷ []; addr = 3; num = some 0; local = true }

abbrev joined : Server
joined = (register true 3 (b'a' ∷ []) start).0

monitor-Numbered_example :
    (length joined.clients ≡ cluster_size) × Numbered 0 joined.num_of_clients joined.clients
unfolding monitor on_datagram register strtok name_taken fill_first start
monitor-Numbered_example =
    monitor-Numbered (record { local = true; addr = 3; text = b'1' ∷ b'a' ∷ [] } ∷ []) joined
      (yes_sent ∷ []) refl

abbrev sum : Text
sum = b'1' ∷ b' ' ∷ b'+' ∷ b' ' ∷ b'2' ∷ 10 ∷ []

sum_value : calculate sum ≡ some (pos 3)
unfolding calculate strtok atoi signed_value digits_value apply
sum_value = refl
