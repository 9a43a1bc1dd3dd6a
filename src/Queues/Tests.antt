-- ===== src/Queues/Tests.antt =====
-- Requests to the server of SysOpy/lab6/src/zad1.
use semestr.Prelude.{arith, ◌≡◌, refl, false, none, some, [], ◌∷◌, ◌++◌}
use semestr.CString.{strtok}
use semestr.Queues.{Msg, mirror, end, init, Server, System, continues, get_queue, handle}
use semestr.Queues.Commands.{mirror_command, send_messages, mirror-answered}

abbrev sys : System
sys = record { msgget = λ key. some key; now = b'n' ∷ []; print = λ a b. b'0' ∷ [] }

-- Client 5 with queue 8 is registered.
abbrev one_client : Server
one_client = record {
  client_id = 1;
  clients = record { pid = 5; client_id = 1; queue = some 8 } ∷ [];
  close_flag = false;
  sent = [];
}

abbrev again : Msg
again = record { mtype = init; pid = 5; key = 9; mtext = [] }

abbrev stop : Msg
stop = record { mtype = end; pid = 5; key = 0; mtext = [] }

abbrev ask_mirror : Msg
ask_mirror = record { mtype = mirror; pid = 5; key = 0; mtext = b'a' ∷ b'b' ∷ [] }

mirror-answered_example :
    (m : Msg) × (send_messages 5 [] (mirror_command ++ 32 ∷ (b'a' ∷ b'b' ∷ 10 ∷ []))
      ≡ some (some m))
    × (handle sys one_client m
        ≡ some (
            continues (record one_client {
              sent = record { to = 8; mtype = 2; mtext = b'b' ∷ b'a' ∷ [] } ∷ [];
            })))
unfolding get_queue
mirror-answered_example =
    mirror-answered sys one_client 5 8 b'a' (b'b' ∷ []) [] (refl, (refl, tt)) (omega arith) refl

-- `strcpy` from the argument that MIRROR does not have.
mirror_alone_test : send_messages 5 [] (mirror_command ++ 10 ∷ []) ≡ none
unfolding send_messages strtok
mirror_alone_test = refl
