-- ===== src/Queues/Runs.antt =====
-- The loop of `receive` in SysOpy/lab6/src/zad1/server.c.
use semestr.Prelude.{
  reversed, ℕ, ◌≡◌, refl, Option, none, some, List, [], ◌∷◌, ◌++◌, map, arith, if◌then◌else◌,
  Option-cases, inl, inr,
}
use semestr.Queues.{
  Msg, mirror, Server, System, get_queue, reply, continues, exits, handle, polling, closed, receive,
}
use semestr.Queues.Mirror.{mirror_lem}

-- The messages in the queue are all handled before an empty queue is looked at: then the server
-- closes if an END was among them or before them, and otherwise goes on from where it stands.
pub receive-drained :
    (sys : System) (ms : List Msg) (rest : List (Option Msg)) (s t : Server)
    → receive sys (map some ms) s ≡ some (polling t)
    → receive sys (map some ms ++ none ∷ rest) s
      ≡ (if t.close_flag then some (closed t) else receive sys rest t)
unfolding receive
receive-drained sys [] rest s t e = let same : s ≡ t = ground arith in rw same refl
receive-drained sys (m ∷ ms) rest s t e = elim (Option-cases (handle sys s m)) [
  | inl fault ↦ absurd (ground (arith, fault))
  | inr (continues u, done) ↦ rw done (receive-drained sys ms rest u t (ground (arith, done)))
  | inr (exits, done) ↦ absurd (ground (arith, done))
]

-- MIRROR from a client with a queue is answered with one message, the reversed text, into that
-- queue; nothing else changes.
pub handle-mirror :
    (sys : System) (s : Server) (m : Msg) (q : ℕ)
    → m.mtype ≡ mirror
    → get_queue m.pid s.clients ≡ some q
    → handle sys s m
      ≡ some (
          continues (record s {
            sent = s.sent ++ record { to = q; mtype = 2; mtext = reversed m.mtext } ∷ [];
          }))
unfolding handle reply
handle-mirror sys s m q is known = rw (is, (mirror_lem m.mtext).0, known) refl
