-- ===== src/Queues/Clients.antt =====
-- The table of clients of SysOpy/lab6/src/zad1/server.c, and where replies go.
use semestr.Prelude.{
  ℕ, ◌≡◌, refl, ◌∙◌, sym, ap, inl, inr, Option, none, some, List, [], ◌∷◌, ◌++◌, length, arith,
  Option-cases, append-nil,
}
use semestr.CString.{Text}
use semestr.Queues.{
  Msg, MsgType, init, mirror, time, calc, end, unknown, Client, Server, System, get_queue, send,
  calculate, mirror_from, register, reply, continues, handle,
}

get_queue-append :
    (pid q : ℕ) (cs ds : List Client)
    → get_queue pid cs ≡ some q
    → get_queue pid (cs ++ ds) ≡ some q
unfolding get_queue
get_queue-append pid q [] ds e = cc
get_queue-append pid q (c ∷ cs) ds e = ground (arith, get_queue-append pid q cs ds)

send-clients :
    (q : Option ℕ) (mtype : ℕ) (text : Text) (s : Server)
    → (send q mtype text s).clients ≡ s.clients
send-clients none mtype text s = refl
send-clients (some q) mtype text s = refl

register-clients :
    (sys : System) (m : Msg) (s : Server)
    → (ds : List Client) × ((register sys m s).clients ≡ s.clients ++ ds)
unfolding register
register-clients sys m s = (_, send-clients (sys.msgget m.key) _ _ _)

reply-clients :
    (s t : Server) (m : Msg) (text : Text)
    → reply m text s ≡ t
    → (ds : List Client) × (t.clients ≡ s.clients ++ ds)
unfolding reply
reply-clients s t m text same = (
  [],
  ap (λ (x : Server). x.clients) (sym same)
      ∙ send-clients (get_queue m.pid s.clients) _ text s
      ∙ sym (append-nil s.clients),
)

by_type :
    (sys : System) (s t : Server) (m : Msg) (k : MsgType)
    → m.mtype ≡ k
    → handle sys s m ≡ some (continues t)
    → (ds : List Client) × (t.clients ≡ s.clients ++ ds)
unfolding handle
by_type sys s t m init is e =
    let (ds, grown) = register-clients sys m s in
    let same : register sys m s ≡ t = ground (arith, is, e) in
    (ds, ap (λ (x : Server). x.clients) (sym same) ∙ grown)
by_type sys s t m mirror is e = elim (Option-cases (mirror_from m.mtext (length m.mtext) [])) [
  | inl fault ↦ absurd (ground (arith, is, e, fault))
  | inr (text, read) ↦ reply-clients s t m text (ground (arith, is, e, read))
]
by_type sys s t m time is e = reply-clients s t m sys.now (ground (arith, is, e))
by_type sys s t m calc is e = elim (Option-cases (calculate m.mtext)) [
  | inl fault ↦ absurd (ground (arith, is, e, fault))
  | inr ((a, b), read) ↦ reply-clients s t m (sys.print a b) (ground (arith, is, e, read))
]
by_type sys s t m end is e = ([], ground (arith, is, e, append-nil s.clients))
by_type sys s t m unknown is e = absurd (ground (arith, is, e))

-- What a round does to the table: it may add clients at its end.
pub handle-clients :
    (sys : System) (s t : Server) (m : Msg)
    → handle sys s m ≡ some (continues t)
    → (ds : List Client) × (t.clients ≡ s.clients ++ ds)
handle-clients sys s t m e = by_type sys s t m m.mtype refl e

-- Whatever message a round handles, a client that has a queue keeps it: a second INIT with its pid,
-- or other clients, do not turn its replies elsewhere.
pub handle-get_queue :
    (sys : System) (s t : Server) (m : Msg) (pid q : ℕ)
    → handle sys s m ≡ some (continues t)
    → get_queue pid s.clients ≡ some q
    → get_queue pid t.clients ≡ some q
handle-get_queue sys s t m pid q e known =
    let (ds, grown) = handle-clients sys s t m e in
    rw grown (get_queue-append pid q s.clients ds known)
