-- ===== src/PosixQueues/Session/Scripts.antt =====
-- The lines MIRROR and END of a client of SysOpy/lab6/src/zad2, from `init` to `break`.
use semestr.Prelude.{
  ℕ, zero, suc, ◌+◌, ◌-◌, ◌%◌, ◌≡◌, ◌≢◌, ◌≤◌, ◌<◌, refl, sym, ◌∙◌, arith, some, List, [], ◌∷◌, ◌++◌,
  append_assoc, append-nil, map, length, length-append, get_elem?, reversed,
}
use semestr.Prelude.Int.{ℤ}
use semestr.CString.{Text}
use semestr.CString.Tokens.{Plain, same_text_refl, strtok-token}
use semestr.Queues.Commands.{mirror_command, end_command}
use semestr.PosixQueues.{
  server_name, message_text, argument, Server, continues, closed, handle, send_message,
}
use semestr.PosixQueues.Fields.{prepare_message_lem, fields-message_text}
use semestr.PosixQueues.Mirroring.{mirror-round_trip}
use semestr.PosixQueues.Session.{
  random_letters, get_random_name, queue_of, Client, ends, connect, print_answer, exchange,
  send_messages, sender,
}

queue_of-append :
    (name : Text) (xs ys : List (Text × Text))
    → queue_of name (xs ++ ys) ≡ queue_of name xs ++ queue_of name ys
queue_of-append name [] ys = refl
queue_of-append name ((to, message) ∷ xs) ys = ground (arith, queue_of-append name xs ys)

queue_of-send :
    (name message : Text) (sent : List (Text × Text))
    → queue_of name (sent ++ (name, message) ∷ []) ≡ queue_of name sent ++ message ∷ []
queue_of-send name message sent =
    queue_of-append name sent ((name, message) ∷ []) ∙ rw (same_text_refl name) refl

get_elem?-last {ℓ} :
    {A : Type ℓ} (xs : List A) (x : A) → get_elem? (xs ++ x ∷ []) (length xs) ≡ some x
get_elem?-last [] x = refl
get_elem?-last (y ∷ xs) x = get_elem?-last xs x

letters-Plain : (rand : ℕ → ℕ) (k n : ℕ) → Plain (b'|' ∷ []) (random_letters rand k n)
unfolding random_letters
letters-Plain rand k zero = tt
letters-Plain rand k (suc n) = (ground arith, letters-Plain rand (k + 1) n)

length-random_letters : (rand : ℕ → ℕ) (k n : ℕ) → length (random_letters rand k n) ≡ n
unfolding random_letters
length-random_letters rand k zero = refl
length-random_letters rand k (suc n) = omega (arith, length-random_letters rand (k + 1) n)

-- Texts of 1 to 110 bytes, without a newline.
abbrev pub AllLines : List Text → Type 0
AllLines [] = Unit {0}
AllLines (t ∷ ts) = (t ≢ []) × Plain (10 ∷ []) t × (length t ≤ 110) × AllLines ts

-- The lines "MIRROR text" for texts, and "END" after them.
abbrev pub script : List Text → List Text
script [] = (end_command ++ 10 ∷ []) ∷ []
script (t ∷ ts) = (mirror_command ++ 32 ∷ (t ++ 10 ∷ [])) ∷ script ts

-- The client has taken all messages of its queue.
abbrev IsIdle : Text → Client → Type 0
IsIdle name c = length (queue_of name c.server.sent) ≡ c.taken

exchange_lem :
    (now : Text) (print : ℤ → ℤ → Text) (name message reply text : Text) (s : Server) (c : Client)
    → IsIdle name c
    → handle now print c.server message
      ≡ some (continues (record s { sent = c.server.sent ++ (name, reply) ∷ [] }))
    → argument reply ≡ some text
    → (d : Client) × (exchange now print name message c ≡ some (some d))
      × IsIdle name d
      × (d.printed ≡ c.printed ++ text ∷ [])
unfolding exchange print_answer
exchange_lem now print name message reply text s c idle handled argued =
    let there : get_elem? (queue_of name (c.server.sent ++ (name, reply) ∷ [])) c.taken
        ≡ some reply =
      rw (queue_of-send name reply c.server.sent, ← idle)
        (get_elem?-last (queue_of name c.server.sent) reply) in
    (
      record {
        server = record s { sent = c.server.sent ++ (name, reply) ∷ [] };
        taken = c.taken + 1;
        printed = c.printed ++ text ∷ [];
      },
      rw (exchange, handled, print_answer, there, argued) refl,
      rw (queue_of-send name reply c.server.sent)
          (omega (arith, idle, length-append (queue_of name c.server.sent) (reply ∷ []))),
      refl,
    )

registers :
    (now : Text) (print : ℤ → ℤ → Text) (c : ℕ) (cs : Text) (s : Server)
    → Plain (b'|' ∷ []) (c ∷ cs)
    → handle now print s (message_text 1 (c ∷ cs) [])
      ≡ some (
          continues (record {
            clients = s.clients ++ (c ∷ cs) ∷ [];
            sent = s.sent ++ (c ∷ cs, message_text 1 server_name []) ∷ [];
          }))
unfolding handle message_text
registers now print c cs s plain = rw (fields-message_text 1 c cs [] (omega arith) plain) refl

ends_server :
    (now : Text) (print : ℤ → ℤ → Text) (c : ℕ) (cs : Text) (s : Server)
    → Plain (b'|' ∷ []) (c ∷ cs)
    → handle now print s (message_text 5 (c ∷ cs) []) ≡ some closed
unfolding handle message_text
ends_server now print c cs s plain = rw (fields-message_text 5 c cs [] (omega arith) plain) refl

end_line :
    (name : Text)
    → length name < 125
    → send_message name (end_command ++ 10 ∷ []) ≡ some (some (message_text 5 name []))
unfolding send_message
end_line name short =
    rw
      (
        strtok-token (32 ∷ 10 ∷ []) b'E' (b'N' ∷ b'D' ∷ []) 10 [] (refl, (refl, (refl, tt))) refl,
        send_message,
        prepare_message_lem 5 name [] (omega arith),
      )
      refl

module _ (now : Text) (print : ℤ → ℤ → Text) (c : ℕ) (cs : Text)
    (plain : Plain (b'|' ∷ []) (c ∷ cs)) (short : length (c ∷ cs) ≤ 14) where
  connect_lem :
      (s : Server)
      → queue_of (c ∷ cs) s.sent ≡ []
      → (d : Client) × (connect now print (c ∷ cs) s ≡ some d)
        × IsIdle (c ∷ cs) d
        × (d.printed ≡ [])
  unfolding connect
  connect_lem s new =
      let message = message_text 1 server_name [] in
      let queue : queue_of (c ∷ cs) (s.sent ++ (c ∷ cs, message) ∷ []) ≡ message ∷ [] =
        queue_of-send (c ∷ cs) message s.sent ∙ rw new refl in
      (
        record {
          server = record {
            clients = s.clients ++ (c ∷ cs) ∷ [];
            sent = s.sent ++ (c ∷ cs, message) ∷ [];
          };
          taken = 0 + 1;
          printed = [];
        },
        rw
            (
              connect,
              prepare_message_lem 1 (c ∷ cs) [] (omega arith),
              registers now print c cs s plain,
              queue,
            )
            refl,
        rw queue refl,
        refl,
      )

  send_messages-script :
      (ts : List Text) (d : Client)
      → AllLines ts
      → IsIdle (c ∷ cs) d
      → (e : Client) × (send_messages now print (c ∷ cs) (script ts) d ≡ some (ends e))
        × (e.printed ≡ d.printed ++ map reversed ts)
  unfolding send_messages exchange
  send_messages-script [] d all idle = (
    d,
    rw
        (
          end_line (c ∷ cs) (omega arith),
          send_messages,
          exchange,
          ends_server now print c cs d.server plain,
        )
        refl,
    sym (append-nil d.printed),
  )
  send_messages-script ([] ∷ ts) d all idle = absurd (all.0 refl)
  send_messages-script ((t ∷ u) ∷ ts) d all idle =
      let (message, reply, sent, handled, argued) =
        mirror-round_trip now print d.server c t cs u plain all.1 (omega (arith, all.2))
          (omega (arith, all.2)) in
      let (e, done, again, more) =
        exchange_lem now print (c ∷ cs) message reply (reversed (t ∷ u)) d.server d idle handled
          argued in
      let (f, rest, printed) = send_messages-script ts e all.3 again in
      (
        f,
        rw (sent, send_messages, done) rest,
        printed ∙ rw more (append_assoc d.printed (reversed (t ∷ u) ∷ []) (map reversed ts)),
      )

-- A client that starts with its queue empty, and whose input is lines MIRROR with texts of at
-- most 110 bytes, then END: it
-- prints each text reversed, in their order, and ends, whatever the server did before.
pub sender-script :
    (now : Text) (print : ℤ → ℤ → Text) (rand : ℕ → ℕ) (ts : List Text) (s : Server)
    → queue_of (get_random_name rand) s.sent ≡ []
    → AllLines ts
    → (c : Client) × (sender now print rand (script ts) s ≡ some (ends c))
      × (c.printed ≡ map reversed ts)
unfolding sender get_random_name
sender-script now print rand ts s new all =
    let cs = random_letters rand 1 (rand 0 % 10 + 5 - 1) in
    let plain : Plain (b'|' ∷ []) (b'/' ∷ cs) =
      (refl, letters-Plain rand 1 (rand 0 % 10 + 5 - 1)) in
    let short : length (b'/' ∷ cs) ≤ 14 =
      omega (arith, length-random_letters rand 1 (rand 0 % 10 + 5 - 1)) in
    let (d, connected, idle, nothing) = connect_lem now print b'/' cs plain short s new in
    let (c, done, printed) = send_messages-script now print b'/' cs plain short ts d all idle in
    (c, rw (sender, connected) done, printed ∙ rw nothing refl)
