-- ===== src/Queues/Commands.antt =====
-- SysOpy/lab6/src/zad1/client.c, `sendMessages`: the lines that a client reads, and the messages that it
-- sends for them. The pid in its message stays its own, as the server answers in the message that it
-- got. `none` is undefined behaviour, `strcpy` from
-- NULL or past `mtext`, and a text that is cut: 120 bytes of `mtext` are sent, with a final null.
use semestr.Prelude.{
  ℕ, ◌≡◌, refl, Option, none, some, [], ◌∷◌, ◌++◌, length, ltb, true, ◌<◌, arith, reversed,
  if◌then◌else◌, ◌>>=◌,
}
use semestr.CString.{Text, same_text, strtok}
use semestr.CString.Tokens.{Plain, strtok-token}
use semestr.Queues.{
  Msg, init, time, end, calc, mirror, Server, System, get_queue, continues, handle,
}
use semestr.Queues.Runs.{handle-mirror}

abbrev pub time_command : Text
time_command = b'T' ∷ b'I' ∷ b'M' ∷ b'E' ∷ []

abbrev pub end_command : Text
end_command = b'E' ∷ b'N' ∷ b'D' ∷ []

abbrev pub calc_command : Text
calc_command = b'C' ∷ b'A' ∷ b'L' ∷ b'C' ∷ []

abbrev pub mirror_command : Text
mirror_command = b'M' ∷ b'I' ∷ b'R' ∷ b'R' ∷ b'O' ∷ b'R' ∷ []

-- The messages of `connect`: the key is that of the client's queue.
unfoldable pub connect : ℕ → ℕ → Text → Msg
connect pid key mtext = record { mtype = init; pid = pid; key = key; mtext = mtext }

-- What a round of the loop sends, from what `mtext` holds; `end` ends the loop.
unfoldable pub send_messages : ℕ → Text → Text → Option (Option Msg)
send_messages pid mtext line = elim (strtok (32 ∷ 10 ∷ []) line) [
  | none ↦ some none
  | some (command, rest) ↦
      let with_argument : Option Text = (do
        (arg, _) ← strtok (10 ∷ []) rest
        if ltb (length arg) 120 then some arg else none) in
      if same_text command time_command
      then some (some (record { mtype = time; pid = pid; key = 0; mtext = mtext }))
      else if same_text command end_command
      then some (some (record { mtype = end; pid = pid; key = 0; mtext = mtext }))
      else if same_text command calc_command
      then (do
        arg ← with_argument
        some (some (record { mtype = calc; pid = pid; key = 0; mtext = arg })))
      else if same_text command mirror_command
      then (do
        arg ← with_argument
        some (some (record { mtype = mirror; pid = pid; key = 0; mtext = arg })))
      else some none
]

mirror_line :
    (pid t : ℕ) (ts mtext : Text)
    → Plain (10 ∷ []) (t ∷ ts)
    → length (t ∷ ts) < 120
    → send_messages pid mtext (mirror_command ++ 32 ∷ ((t ∷ ts) ++ 10 ∷ []))
      ≡ some (some (record { mtype = mirror; pid = pid; key = 0; mtext = t ∷ ts }))
unfolding send_messages
mirror_line pid t ts mtext line short =
    let within : ltb (length (t ∷ ts)) 120 ≡ true = ground arith in
    rw
      (
        strtok-token (32 ∷ 10 ∷ []) b'M' (b'I' ∷ b'R' ∷ b'R' ∷ b'O' ∷ b'R' ∷ []) 32
            ((t ∷ ts) ++ 10 ∷ []) (refl, (refl, (refl, (refl, (refl, (refl, tt)))))) refl,
        send_messages,
        strtok-token (10 ∷ []) t ts 10 [] line refl,
        send_messages,
        within,
      )
      refl

-- For a line "MIRROR text" with a text of less than 120 bytes a client sends a message that the server,
-- where the client has a queue, answers with one message into that queue, the text reversed.
pub mirror-answered :
    (sys : System) (s : Server) (pid q t : ℕ) (ts mtext : Text)
    → Plain (10 ∷ []) (t ∷ ts)
    → length (t ∷ ts) < 120
    → get_queue pid s.clients ≡ some q
    → (m : Msg) × (send_messages pid mtext (mirror_command ++ 32 ∷ ((t ∷ ts) ++ 10 ∷ []))
        ≡ some (some m))
      × (handle sys s m
          ≡ some (
              continues (record s {
                sent = s.sent ++ record { to = q; mtype = 2; mtext = reversed (t ∷ ts) } ∷ [];
              })))
mirror-answered sys s pid q t ts mtext line short known =
    let m : Msg = record { mtype = mirror; pid = pid; key = 0; mtext = t ∷ ts } in
    (m, mirror_line pid t ts mtext line short, handle-mirror sys s m q refl known)
