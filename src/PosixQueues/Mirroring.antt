-- ===== src/PosixQueues/Mirroring.antt =====
-- The command MIRROR of SysOpy/lab6/src/zad2, from the client's line to what it prints.
use semestr.Prelude.{
  ℕ, ◌+◌, ◌<◌, ◌≡◌, ◌≢◌, refl, some, true, [], ◌∷◌, ◌++◌, arith, length, length-append, reversed,
}
use semestr.Prelude.Int.{ℤ}
use semestr.CString.{Text}
use semestr.CString.Tokens.{Plain, strtok-token}
use semestr.CString.Lines.{Plain-append}
use semestr.Queues.Commands.{mirror_command}
use semestr.Queues.Mirror.{mirror_lem}
use semestr.PosixQueues.{
  server_name, message_text, fits_message, argument, Server, continues, handle, send_message,
}
use semestr.PosixQueues.Fields.{prepare_message_lem, fields-message_text, argument-message_text}

Plain-reversed : (d s : Text) → Plain d s → Plain d (reversed s)
Plain-reversed d [] h = tt
Plain-reversed d (c ∷ s) h = Plain-append d (reversed s) (c ∷ []) (Plain-reversed d s h.1) (h.0, tt)

length-reversed : (s : Text) → length (reversed s) ≡ length s
length-reversed [] = refl
length-reversed (c ∷ s) = omega (arith, length-append (reversed s) (c ∷ []), length-reversed s)

snoc-ne : (s : Text) (c : ℕ) → (s ++ c ∷ []) ≢ []
snoc-ne [] c e = cc
snoc-ne (x ∷ s) c e = cc

mirror_line :
    (t : ℕ) (ts name : Text)
    → Plain (10 ∷ []) (t ∷ ts)
    → length name + length (t ∷ ts) < 125
    → length (t ∷ ts) < 118
    → send_message name (mirror_command ++ 32 ∷ ((t ∷ ts) ++ 10 ∷ []))
      ≡ some (some (message_text 2 name (t ∷ ts)))
unfolding send_message
mirror_line t ts name line short text_short =
    let fits : fits_message (mirror_command ++ 32 ∷ ((t ∷ ts) ++ 10 ∷ [])) ≡ true =
      ground (arith, length-append (t ∷ ts) (10 ∷ [])) in
    rw
      (
        fits,
        strtok-token (32 ∷ 10 ∷ []) b'M' (b'I' ∷ b'R' ∷ b'R' ∷ b'O' ∷ b'R' ∷ []) 32
            ((t ∷ ts) ++ 10 ∷ []) (refl, (refl, (refl, (refl, (refl, (refl, tt)))))) refl,
        send_message,
        strtok-token (10 ∷ []) t ts 10 [] line refl,
        send_message,
        prepare_message_lem 2 name (t ∷ ts) short,
      )
      refl

mirrored :
    (now : Text) (print : ℤ → ℤ → Text) (s : Server) (c t : ℕ) (name ts : Text)
    → Plain (b'|' ∷ []) (c ∷ name)
    → Plain (10 ∷ []) (t ∷ ts)
    → length (t ∷ ts) < 118
    → handle now print s (message_text 2 (c ∷ name) (t ∷ ts))
      ≡ some (
          continues (record s {
            sent = s.sent ++ (c ∷ name, message_text 2 server_name (reversed (t ∷ ts))) ∷ [];
          }))
unfolding handle message_text
mirrored now print s c t name ts plain line short =
    rw
      (
        fields-message_text 2 c name (t ∷ ts) (omega arith) plain,
        argument-message_text 2 c name (t ∷ ts) (omega arith) plain (λ e. cc) line,
        (mirror_lem (t ∷ ts)).0,
        prepare_message_lem 2 server_name (reversed (t ∷ ts))
            (omega (arith, length-reversed (t ∷ ts))),
      )
      refl

-- For a line "MIRROR text" the client sends a message that the server, in any state, answers with one message
-- into the queue of the client, and the argument in that is the reversed text. The client's
-- queue has a name without "|", the text is not empty, and
-- both fit into a message.
pub mirror-round_trip :
    (now : Text) (print : ℤ → ℤ → Text) (s : Server) (c t : ℕ) (name ts : Text)
    → Plain (b'|' ∷ []) (c ∷ name)
    → Plain (10 ∷ []) (t ∷ ts)
    → length (c ∷ name) + length (t ∷ ts) < 125
    → length (t ∷ ts) < 118
    → (message reply : Text) × (send_message
          (c ∷ name)
          (mirror_command ++ 32 ∷ ((t ∷ ts) ++ 10 ∷ []))
        ≡ some (some message))
      × (handle now print s message
          ≡ some (continues (record s { sent = s.sent ++ (c ∷ name, reply) ∷ [] })))
      × (argument reply ≡ some (reversed (t ∷ ts)))
mirror-round_trip now print s c t name ts plain line short text_short = (
  message_text 2 (c ∷ name) (t ∷ ts),
  message_text 2 server_name (reversed (t ∷ ts)),
  mirror_line t ts (c ∷ name) line short text_short,
  mirrored now print s c t name ts plain line text_short,
  argument-message_text 2 b'/' (b's' ∷ b'e' ∷ b'r' ∷ b'v' ∷ b'e' ∷ b'r' ∷ []) (reversed (t ∷ ts))
      (omega arith) (refl, (refl, (refl, (refl, (refl, (refl, (refl, tt)))))))
      (snoc-ne (reversed ts) t) (Plain-reversed (10 ∷ []) (t ∷ ts) line),
)
