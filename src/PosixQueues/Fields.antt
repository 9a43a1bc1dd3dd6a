-- ===== src/PosixQueues/Fields.antt =====
-- The messages of SysOpy/lab6/src/zad2 and their parts.
use semestr.Prelude.{
  ℕ, ◌+◌, ◌≡◌, ◌≢◌, refl, some, true, [], ◌∷◌, ◌++◌, arith, ◌<◌, length, length-append,
}
use semestr.CString.{Text, strtok}
use semestr.CString.Tokens.{Plain, strtok-token, strtok-last}
use semestr.PosixQueues.{message_text, fits_message, prepare_message, fields, argument}

-- A message of less than 128 bytes is written as a whole.
pub prepare_message_lem :
    (mode : ℕ) (name arg : Text)
    → length name + length arg < 125
    → prepare_message mode name arg ≡ some (message_text mode name arg)
unfolding prepare_message message_text
prepare_message_lem mode name arg short =
    let fits : fits_message (message_text mode name arg) ≡ true =
      ground (arith, length-append name (b'|' ∷ arg)) in
    rw (prepare_message, fits) refl

-- A message that `prepareMessage` wrote for a mode of one digit has its parts.
pub fields-message_text :
    (mode c : ℕ) (name arg : Text)
    → mode < 10
    → Plain (b'|' ∷ []) (c ∷ name)
    → fields (message_text mode (c ∷ name) arg) ≡ some (c ∷ name, arg)
unfolding fields message_text
fields-message_text mode c name arg digit plain =
    rw
      (strtok-token (b'|' ∷ []) (b'0' + mode) [] b'|' ((c ∷ name) ++ b'|' ∷ arg) (ground arith, tt)
        refl)
      (strtok-token (b'|' ∷ []) c name b'|' arg plain refl)

strtok-whole : (d s : Text) → s ≢ [] → Plain d s → strtok d s ≡ some (s, [])
strtok-whole d [] some_byte plain = absurd (some_byte refl)
strtok-whole d (c ∷ s) some_byte plain = strtok-last d c s plain

-- The argument comes back as it was, if it is not empty and of one line.
pub argument-message_text :
    (mode c : ℕ) (name arg : Text)
    → mode < 10
    → Plain (b'|' ∷ []) (c ∷ name)
    → arg ≢ []
    → Plain (10 ∷ []) arg
    → argument (message_text mode (c ∷ name) arg) ≡ some arg
unfolding argument
argument-message_text mode c name arg digit plain some_byte line =
    rw (fields-message_text mode c name arg digit plain, strtok-whole (10 ∷ []) arg some_byte line)
      refl
