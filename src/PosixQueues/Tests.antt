-- ===== src/PosixQueues/Tests.antt =====
-- A client of SysOpy/lab6/src/zad2 that asks for the mirrored "ab" and "c", and ends the server.
use semestr.Prelude.{arith, ◌≡◌, refl, some, List, [], ◌∷◌}
use semestr.CString.{Text}
use semestr.PosixQueues.{Server}
use semestr.PosixQueues.Session.{Client, ends, sender}
use semestr.PosixQueues.Session.Scripts.{script, sender-script}

abbrev empty : Server
empty = record { clients = []; sent = [] }

abbrev texts : List Text
texts = (b'a' ∷ b'b' ∷ []) ∷ (b'c' ∷ []) ∷ []

sender-script_example :
    (c : Client) × (sender [] (λ a b. []) (λ k. k) (script texts) empty ≡ some (ends c))
    × (c.printed ≡ (b'b' ∷ b'a' ∷ []) ∷ (b'c' ∷ []) ∷ [])
sender-script_example =
    sender-script [] (λ a b. []) (λ k. k) texts empty refl
      ((λ e. cc), (refl, (refl, tt)), omega arith, ((λ e. cc), (refl, tt), omega arith, tt))
