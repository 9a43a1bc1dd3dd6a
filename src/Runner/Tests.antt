-- ===== src/Runner/Tests.antt =====
-- Runs of the command runners.
use semestr.Prelude.{◌≡◌, refl, some, false, List, [], ◌∷◌, ltb, if◌then◌else◌}
use semestr.CString.{Text}
use semestr.Runner.{Status, exited, read_and_execute}
use semestr.Runner.Batch.{
  script, batch, read_and_execute-script, read_and_execute-batch, CommandsOf,
}

-- Programs whose name starts with an `a` succeed, and all others fail.
abbrev by_name : List Text → Status
by_name [] = exited 255
by_name ([] ∷ ws) = exited 255
by_name ((c ∷ cs) ∷ ws) =
    if ltb c b'b' then (if ltb c b'a' then exited 1 else exited 0) else exited 1

abbrev commands : List (List Text)
commands = ((b'a' ∷ []) ∷ (b'x' ∷ []) ∷ []) ∷ ((b'b' ∷ []) ∷ []) ∷ ((b'a' ∷ []) ∷ []) ∷ []

runs_test :
    batch by_name commands
    ≡ (((b'a' ∷ []) ∷ (b'x' ∷ []) ∷ [], exited 0) ∷ ((b'b' ∷ []) ∷ [], exited 1) ∷ [], false)
unfolding batch
runs_test = refl

read_and_execute-script_example :
    read_and_execute by_name (script commands) ≡ some (batch by_name commands)
read_and_execute-script_example = read_and_execute-script by_name commands (
  (
    (λ e. cc),
    ((λ e. cc), (refl, tt), ((λ e. cc), (refl, tt), tt)),
    ((λ e. cc), (refl, tt), ((λ e. cc), (refl, tt), tt)),
  ),
  (
    ((λ e. cc), ((λ e. cc), (refl, tt), tt), ((λ e. cc), (refl, tt), tt)),
    (((λ e. cc), ((λ e. cc), (refl, tt), tt), ((λ e. cc), (refl, tt), tt)), tt),
  ),
)

read_and_execute-batch_example :
    (cs : List (List Text)) × CommandsOf (script commands) cs
    × (read_and_execute by_name (script commands) ≡ some (batch by_name cs))
read_and_execute-batch_example = read_and_execute-batch by_name (script commands)
