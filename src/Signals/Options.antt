-- ===== src/Signals/Options.antt =====
-- `countEnumValue` and `parse` of SysOpy/lab4/src/zad2/zad2.c. What `sscanf` reads from an argument is an
-- argument of `parse`. `OPTIONS & v` is a test of one binary digit, as every `v` is a power of two.
use semestr.Prelude.{
  Bool-cases, false, inl, inr, ℕ, suc, ◌+◌, ◌*◌, ◌/◌, ◌%◌, ◌≤◌, ◌≡◌, refl, ◌⊎◌, arith, Bool, true,
  not, ◌&&◌, ◌||◌, Option, none, some, List, [], ◌∷◌, length, ltb, ◌==◌, if◌then◌else◌, ◌>>=◌,
}
use semestr.Prelude.Int.{ℤ, pos, negsuc}
use semestr.CString.{Text, same_text}
use semestr.CString.Tokens.{same_text_eq}
use semestr.Signals.{Parent, start}

abbrev pub pid_option : Text
pid_option = b'p' ∷ b'i' ∷ b'd' ∷ []

abbrev pub ask_option : Text
ask_option = b'a' ∷ b's' ∷ b'k' ∷ []

abbrev pub perm_option : Text
perm_option = b'p' ∷ b'e' ∷ b'r' ∷ b'm' ∷ []

abbrev pub sig_option : Text
sig_option = b's' ∷ b'i' ∷ b'g' ∷ []

abbrev pub kill_option : Text
kill_option = b'k' ∷ b'i' ∷ b'l' ∷ b'l' ∷ []

-- What an option adds: `enum stats`.
unfoldable pub option_value : Text → ℕ
option_value arg =
    if same_text arg pid_option
    then 1
    else if same_text arg ask_option
    then 2
    else if same_text arg perm_option
    then 4
    else if same_text arg sig_option
    then 8
    else if same_text arg kill_option
    then 16
    else 0

unfoldable pub count_enum_value : List Text → ℕ
count_enum_value [] = 0
count_enum_value (arg ∷ args) = option_value arg + count_enum_value args

-- The test of `parse` that an argument is one of the five.
unfoldable pub is_option : Text → Bool
is_option arg =
    same_text arg pid_option
    || same_text arg ask_option
    || same_text arg perm_option
    || same_text arg sig_option
    || same_text arg kill_option

unfoldable pub all_options : List Text → Bool
unfolding is_option
all_options [] = true
all_options (arg ∷ args) = is_option arg && all_options args

-- `LEFTREQUESTS = REQUESTS = numberOfRequests`; with a negative number REQUESTS and PENDING are not used.
unfoldable pub start_from : ℤ → Parent
unfolding start
start_from (pos n) = start n
start_from (negsuc k) = record {
  left_requests = negsuc k;
  requests = 0;
  pending = [];
  granted = [];
}

-- The number of children, the parent and OPTIONS.
pub record Setting : Type 0 where
  pub children : ℤ
  pub parent : Parent
  pub options : ℕ

-- `parse`, from the arguments after the program's name: nothing where it returns -1.
unfoldable pub parse : (Text → Option ℤ) → List Text → Option Setting
unfolding count_enum_value all_options start_from
parse sscanf [] = none
parse sscanf (a ∷ []) = none
parse sscanf (a ∷ b ∷ args) = if ltb 5 (length args) then none else do
  children ← sscanf a
  requests ← sscanf b
  let setting : Setting = record {
    children = children;
    parent = start_from requests;
    options = count_enum_value args;
  }
  if all_options args then some setting else none

-- `OPTIONS & v`
abbrev pub tests_option : ℕ → ℕ → Bool
tests_option options v = not (options / v % 2 == 0)

-- How often a word is among the arguments.
abbrev pub occurrences : Text → List Text → ℕ
occurrences word [] = 0
occurrences word (arg ∷ args) =
    let more = occurrences word args in if same_text arg word then suc more else more

-- The words are different, so that an argument is one of them at most, and has its value.
option_value-cases :
    (arg : Text)
    → (arg ≡ pid_option)
      ⊎ (arg ≡ ask_option)
      ⊎ (arg ≡ perm_option)
      ⊎ (arg ≡ sig_option)
      ⊎ (arg ≡ kill_option)
      ⊎ (is_option arg ≡ false)
unfolding is_option
option_value-cases arg = elim (Bool-cases (same_text arg pid_option)) [
  | inl e ↦ inl (same_text_eq arg pid_option e)
  | inr no_pid ↦ elim (Bool-cases (same_text arg ask_option)) [
    | inl e ↦ inr (inl (same_text_eq arg ask_option e))
    | inr no_ask ↦ elim (Bool-cases (same_text arg perm_option)) [
      | inl e ↦ inr (inr (inl (same_text_eq arg perm_option e)))
      | inr no_perm ↦ elim (Bool-cases (same_text arg sig_option)) [
        | inl e ↦ inr (inr (inr (inl (same_text_eq arg sig_option e))))
        | inr no_sig ↦ elim (Bool-cases (same_text arg kill_option)) [
          | inl e ↦ inr (inr (inr (inr (inl (same_text_eq arg kill_option e)))))
          | inr no_kill ↦
              inr (inr (inr (inr (inr (rw (no_pid, no_ask, no_perm, no_sig, no_kill) refl)))))
        ]
      ]
    ]
  ]
]

-- The sum of the values of the words, as often as they occur.
abbrev worth : List Text → ℕ
worth args =
    occurrences pid_option args
    + 2 * occurrences ask_option args
    + 4 * occurrences perm_option args
    + 8 * occurrences sig_option args
    + 16 * occurrences kill_option args

-- One argument more.
worth-cons : (arg : Text) (args : List Text) → worth (arg ∷ args) ≡ option_value arg + worth args
unfolding option_value is_option
worth-cons arg args = elim (option_value-cases arg) [
  | inl e ↦ rw e (omega arith)
  | inr (inl e) ↦ rw e (omega arith)
  | inr (inr (inl e)) ↦ rw e (omega arith)
  | inr (inr (inr (inl e))) ↦ rw e (omega arith)
  | inr (inr (inr (inr (inl e)))) ↦ rw e (omega arith)
  | inr (inr (inr (inr (inr unknown)))) ↦ ground (arith, unknown)
]

count_enum_value-worth : (args : List Text) → count_enum_value args ≡ worth args
unfolding count_enum_value
count_enum_value-worth [] = refl
count_enum_value-worth (arg ∷ args) =
    omega (arith, worth-cons arg args, count_enum_value-worth args)

-- Where no option is given twice, each test of OPTIONS holds exactly if its word is among the
-- arguments: `PID` for "pid", `ASK` for "ask", `PERM` for "perm", `SIG` for "sig", `KILL` for "kill".
pub count_enum_value-tests :
    (args : List Text)
    → occurrences pid_option args ≤ 1
    → occurrences ask_option args ≤ 1
    → occurrences perm_option args ≤ 1
    → occurrences sig_option args ≤ 1
    → occurrences kill_option args ≤ 1
    → (tests_option (count_enum_value args) 1 ≡ (occurrences pid_option args == 1))
      × (tests_option (count_enum_value args) 2 ≡ (occurrences ask_option args == 1))
      × (tests_option (count_enum_value args) 4 ≡ (occurrences perm_option args == 1))
      × (tests_option (count_enum_value args) 8 ≡ (occurrences sig_option args == 1))
      × (tests_option (count_enum_value args) 16 ≡ (occurrences kill_option args == 1))
count_enum_value-tests args a b c d e =
    let sum = count_enum_value-worth args in
    (
      ground (arith, sum),
      ground (arith, sum),
      ground (arith, sum),
      ground (arith, sum),
      ground (arith, sum),
    )
