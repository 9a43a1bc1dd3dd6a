-- ===== src/Fifo/Lines.antt =====
-- The lines that the master of SysOpy/lab5/src/zad2 prints.
use semestr.Prelude.{
  ℕ, zero, suc, ◌+◌, ◌≤◌, ◌<◌, ◌≡◌, refl, sym, subst, ap, ◌∙◌, arith, true, false, some, List, [],
  ◌∷◌, ◌++◌, append_assoc, take, map, length, length-append,
}
use semestr.Prelude.Int.{pos}
use semestr.CString.{Text, has, is_digit, atoi}
use semestr.CString.Decimal.{decimal, print_int, print_int-cons}
use semestr.CString.Lines.{newline, Plain-append}
use semestr.CString.Tokens.{Plain}
use semestr.Runner.{getline}
use semestr.Runner.Lines.{getline-newline}
use semestr.Fifo.{Moment, block, slav_logic, parse_slave, contents, master_logic, parse_master}

take-all : (n : ℕ) (xs : Text) → length xs ≤ n → take n xs ≡ xs
take-all zero [] h = refl
take-all (suc n) [] h = refl
take-all zero (x ∷ xs) h = absurd (omega arith)
take-all (suc n) (x ∷ xs) h = ap (◌∷◌ x) (take-all n xs (omega arith))

take-line :
    (n : ℕ) (t rest : Text)
    → length t < n
    → (left : Text) × (take n (t ++ 10 ∷ rest) ≡ t ++ 10 ∷ left)
take-line zero t rest h = absurd (omega arith)
take-line (suc n) [] rest h = (take n rest, refl)
take-line (suc n) (c ∷ t) rest h =
    let (left, e) = take-line n t rest (omega arith) in (left, ap (◌∷◌ c) e)

newline-digit : (c : ℕ) → is_digit c ≡ true → has newline c ≡ false
newline-digit c e = ground arith

decimal-Plain : (n : ℕ) → Plain newline (decimal n)
unfolding print_int
decimal-Plain n =
    let (b, bs, e, plain) = print_int-cons newline (pos n) newline-digit refl in
    subst (Plain newline) (sym e) plain

-- The line of a slave, with a date.
abbrev pub line_of_slave : ℕ → Text → Text
line_of_slave pid day = decimal pid ++ 9 ∷ day

-- `date` prints one line of at most 50 bytes, and with the pid it fits into the block.
pub record IsDated (pid : ℕ) (day : Text) (m : Moment) : Type 0 where
  pub printed : m.date ≡ day ++ 10 ∷ []
  pub one_line : Plain newline day
  pub short : length day < 50
  pub fits : length (line_of_slave pid day) < 255

block-IsDated :
    (pid : ℕ) (day : Text) (m : Moment)
    → IsDated pid day m
    → (left : Text) × (block pid m ≡ line_of_slave pid day ++ 10 ∷ left)
unfolding block
block-IsDated pid day m dated =
    let whole : take 50 m.date ≡ day ++ 10 ∷ [] =
      take-all 50 m.date
        (rw dated.printed (omega (arith, dated.short, length-append day (10 ∷ []))))
      ∙ dated.printed in
    let (left, e) = take-line 255 (line_of_slave pid day) m.memory dated.fits in
    (
      left,
      rw
          (
            whole,
            append_assoc day (10 ∷ []) m.memory,
            ← append_assoc (decimal pid) (9 ∷ day) (10 ∷ m.memory),
          )
          e,
    )

line_of_slave-Plain :
    (pid : ℕ) (day : Text) → Plain newline day → Plain newline (line_of_slave pid day)
line_of_slave-Plain pid day one_line =
    Plain-append newline (decimal pid) (9 ∷ day) (decimal-Plain pid) (refl, one_line)

-- The blocks of an opening: the first one with its slave and its day, and those that come later.
pub record Opening : Type 0 where
  pub pid : ℕ
  pub day : Text
  pub moment : Moment
  pub later : List Text

abbrev pub blocks : Opening → List Text
blocks o = block o.pid o.moment ∷ o.later

abbrev pub AllDated : List Opening → Type 0
AllDated [] = Unit {0}
AllDated (o ∷ os) = IsDated o.pid o.day o.moment × AllDated os

abbrev pub first_line : Opening → Text
first_line o = line_of_slave o.pid o.day ++ newline

getline-blocks :
    (o : Opening)
    → IsDated o.pid o.day o.moment
    → (lost : Text) × (getline (contents (blocks o)) ≡ some (first_line o, lost))
getline-blocks o dated =
    let (left, e) = block-IsDated o.pid o.day o.moment dated in
    let line = line_of_slave o.pid o.day in
    let all : contents (blocks o) ≡ line ++ 10 ∷ (left ++ contents o.later) =
      rw e (append_assoc line (10 ∷ left) (contents o.later)) in
    (
      left ++ contents o.later,
      rw all (
          getline-newline line (left ++ contents o.later)
            (line_of_slave-Plain o.pid o.day dated.one_line)),
    )

-- For each time that the FIFO is open the master prints exactly the line of the slave that wrote first; what
-- other slaves wrote meanwhile is lost. Each date is one line that fits into the buffers.
pub master_logic-AllDated :
    (os : List Opening) → AllDated os → master_logic (map blocks os) ≡ map first_line os
unfolding master_logic
master_logic-AllDated [] all = refl
master_logic-AllDated (o ∷ os) all =
    let (lost, e) = getline-blocks o all.0 in
    rw (e, master_logic, master_logic-AllDated os all.1) refl

-- The openings of a slave that writes alone.
abbrev alone : ℕ → ℕ → ℕ → (ℕ → Moment) → (ℕ → Text) → List Opening
alone pid zero i moments days = []
alone pid (suc n) i moments days =
    record { pid = pid; day = days i; moment = moments i; later = [] }
    ∷ alone pid n (i + 1) moments days

alone-AllDated :
    (pid n i : ℕ) (moments : ℕ → Moment) (days : ℕ → Text)
    → ((i : ℕ) → IsDated pid (days i) (moments i))
    → AllDated (alone pid n i moments days)
alone-AllDated pid zero i moments days h = tt
alone-AllDated pid (suc n) i moments days h = (h i, alone-AllDated pid n (i + 1) moments days h)

-- The lines of a slave from round `i` on.
abbrev pub lines : ℕ → ℕ → ℕ → (ℕ → Text) → List Text
lines pid zero i days = []
lines pid (suc n) i days = (line_of_slave pid (days i) ++ newline) ∷ lines pid n (i + 1) days

abbrev pub singly : List Text → List (List Text)
singly [] = []
singly (b ∷ bs) = (b ∷ []) ∷ singly bs

alone-singly :
    (pid n i : ℕ) (moments : ℕ → Moment) (days : ℕ → Text)
    → map blocks (alone pid n i moments days) ≡ singly (slav_logic pid n i moments)
unfolding slav_logic
alone-singly pid zero i moments days = refl
alone-singly pid (suc n) i moments days =
    ap (◌∷◌ (block pid (moments i) ∷ [])) (alone-singly pid n (i + 1) moments days)

alone-lines :
    (pid n i : ℕ) (moments : ℕ → Moment) (days : ℕ → Text)
    → map first_line (alone pid n i moments days) ≡ lines pid n i days
alone-lines pid zero i moments days = refl
alone-lines pid (suc n) i moments days =
    ap (◌∷◌ (line_of_slave pid (days i) ++ newline)) (alone-lines pid n (i + 1) moments days)

-- A slave that is told a number of rounds, and each of whose blocks meets the FIFO alone: the master prints a
-- line with its pid and the date for every round.
pub parse_master-parse_slave :
    (pid n : ℕ) (moments : ℕ → Moment) (days : ℕ → Text) (fifo_name number : Text)
    → atoi number ≡ pos n
    → ((i : ℕ) → IsDated pid (days i) (moments i))
    → (bs : List Text) × (parse_slave pid moments (fifo_name ∷ number ∷ []) ≡ some (fifo_name, bs))
      × (parse_master (singly bs) (fifo_name ∷ []) ≡ some (lines pid n 0 days))
unfolding parse_slave parse_master
parse_master-parse_slave pid n moments days fifo_name number e dated = (
  slav_logic pid n 0 moments,
  rw e refl,
  ap some (
      ap master_logic (sym (alone-singly pid n 0 moments days))
      ∙ master_logic-AllDated (alone pid n 0 moments days)
          (alone-AllDated pid n 0 moments days dated)
      ∙ alone-lines pid n 0 moments days),
)
