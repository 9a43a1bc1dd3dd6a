-- ===== src/Fifo.antt =====
-- SysOpy/lab5/src/zad2: slaves (slave.c) write the date into a FIFO, each write a block of 255 bytes, and
-- the master (master.c) opens it, prints one line and closes it, for ever. A block is written at
-- once, as PIPE_BUF is larger. What `date` prints, and what stands in the memory behind it, are arguments.
-- Left out is a slave that still has the FIFO open when the master closes it: SIGPIPE ends it, or its
-- block stays for the next opening.
pub mod Lines
mod Tests
use semestr.Prelude.{
  ℕ, zero, suc, ◌+◌, Option, none, some, List, [], ◌∷◌, ◌++◌, take, ◌==◌, if◌then◌else◌, ◌>>=◌,
}
use semestr.Prelude.Int.{pos_part}
use semestr.CString.{Text, atoi}
use semestr.CString.Decimal.{decimal}
use semestr.Runner.{getline}

-- What `date` prints in a round, and the bytes that `strcat` and `fwrite` find behind it.
pub record Moment : Type 0 where
  pub date : Text
  pub memory : Text

-- A round of `slavLogic`: the block that it writes.
unfoldable pub block : ℕ → Moment → Text
unfolding decimal
block pid m = take 255 (decimal pid ++ 9 ∷ (take 50 m.date ++ m.memory))

-- `slavLogic` from round `i` on, with the rounds that are left.
unfoldable pub slav_logic : ℕ → ℕ → ℕ → (ℕ → Moment) → List Text
unfolding block
slav_logic pid zero i moments = []
slav_logic pid (suc n) i moments = block pid (moments i) ∷ slav_logic pid n (i + 1) moments

-- `parse` of slave.c, from the arguments after the program's name: nothing where it returns -1.
unfoldable pub parse_slave : ℕ → (ℕ → Moment) → List Text → Option (Text × List Text)
unfolding slav_logic
parse_slave pid moments (fifo_name ∷ n ∷ []) =
    some (fifo_name, slav_logic pid (pos_part (atoi n)) 0 moments)
parse_slave pid moments args = none

-- The bytes of blocks that are in the FIFO.
abbrev pub contents : List Text → Text
contents [] = []
contents (b ∷ bs) = b ++ contents bs

-- `masterLogic`: the lines that are printed, from the blocks that slaves write while the FIFO is open, for
-- each time that it is. What `getline` has read into the buffer behind the line is lost by `fclose`.
unfoldable pub master_logic : List (List Text) → List Text
master_logic [] = []
master_logic (blocks ∷ openings) =
    let rest = master_logic openings in
    elim (getline (contents blocks)) [ none ↦ rest | some (line, lost) ↦ line ∷ rest ]

-- `parse` of master.c.
unfoldable pub parse_master : List (List Text) → List Text → Option (List Text)
unfolding master_logic
parse_master openings (fifo_name ∷ []) = some (master_logic openings)
parse_master openings args = none
