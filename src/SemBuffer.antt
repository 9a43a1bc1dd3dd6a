-- ===== src/SemBuffer.antt =====
-- SysOpy/lab9/src/zad2/main.c: the program of lab9/src/zad1 with semaphores in place of the condition
-- variables. `sem` orders the calls; a thread that finds the buffer full or empty leaves the
-- call's critical section, then waits for `fullSem` or `emptySem` and posts to it at once.
pub mod Same
pub mod Threads
pub mod Invariant
pub mod Progress
mod Tests
use semestr.Prelude.{
  ℕ, ◌+◌, ◌-◌, Bool, true, false, not, ◌&&◌, ◌||◌, Option, none, some, List, [], ◌∷◌, get_elem?,
  set, ◌==◌, if◌then◌else◌, ◌>>=◌,
}
use semestr.Buffer.{
  Conf, Line, Shared, Outcome, returns_zero, returns_minus_one, waits_empty, waits_full, adding,
  removing, found, advance, say, matches,
}

-- What a call leaves, how it ends, and whether it posts to `emptySem` and to `fullSem`.
pub record Result : Type 0 where
  pub mem : Shared
  pub outcome : Outcome
  pub posts_empty : Bool
  pub posts_full : Bool

-- A call that changes nothing.
abbrev pub idle : Shared → Outcome → Result
idle s o = record { mem = s; outcome = o; posts_empty = false; posts_full = false }

-- The part of `addToBuffer` after the test for a full buffer.
read_line : Conf → Shared → List (List ℕ) → Result
unfolding advance
read_line c s (text ∷ rest) = record {
  mem = record s {
    buffer =
        set s.buffer s.producer_pos
          (some (record { text = text; line_number = s.line_number + 1 }));
    source = rest;
    producer_pos = advance c.buffer_length s.producer_pos;
    number_of_elements = s.number_of_elements + 1;
    line_number = s.line_number + 1;
    output = say c.verbal_mode (adding text) s.output;
  };
  outcome = returns_zero;
  posts_empty = s.number_of_elements + 1 == 1;
  posts_full = false;
}
read_line c s [] =
    if c.timeout == 0
    then record {
      mem = record s { end_of_file = true };
      outcome = returns_minus_one;
      posts_empty = true;
      posts_full = false;
    }
    else record {
      mem = s;
      outcome = returns_zero;
      posts_empty = s.number_of_elements == 1;
      posts_full = false;
    }

-- `addToBuffer`
unfoldable pub add_to_buffer : Conf → Shared → Result
unfolding read_line
add_to_buffer c s =
    if s.number_of_elements == c.buffer_length then idle s waits_full else read_line c s s.source

-- The part of `removeFromBuffer` after its two tests.
take_line : Conf → Shared → Line → Result
unfolding advance
take_line c s line = record {
  mem = record s {
    buffer = set s.buffer s.consumer_pos none;
    consumer_pos = advance c.buffer_length s.consumer_pos;
    number_of_elements = s.number_of_elements - 1;
    output =
        let removed = say c.verbal_mode (removing line.text) s.output in
        if matches c line.text then found line ∷ removed else removed;
  };
  outcome = returns_zero;
  posts_empty = false;
  posts_full = s.number_of_elements - 1 == c.buffer_length - 1;
}

-- `removeFromBuffer`; `none` is a read through a null or freed text, or outside the buffer.
unfoldable pub remove_from_buffer : Conf → Shared → Option Result
unfolding take_line
remove_from_buffer c s =
    if s.number_of_elements == 0 && not s.end_of_file
    then some (idle s waits_empty)
    else if s.end_of_file && s.number_of_elements == 0
    then some (idle s returns_minus_one)
    else do slot ← get_elem? s.buffer s.consumer_pos; line ← slot; some (take_line c s line)
