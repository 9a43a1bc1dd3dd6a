-- ===== src/Buffer.antt =====
-- SysOpy/lab9/src/zad1/main.c: producers read lines of a file into a bounded buffer, consumers
-- take them out and print those whose length fits. One call of `addToBuffer` or of
-- `removeFromBuffer` runs under the mutex, so each is one function on the shared globals; its
-- result says where the thread goes next and which condition variables were broadcast.
pub mod Ring
pub mod History
pub mod Threads
pub mod Progress
mod Tests
use semestr.Prelude.{
  ℕ, ◌+◌, ◌-◌, ◌^◌, ◌%◌, Bool, true, false, not, ◌&&◌, ◌||◌, Option, none, some, List, [], ◌∷◌,
  ◌++◌, length, get_elem?, set, replicate, ltb, ◌==◌, if◌then◌else◌, ◌>>=◌,
}

-- `struct conf`. The counts of a configuration file are not negative.
pub record Conf : Type 0 where
  pub number_of_producers : ℕ
  pub number_of_consumers : ℕ
  pub buffer_length : ℕ
  pub file_name : List ℕ
  pub string_length : ℕ
  pub search_mode : ℕ
  pub verbal_mode : Bool
  pub timeout : ℕ

-- `struct line`; the text is its bytes.
pub record Line : Type 0 where
  pub text : List ℕ
  pub line_number : ℕ

-- What the program prints, apart from its errors.
pub data Event : Type 0 where
  adding : List ℕ → Event
  removing : List ℕ → Event
  found : Line → Event

-- The globals that the mutex guards. A slot of `buffer` is `none` while its text is null or freed.
-- `source` is what the next calls of `fgets` on SOURCE return; `output` is the latest event first.
pub record Shared : Type 0 where
  pub buffer : List (Option Line)
  pub source : List (List ℕ)
  pub end_of_file : Bool
  pub consumer_pos : ℕ
  pub producer_pos : ℕ
  pub number_of_elements : ℕ
  pub line_number : ℕ
  pub output : List Event

-- What a call does next: return 0, return -1, or wait on a condition variable; after the wait it
-- unlocks the mutex and returns 0.
pub data Outcome : Type 0 where
  returns_zero returns_minus_one waits_empty waits_full : Outcome

pub record Result : Type 0 where
  pub mem : Shared
  pub outcome : Outcome
  pub broadcasts_empty : Bool
  pub broadcasts_full : Bool

-- A call that leaves the globals as they are and wakes nobody.
abbrev pub quiet : Shared → Outcome → Result
quiet s o = record { mem = s; outcome = o; broadcasts_empty = false; broadcasts_full = false }

-- `main` before it starts the threads.
unfoldable pub start : Conf → List (List ℕ) → Shared
start c file = record {
  buffer = replicate c.buffer_length none;
  source = file;
  end_of_file = false;
  consumer_pos = 0;
  producer_pos = 0;
  number_of_elements = 0;
  line_number = 0;
  output = [];
}

-- `pos++; if (pos == CONF.bufferLength) pos = 0;`
unfoldable pub advance : ℕ → ℕ → ℕ
advance len pos = if pos + 1 == len then 0 else pos + 1

-- The events of a call that prints only with `verbalMode`.
abbrev pub say : Bool → Event → List Event → List Event
say verbal e out = if verbal then e ∷ out else out

-- The part of `addToBuffer` that runs when the buffer is not full.
read_line : Conf → Shared → List (List ℕ) → Result
unfolding advance
read_line c s (text ∷ rest) = record {
  mem = record s {
    buffer =
        set s.buffer s.producer_pos
          (some (record { text = text; line_number = s.line_number + 1 }));
    source = rest;
    producer_pos = advance c.buffer_length s.producer_pos;
    number_of_elements = s.number_of_elements + 1;
    line_number = s.line_number + 1;
    output = say c.verbal_mode (adding text) s.output;
  };
  outcome = returns_zero;
  broadcasts_empty = s.number_of_elements + 1 == 1;
  broadcasts_full = false;
}
read_line c s [] =
    if c.timeout == 0
    then record {
      mem = record s { end_of_file = true };
      outcome = returns_minus_one;
      broadcasts_empty = true;
      broadcasts_full = false;
    }
    else record {
      mem = s;
      outcome = returns_zero;
      broadcasts_empty = s.number_of_elements == 1;
      broadcasts_full = false;
    }

-- `addToBuffer`
unfoldable pub add_to_buffer : Conf → Shared → Result
unfolding read_line
add_to_buffer c s =
    if s.number_of_elements == c.buffer_length then quiet s waits_full else read_line c s s.source

-- `strlen(text) - 1`, a `size_t`.
abbrev pub text_length : List ℕ → ℕ
text_length text = (length text + 2 ^ 64 - 1) % 2 ^ 64

-- The test of `removeFromBuffer`: EQUAL is 0, LESSER is 1, GREATER is 2.
unfoldable pub matches : Conf → List ℕ → Bool
matches c text =
    (text_length text == c.string_length && c.search_mode == 0)
    || (ltb (text_length text) c.string_length && c.search_mode == 1)
    || (ltb c.string_length (text_length text) && c.search_mode == 2)

-- The part of `removeFromBuffer` that takes a line out, with the slot that it reads.
take_line : Conf → Shared → Line → Result
unfolding advance
take_line c s line = record {
  mem = record s {
    buffer = set s.buffer s.consumer_pos none;
    consumer_pos = advance c.buffer_length s.consumer_pos;
    number_of_elements = s.number_of_elements - 1;
    output =
        let removed = say c.verbal_mode (removing line.text) s.output in
        if matches c line.text then found line ∷ removed else removed;
  };
  outcome = returns_zero;
  broadcasts_empty = false;
  broadcasts_full = s.number_of_elements - 1 == c.buffer_length - 1;
}

-- `removeFromBuffer`; `none` is a read through a null or freed text, or outside the buffer.
unfoldable pub remove_from_buffer : Conf → Shared → Option Result
unfolding take_line
remove_from_buffer c s =
    if s.number_of_elements == 0 && not s.end_of_file
    then some (quiet s waits_empty)
    else if s.end_of_file && s.number_of_elements == 0
    then some (quiet s returns_minus_one)
    else do slot ← get_elem? s.buffer s.consumer_pos; line ← slot; some (take_line c s line)
