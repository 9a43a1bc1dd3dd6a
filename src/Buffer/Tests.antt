-- ===== src/Buffer/Tests.antt =====
-- SysOpy/lab9/src/zad1/main.c on a file of one line, with one consumer and one producer.
use semestr.Prelude.{ℕ, ◌≤◌, ◌≡◌, refl, true, List, [], ◌∷◌, ◌++◌, arith, length}
use semestr.Buffer.Ring.{Holds}
use semestr.Buffer.{
  Conf, Line, found, adding, removing, start, add_to_buffer, remove_from_buffer, matches,
}
use semestr.Buffer.History.{numbered, matching, found_lines}
use semestr.Buffer.Threads.{System, returned, produce, consume, Reach, begin, next}
use semestr.Buffer.Progress.{Reach-history, returned-found}

abbrev conf : Conf
conf = record {
  number_of_producers = 1;
  number_of_consumers = 1;
  buffer_length = 1;
  file_name = [];
  string_length = 1;
  search_mode = 0;
  verbal_mode = true;
  timeout = 0;
}

abbrev file : List (List ℕ)
file = (97 ∷ 10 ∷ []) ∷ []

-- A state that the threads reach, with the way there.
record Run : Type 0 where
  last : System
  reach : Reach conf file last

-- The producer fills the buffer, waits, and is woken by the consumer; then both return.
abbrev whole_run : Run
unfolding add_to_buffer remove_from_buffer matches start
whole_run = record {
  last = _;
  reach =
      next
        (next
          (next
            (next (next begin (produce 1 (omega arith) (omega arith) refl))
              (produce 1 (omega arith) (omega arith) refl))
            (consume 0 _ (omega arith) refl refl))
          (produce 1 (omega arith) (omega arith) refl))
        (consume 0 _ (omega arith) refl refl);
}

whole_run_result :
    (whole_run.last.pc 0 ≡ returned)
    × (whole_run.last.pc 1 ≡ returned)
    × (whole_run.last.mem.output
        ≡ found (record { text = 97 ∷ 10 ∷ []; line_number = 1 })
          ∷ removing (97 ∷ 10 ∷ [])
          ∷ adding (97 ∷ 10 ∷ [])
          ∷ [])
unfolding add_to_buffer remove_from_buffer matches start
whole_run_result = (refl, refl, refl)

Reach-history_example :
    (taken : List Line) × (q : List Line) × (taken
        ++ (q ++ numbered whole_run.last.mem.line_number whole_run.last.mem.source)
      ≡ numbered 0 file)
    × (found_lines whole_run.last.mem.output ≡ matching conf taken)
    × Holds 1 whole_run.last.mem.buffer whole_run.last.mem.consumer_pos q
    × (length q ≡ whole_run.last.mem.number_of_elements)
    × (whole_run.last.mem.number_of_elements ≤ 1)
Reach-history_example = Reach-history (omega arith) whole_run.reach

returned-found_example : found_lines whole_run.last.mem.output ≡ matching conf (numbered 0 file)
unfolding add_to_buffer remove_from_buffer matches start
returned-found_example = returned-found (omega arith) whole_run.reach 0 (omega arith) refl
