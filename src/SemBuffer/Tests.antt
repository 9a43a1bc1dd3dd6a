-- ===== src/SemBuffer/Tests.antt =====
-- SysOpy/lab9/src/zad2/main.c on a file of one line, with one consumer, who comes too early, and one
-- producer.
use semestr.Prelude.{ℕ, ◌≡◌, refl, true, List, [], ◌∷◌, arith}
use semestr.Buffer.{Conf, start, matches}
use semestr.Buffer.History.{numbered, matching, found_lines}
use semestr.SemBuffer.{add_to_buffer, remove_from_buffer}
use semestr.SemBuffer.Threads.{
  System, Step, produce, consume, pass_empty, give_empty, Reach, begin, next,
}
use semestr.SemBuffer.Progress.{finished-found, never_stuck}

abbrev conf : Conf
conf = record {
  number_of_producers = 1;
  number_of_consumers = 1;
  buffer_length = 1;
  file_name = [];
  string_length = 1;
  search_mode = 0;
  verbal_mode = true;
  timeout = 0;
}

abbrev file : List (List ℕ)
file = (97 ∷ 10 ∷ []) ∷ []

-- A state that the threads reach, with the way there.
record Run : Type 0 where
  last : System
  reach : Reach conf file last

abbrev whole_run : Run
unfolding add_to_buffer remove_from_buffer matches start
whole_run = record {
  last = _;
  reach =
      next
        (next
          (next
            (next
              (next
                (next (next begin (consume 0 _ (omega arith) refl refl))
                  (produce 1 (omega arith) (omega arith) refl))
                (pass_empty 0 refl (omega arith)))
              (give_empty 0 refl))
            (consume 0 _ (omega arith) refl refl))
          (produce 1 (omega arith) (omega arith) refl))
        (consume 0 _ (omega arith) refl refl);
}

finished-found_example : found_lines whole_run.last.mem.output ≡ matching conf (numbered 0 file)
unfolding add_to_buffer remove_from_buffer matches start
finished-found_example = finished-found (omega arith) whole_run.reach 0 (omega arith) refl

-- The consumer waits for `emptySem`, which is 0.
abbrev waiting_run : Run
unfolding add_to_buffer remove_from_buffer matches start
waiting_run = record { last = _; reach = next begin (consume 0 _ (omega arith) refl refl) }

never_stuck_example : (t : System) × Step conf waiting_run.last t
unfolding add_to_buffer remove_from_buffer matches start
never_stuck_example =
    never_stuck (omega arith) (omega arith) waiting_run.reach 0 (omega arith) (λ e. cc)
