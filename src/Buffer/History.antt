-- ===== src/Buffer/History.antt =====
-- What one call of `addToBuffer` or `removeFromBuffer` does to the lines that were taken out, the
-- lines that the buffer holds and the lines that are still to be read.
use semestr.Prelude.{
  ℕ, suc, ◌+◌, ◌≤◌, ◌<◌, ◌≡◌, refl, ◌∙◌, sym, inl, inr, true, none, some, List, [], ◌∷◌, ◌++◌,
  arith, length, length-append, length-set, length-replicate, if◌then◌else◌, Bool-cases,
  append_assoc, append-nil, ◌==◌,
}
use semestr.Buffer.{
  Conf, Line, Event, adding, removing, found, Shared, Result, quiet, returns_minus_one, waits_empty,
  start, matches, read_line, take_line, add_to_buffer, remove_from_buffer,
}
use semestr.Buffer.Ring.{slot_after, advance-slot_after, advance-lt, Holds, Holds-push, Holds-pop}

-- The lines of a file, numbered from `k + 1` on.
abbrev pub numbered : ℕ → List (List ℕ) → List Line
numbered k [] = []
numbered k (t ∷ ts) = record { text = t; line_number = k + 1 } ∷ numbered (k + 1) ts

-- The lines that the search prints.
abbrev pub matching : Conf → List Line → List Line
matching c [] = []
matching c (l ∷ ls) = if matches c l.text then l ∷ matching c ls else matching c ls

-- The lines found, oldest first, of an output that is listed latest first.
abbrev pub found_lines : List Event → List Line
found_lines [] = []
found_lines (adding t ∷ es) = found_lines es
found_lines (removing t ∷ es) = found_lines es
found_lines (found l ∷ es) = found_lines es ++ l ∷ []

matching-snoc :
    (c : Conf) (ls : List Line) (l : Line)
    → matching c (ls ++ l ∷ []) ≡ matching c ls ++ (if matches c l.text then l ∷ [] else [])
matching-snoc c [] l = ground arith
matching-snoc c (x ∷ ls) l = ground (arith, matching-snoc c ls l)

-- `taken` were removed, in this order; `q` is in the buffer, oldest first.
pub record Inv (c : Conf) (file : List (List ℕ)) (s : Shared) (taken q : List Line) : Type 0 where
  pub size : length s.buffer ≡ c.buffer_length
  pub count : s.number_of_elements ≡ length q
  pub room : length q ≤ c.buffer_length
  pub front : s.consumer_pos < c.buffer_length
  pub back : s.producer_pos ≡ slot_after c.buffer_length (length q) s.consumer_pos
  pub held : Holds c.buffer_length s.buffer s.consumer_pos q
  pub history : taken ++ (q ++ numbered s.line_number s.source) ≡ numbered 0 file
  pub shown : found_lines s.output ≡ matching c taken
  pub ended : s.end_of_file ≡ true → s.source ≡ []

pub start-Inv :
    (c : Conf) (file : List (List ℕ)) → 0 < c.buffer_length → Inv c file (start c file) [] []
unfolding start
start-Inv c file h = record {
  size = length-replicate c.buffer_length none;
  count = refl;
  room = omega arith;
  front = h;
  back = refl;
  held = tt;
  history = refl;
  shown = refl;
  ended = λ e. cc;
}

module _ {c : Conf} {file : List (List ℕ)} {s : Shared} {taken q : List Line}
    (v : Inv c file s taken q) where
  abbrev next_line : List ℕ → Line
  next_line t = record { text = t; line_number = s.line_number + 1 }

  set_eof-Inv : s.source ≡ [] → Inv c file (record s { end_of_file = true }) taken q
  set_eof-Inv e = record {
    size = v.size;
    count = v.count;
    room = v.room;
    front = v.front;
    back = v.back;
    held = v.held;
    history = v.history;
    shown = v.shown;
    ended = λ _. e;
  }

  read_line-Inv :
      (source : List (List ℕ))
      → s.source ≡ source
      → length q < c.buffer_length
      → (q' : List Line) × Inv c file (read_line c s source).mem taken q'
  unfolding read_line
  read_line-Inv [] e room = elim (Bool-cases (c.timeout == 0)) [
    | inl now ↦ (q, rw (now, read_line) (set_eof-Inv e))
    | inr later ↦ (q, rw (later, read_line) v)
  ]
  read_line-Inv (t ∷ rest) e room = (
    q ++ next_line t ∷ [],
    record {
      size = length-set s.buffer _ _ ∙ v.size;
      count = omega (arith, v.count, longer);
      room = omega (arith, longer);
      front = v.front;
      back =
          rw (longer, v.back) (sym (advance-slot_after c.buffer_length (length q) s.consumer_pos));
      held = rw v.back (
          Holds-push c.buffer_length s.buffer (next_line t) q s.consumer_pos v.size v.front room
            v.held);
      history =
          rw (append_assoc q (next_line t ∷ []) (numbered (s.line_number + 1) rest))
            (rw e at v.history);
      shown = ground (arith, v.shown);
      ended = λ eof. absurd (cc (v.ended eof));
    },
  )
    where
      longer : length (q ++ next_line t ∷ []) ≡ suc (length q)
      longer = omega (arith, length-append q (next_line t ∷ []))

  -- `addToBuffer` takes no line out, and appends to the buffer what it reads.
  pub add_to_buffer-Inv : (q' : List Line) × Inv c file (add_to_buffer c s).mem taken q'
  unfolding add_to_buffer
  add_to_buffer-Inv = elim (Bool-cases (s.number_of_elements == c.buffer_length)) [
    | inl full ↦ (q, rw (full, add_to_buffer) v)
    | inr space ↦
        rw (space, add_to_buffer) (read_line-Inv s.source refl (ground (arith, v.count, v.room)))
  ]

take_line-Inv :
    {c : Conf} {file : List (List ℕ)} {s : Shared} {taken q : List Line} {l : Line}
    → Inv c file s taken (l ∷ q)
    → Inv c file (take_line c s l).mem (taken ++ l ∷ []) q
unfolding take_line
take_line-Inv {c} {file} {s} {taken} {q} {l} v = record {
  size = length-set s.buffer _ _ ∙ v.size;
  count = omega (arith, v.count);
  room = omega (arith, v.room);
  front = advance-lt c.buffer_length s.consumer_pos v.front;
  back = v.back;
  held = Holds-pop c.buffer_length s.buffer l q s.consumer_pos v.front v.room v.held;
  history = rw (append_assoc taken (l ∷ []) (q ++ numbered s.line_number s.source)) v.history;
  shown = rw (matching-snoc c taken l) (ground (arith, v.shown, append-nil (matching c taken)));
  ended = v.ended;
}

-- `removeFromBuffer` does not fault, and takes out the oldest line that the buffer holds, if any.
pub remove_from_buffer-Inv :
    {c : Conf} {file : List (List ℕ)} {s : Shared} {taken q : List Line}
    → Inv c file s taken q
    → (r : Result) × (taken' : List Line) × (q' : List Line) × (remove_from_buffer c s ≡ some r)
      × Inv c file r.mem taken' q'
unfolding remove_from_buffer
remove_from_buffer-Inv {c} {file} {s} {taken} {q = []} v = elim (Bool-cases s.end_of_file) [
  | inl eof ↦ (quiet s returns_minus_one, taken, [], ground (arith, v.count), v)
  | inr more ↦ (quiet s waits_empty, taken, [], ground (arith, v.count), v)
]
remove_from_buffer-Inv {c} {file} {s} {taken} {q = l ∷ q} v =
    (take_line c s l, taken ++ l ∷ [], q, ground (arith, v.held.0, v.count), take_line-Inv v)
