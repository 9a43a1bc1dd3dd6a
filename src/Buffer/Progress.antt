-- ===== src/Buffer/Progress.antt =====
-- What holds in every state that the threads of SysOpy/lab9/src/zad1/main.c can reach.
use semestr.Prelude.{
  ℕ, ◌≤◌, ◌<◌, ◌≡◌, refl, ◌∙◌, sym, ap, subst, ◌⊎◌, inl, inr, true, false, some, List, [], ◌∷◌,
  ◌++◌, append-nil, arith, length,
}
use semestr.Buffer.Ring.{Holds}
use semestr.Buffer.{Conf, Line, Shared, Result, add_to_buffer, remove_from_buffer}
use semestr.Buffer.History.{
  Inv, start-Inv, add_to_buffer-Inv, remove_from_buffer-Inv, numbered, matching, found_lines,
}
use semestr.Buffer.Threads.{
  Pc, running, on_empty, on_full, returned, System, Step, consume, produce, wake, Reach, begin,
  next, Placed, settle-Placed, wake-Placed, add_to_buffer-Placed, add_to_buffer-next,
  remove_from_buffer-Placed, remove_from_buffer-next,
}

-- The invariant of the whole program: the lines, and every thread's place.
pub record SysInv (c : Conf) (file : List (List ℕ)) (s : System) : Type 0 where
  pub taken : List Line
  pub queue : List Line
  pub lines : Inv c file s.mem taken queue
  pub placed : (i : ℕ) → Placed c s.mem i (s.pc i)

module _ {c : Conf} {file : List (List ℕ)} (room : 0 < c.buffer_length) where
  Step-SysInv : {s t : System} → Step c s t → SysInv c file s → SysInv c file t
  Step-SysInv {s} (consume i r lt e call) v =
      let (r', taken', q', call', lines') = remove_from_buffer-Inv v.lines in
      let same : r' ≡ r = cc in
      record {
        taken = taken';
        queue = q';
        lines = subst (λ (x : Result). Inv c file x.mem taken' q') same lines';
        placed =
            settle-Placed c s.mem s.pc i r
              (λ j.
                remove_from_buffer-Placed c s.mem room v.lines.ended r call j (s.pc j) (v.placed j))
              (remove_from_buffer-next c s.mem room v.lines.ended r call i lt);
      }
  Step-SysInv {s} (produce i from lt e) v = record {
    taken = v.taken;
    queue = (add_to_buffer-Inv v.lines).0;
    lines = (add_to_buffer-Inv v.lines).1;
    placed =
        settle-Placed c s.mem s.pc i (add_to_buffer c s.mem)
          (λ j. add_to_buffer-Placed c s.mem room v.lines.ended j (s.pc j) (v.placed j))
          (add_to_buffer-next c s.mem room v.lines.ended i from);
  }
  Step-SysInv {s} (wake i) v = record {
    taken = v.taken;
    queue = v.queue;
    lines = v.lines;
    placed = wake-Placed c s.mem s.pc i v.placed;
  }

  pub Reach-SysInv : {s : System} → Reach c file s → SysInv c file s
  Reach-SysInv begin = record {
    taken = [];
    queue = [];
    lines = start-Inv c file room;
    placed = λ _. tt;
  }
  Reach-SysInv (next r st) = Step-SysInv st (Reach-SysInv r)

pub all_taken :
    {c : Conf} {file : List (List ℕ)} {m : Shared} {taken q : List Line}
    → Inv c file m taken q
    → m.source ≡ []
    → m.number_of_elements ≡ 0
    → taken ≡ numbered 0 file
all_taken {file = file} {m = m} {taken = taken} {q = []} v e none_left =
    sym (append-nil taken)
    ∙ subst (λ ts. taken ++ numbered m.line_number ts ≡ numbered 0 file) e v.history
all_taken {q = l ∷ q} v e none_left = absurd (omega (arith, v.count))

-- In every reachable state, with a buffer of at least one slot, the lines taken out, those in the
-- buffer and those not yet read make up the file in order, with their numbers: the slots from the
-- consumers' position on hold the middle ones, oldest first, and `numberOfElements` counts them;
-- what was found so far is exactly the matching lines among those taken out; and the buffer is
-- never overfull.
pub Reach-history :
    {c : Conf} {file : List (List ℕ)} {s : System}
    → 0 < c.buffer_length
    → Reach c file s
    → (taken : List Line) × (q : List Line) × (taken
          ++ (q ++ numbered s.mem.line_number s.mem.source)
        ≡ numbered 0 file)
      × (found_lines s.mem.output ≡ matching c taken)
      × Holds c.buffer_length s.mem.buffer s.mem.consumer_pos q
      × (length q ≡ s.mem.number_of_elements)
      × (s.mem.number_of_elements ≤ c.buffer_length)
Reach-history room r =
    let v = Reach-SysInv room r in
    (
      v.taken,
      v.queue,
      v.lines.history,
      v.lines.shown,
      v.lines.held,
      sym v.lines.count,
      omega (arith, v.lines.count, v.lines.room),
    )

-- In every reachable state a call of `removeFromBuffer` reads no null or freed text and stays
-- inside the buffer.
pub Reach-remove_from_buffer :
    {c : Conf} {file : List (List ℕ)} {s : System}
    → 0 < c.buffer_length
    → Reach c file s
    → (r : Result) × (remove_from_buffer c s.mem ≡ some r)
Reach-remove_from_buffer room r =
    let (res, _, _, e, _) = remove_from_buffer-Inv (Reach-SysInv room r).lines in (res, e)

-- Once any consumer has returned, the lines found are exactly the matching lines of the whole
-- file, each once and in the order of the file.
pub returned-found :
    {c : Conf} {file : List (List ℕ)} {s : System}
    → 0 < c.buffer_length
    → Reach c file s
    → (i : ℕ) → i < c.number_of_consumers
    → s.pc i ≡ returned
    → found_lines s.mem.output ≡ matching c (numbered 0 file)
returned-found {c} {file} {s} room r i lt e =
    let v = Reach-SysInv room r in
    let place : Placed c s.mem i returned = subst (Placed c s.mem i) e (v.placed i) in
    v.lines.shown ∙ ap (matching c) (all_taken v.lines (v.lines.ended place.0) (place.1 lt))

-- Where one of the first consumer and the first producer waits or has returned.
module _ (c : Conf) (m : Shared) (room : 0 < c.buffer_length) where
  no_waits :
      (i : ℕ) (p : Pc)
      → m.end_of_file ≡ true
      → m.number_of_elements ≡ 0
      → Placed c m i p
      → (p ≡ running) ⊎ (p ≡ returned)
  no_waits i running eof none_left h = inl refl
  no_waits i on_empty eof none_left h = cc
  no_waits i on_full eof none_left h = absurd (omega arith)
  no_waits i returned eof none_left h = inr refl

  producer_runs :
      (p : Pc)
      → m.end_of_file ≡ false
      → m.number_of_elements ≡ 0
      → Placed c m c.number_of_consumers p
      → p ≡ running
  producer_runs running eof none_left h = refl
  producer_runs on_empty eof none_left h = absurd (omega arith)
  producer_runs on_full eof none_left h = absurd (omega arith)
  producer_runs returned eof none_left h = cc

  consumer_waits :
      (pc : ℕ → Pc) (p : Pc)
      → 0 < c.number_of_consumers
      → ((i : ℕ) → Placed c m i (pc i))
      → pc 0 ≡ p
      → Placed c m 0 p
      → (pc 0 ≡ running)
        ⊎ (pc c.number_of_consumers ≡ running)
        ⊎ ((i : ℕ) → (pc i ≡ running) ⊎ (pc i ≡ returned))
  consumer_waits pc running some_consumer placed e h = inl e
  consumer_waits pc on_empty some_consumer placed e h =
      inr (inl (producer_runs _ h.1 h.0 (placed c.number_of_consumers)))
  consumer_waits pc on_full some_consumer placed e h = absurd (omega arith)
  consumer_waits pc returned some_consumer placed e h =
      inr (inr (λ i. no_waits i (pc i) h.0 (h.1 some_consumer) (placed i)))

-- No deadlock: with a consumer, a producer and a slot, either the first consumer or the first
-- producer can make its next call, or no thread waits any more.
pub no_deadlock :
    {c : Conf} {file : List (List ℕ)} {s : System}
    → 0 < c.buffer_length
    → 0 < c.number_of_consumers
    → 0 < c.number_of_producers
    → Reach c file s
    → (s.pc 0 ≡ running)
      ⊎ (s.pc c.number_of_consumers ≡ running)
      ⊎ ((i : ℕ) → (s.pc i ≡ running) ⊎ (s.pc i ≡ returned))
no_deadlock {c} {s = s} room some_consumer _ r =
    let v = Reach-SysInv room r in
    consumer_waits c s.mem room s.pc (s.pc 0) some_consumer v.placed refl (v.placed 0)
