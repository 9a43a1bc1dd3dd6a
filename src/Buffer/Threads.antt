-- ===== src/Buffer/Threads.antt =====
-- The threads of SysOpy/lab9/src/zad1/main.c: `main` starts the consumers, then the producers, and
-- each runs `consumerLogic` or `producerLogic`. The mutex orders the calls, in any order.
use semestr.Prelude.{
  ℕ, ◌+◌, ◌≤◌, ◌<◌, ◌≡◌, inl, inr, true, false, some, List, [], arith, if◌then◌else◌, ◌==◌,
  Bool-cases, subst,
}
use semestr.Buffer.{
  Conf, Shared, Result, Outcome, returns_zero, returns_minus_one, waits_empty, waits_full, start,
  add_to_buffer, remove_from_buffer,
}

-- Where a thread stands: before its next call, in `pthread_cond_wait`, or returned.
pub data Pc : Type 0 where
  running on_empty on_full returned : Pc

pub record System : Type 0 where
  pub mem : Shared
  pub pc : ℕ → Pc

-- What the loop of `producerLogic` or `consumerLogic` does with the result of the call.
abbrev pub next_pc : Conf → Outcome → Pc
next_pc c returns_zero = running
next_pc c returns_minus_one = if c.timeout == 0 then returned else running
next_pc c waits_empty = on_empty
next_pc c waits_full = on_full

-- `pthread_cond_broadcast`
abbrev pub woken : Result → Pc → Pc
woken r running = running
woken r returned = returned
woken r on_empty = if r.broadcasts_empty then running else on_empty
woken r on_full = if r.broadcasts_full then running else on_full

abbrev pub roused : Pc → Pc
roused returned = returned
roused _ = running

-- Thread `i` has made a call with this result.
abbrev pub settle : Conf → (ℕ → Pc) → ℕ → Result → System
settle c pc i r = record {
  mem = r.mem;
  pc = λ j. if i == j then next_pc c r.outcome else woken r (pc j);
}

pub data Step (c : Conf) (s : System) : System → Type 0 where
  consume :
      (i : ℕ) (r : Result)
      → i < c.number_of_consumers
      → s.pc i ≡ running
      → remove_from_buffer c s.mem ≡ some r
      → Step c s (settle c s.pc i r)
  produce :
      (i : ℕ)
      → c.number_of_consumers ≤ i
      → i < c.number_of_consumers + c.number_of_producers
      → s.pc i ≡ running
      → Step c s (settle c s.pc i (add_to_buffer c s.mem))
  -- A wait may end without a broadcast.
  wake : (i : ℕ) → Step c s (record s { pc = λ j. if i == j then roused (s.pc i) else s.pc j })

abbrev pub init : Conf → List (List ℕ) → System
init c file = record { mem = start c file; pc = λ _. running }

pub data Reach (c : Conf) (file : List (List ℕ)) : System → Type 0 where
  begin : Reach c file (init c file)
  next : {s t : System} → Reach c file s → Step c s t → Reach c file t

-- What a thread's place says about the globals.
abbrev pub Placed : Conf → Shared → ℕ → Pc → Type 0
Placed c m i running = Unit {0}
Placed c m i on_empty =
    (m.number_of_elements ≡ 0) × (m.end_of_file ≡ false) × (i < c.number_of_consumers)
Placed c m i on_full = (m.number_of_elements ≡ c.buffer_length) × (c.number_of_consumers ≤ i)
Placed c m i returned =
    (m.end_of_file ≡ true) × (i < c.number_of_consumers → m.number_of_elements ≡ 0)

-- What a call by another thread leaves of a thread's place, and what a call says of its own.
module _ (c : Conf) (m : Shared) (room : 0 < c.buffer_length)
    (ended : m.end_of_file ≡ true → m.source ≡ []) where
  pub add_to_buffer-Placed :
      (j : ℕ) (p : Pc)
      → Placed c m j p
      → Placed c (add_to_buffer c m).mem j (woken (add_to_buffer c m) p)
  unfolding add_to_buffer
  add_to_buffer-Placed j running h = tt
  add_to_buffer-Placed j on_empty h = ground arith
  add_to_buffer-Placed j on_full h = ground arith
  add_to_buffer-Placed j returned h = ground arith

  pub add_to_buffer-next :
      (i : ℕ)
      → c.number_of_consumers ≤ i
      → Placed c (add_to_buffer c m).mem i (next_pc c (add_to_buffer c m).outcome)
  unfolding add_to_buffer
  add_to_buffer-next i h = ground arith

  pub remove_from_buffer-Placed :
      (r : Result)
      → remove_from_buffer c m ≡ some r
      → (j : ℕ) (p : Pc) → Placed c m j p
      → Placed c r.mem j (woken r p)
  unfolding remove_from_buffer
  remove_from_buffer-Placed r e j running h = tt
  remove_from_buffer-Placed r e j on_empty h = ground arith
  remove_from_buffer-Placed r e j on_full h = ground arith
  remove_from_buffer-Placed r e j returned h = ground arith

  pub remove_from_buffer-next :
      (r : Result)
      → remove_from_buffer c m ≡ some r
      → (i : ℕ) → i < c.number_of_consumers
      → Placed c r.mem i (next_pc c r.outcome)
  unfolding remove_from_buffer
  remove_from_buffer-next r e i h = ground arith

-- The same for all threads at once, after thread `i` made a call or woke up.
module _ (c : Conf) (m : Shared) (pc : ℕ → Pc) (i : ℕ) where
  pub settle-Placed :
      (r : Result)
      → ((j : ℕ) → Placed c r.mem j (woken r (pc j)))
      → Placed c r.mem i (next_pc c r.outcome)
      → (j : ℕ) → Placed c r.mem j ((settle c pc i r).pc j)
  settle-Placed r others own j = elim (Bool-cases (i == j)) [
    | inl e ↦
        let same : i ≡ j = ground arith in
        rw e (subst (λ k. Placed c r.mem k (next_pc c r.outcome)) same own)
    | inr e ↦ rw e (others j)
  ]

  roused-Placed : (p : Pc) → Placed c m i p → Placed c m i (roused p)
  roused-Placed running h = tt
  roused-Placed on_empty h = tt
  roused-Placed on_full h = tt
  roused-Placed returned h = h

  pub wake-Placed :
      ((j : ℕ) → Placed c m j (pc j))
      → (j : ℕ) → Placed c m j (if i == j then roused (pc i) else pc j)
  wake-Placed placed j = elim (Bool-cases (i == j)) [
    | inl e ↦
        let same : i ≡ j = ground arith in
        rw e (subst (λ k. Placed c m k (roused (pc i))) same (roused-Placed (pc i) (placed i)))
    | inr e ↦ rw e (placed j)
  ]
