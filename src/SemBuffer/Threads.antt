-- ===== src/SemBuffer/Threads.antt =====
-- The threads of SysOpy/lab9/src/zad2/main.c, with the values of `emptySem` and `fullSem`.
use semestr.Prelude.{
  ℕ, ◌+◌, ◌-◌, ◌≤◌, ◌<◌, ◌≡◌, inl, inr, Bool, true, some, List, [], arith, if◌then◌else◌, ◌==◌,
  Bool-cases, subst,
}
use semestr.Buffer.{
  Conf, Shared, Outcome, returns_zero, returns_minus_one, waits_empty, waits_full, start,
}
use semestr.SemBuffer.{Result, add_to_buffer, remove_from_buffer}

-- Where a thread stands: before its next call, before `sem_wait` or between it and `sem_post`, or
-- returned.
pub data Pc : Type 0 where
  running on_empty on_full past_empty past_full returned : Pc

pub record System : Type 0 where
  pub mem : Shared
  pub empty_sem : ℕ
  pub full_sem : ℕ
  pub pc : ℕ → Pc

-- What the loop of `producerLogic` or `consumerLogic` does with the result of the call.
abbrev pub next_pc : Conf → Outcome → Pc
next_pc c returns_zero = running
next_pc c returns_minus_one = if c.timeout == 0 then returned else running
next_pc c waits_empty = on_empty
next_pc c waits_full = on_full

abbrev pub move : (ℕ → Pc) → ℕ → Pc → ℕ → Pc
move pc i p j = if i == j then p else pc j

-- A semaphore after a call.
abbrev pub posted : Bool → ℕ → ℕ
posted b n = if b then n + 1 else n

-- Thread `i` has made a call with this result.
abbrev pub settle : Conf → System → ℕ → Result → System
settle c s i r = record {
  mem = r.mem;
  empty_sem = posted r.posts_empty s.empty_sem;
  full_sem = posted r.posts_full s.full_sem;
  pc = move s.pc i (next_pc c r.outcome);
}

pub data Step (c : Conf) (s : System) : System → Type 0 where
  consume :
      (i : ℕ) (r : Result)
      → i < c.number_of_consumers
      → s.pc i ≡ running
      → remove_from_buffer c s.mem ≡ some r
      → Step c s (settle c s i r)
  produce :
      (i : ℕ)
      → c.number_of_consumers ≤ i
      → i < c.number_of_consumers + c.number_of_producers
      → s.pc i ≡ running
      → Step c s (settle c s i (add_to_buffer c s.mem))
  pass_empty :
      (i : ℕ)
      → s.pc i ≡ on_empty
      → 0 < s.empty_sem
      → Step c s (record s { empty_sem = s.empty_sem - 1; pc = move s.pc i past_empty })
  pass_full :
      (i : ℕ)
      → s.pc i ≡ on_full
      → 0 < s.full_sem
      → Step c s (record s { full_sem = s.full_sem - 1; pc = move s.pc i past_full })
  give_empty :
      (i : ℕ)
      → s.pc i ≡ past_empty
      → Step c s (record s { empty_sem = s.empty_sem + 1; pc = move s.pc i running })
  give_full :
      (i : ℕ)
      → s.pc i ≡ past_full
      → Step c s (record s { full_sem = s.full_sem + 1; pc = move s.pc i running })

-- `main`: the values that `sem_init` gives, and the threads.
abbrev pub init : Conf → List (List ℕ) → System
init c file = record { mem = start c file; empty_sem = 0; full_sem = 1; pc = λ _. running }

pub data Reach (c : Conf) (file : List (List ℕ)) : System → Type 0 where
  begin : Reach c file (init c file)
  next : {s t : System} → Reach c file s → Step c s t → Reach c file t

-- What a thread's place says.
abbrev pub Placed : Conf → Shared → ℕ → Pc → Type 0
Placed c m i on_empty = i < c.number_of_consumers
Placed c m i returned =
    (m.end_of_file ≡ true) × (i < c.number_of_consumers → m.number_of_elements ≡ 0)
Placed c m i _ = Unit {0}

module _ (c : Conf) (m : Shared) (ended : m.end_of_file ≡ true → m.source ≡ []) where
  pub add_to_buffer-Placed :
      (j : ℕ) (p : Pc) → Placed c m j p → Placed c (add_to_buffer c m).mem j p
  unfolding add_to_buffer
  add_to_buffer-Placed j running h = tt
  add_to_buffer-Placed j on_full h = tt
  add_to_buffer-Placed j past_empty h = tt
  add_to_buffer-Placed j past_full h = tt
  add_to_buffer-Placed j on_empty h = h
  add_to_buffer-Placed j returned h = ground arith

  pub add_to_buffer-next :
      (i : ℕ)
      → c.number_of_consumers ≤ i
      → Placed c (add_to_buffer c m).mem i (next_pc c (add_to_buffer c m).outcome)
  unfolding add_to_buffer
  add_to_buffer-next i h = ground arith

  pub remove_from_buffer-Placed :
      (r : Result)
      → remove_from_buffer c m ≡ some r
      → (j : ℕ) (p : Pc) → Placed c m j p
      → Placed c r.mem j p
  unfolding remove_from_buffer
  remove_from_buffer-Placed r e j running h = tt
  remove_from_buffer-Placed r e j on_full h = tt
  remove_from_buffer-Placed r e j past_empty h = tt
  remove_from_buffer-Placed r e j past_full h = tt
  remove_from_buffer-Placed r e j on_empty h = h
  remove_from_buffer-Placed r e j returned h = ground arith

  pub remove_from_buffer-next :
      (r : Result)
      → remove_from_buffer c m ≡ some r
      → (i : ℕ) → i < c.number_of_consumers
      → Placed c r.mem i (next_pc c r.outcome)
  unfolding remove_from_buffer
  remove_from_buffer-next r e i h = ground arith

-- All threads, after thread `i` went on to `p`.
pub move-Placed :
    (c : Conf) (m : Shared) (pc : ℕ → Pc) (i : ℕ) (p : Pc)
    → ((j : ℕ) → Placed c m j (pc j))
    → Placed c m i p
    → (j : ℕ) → Placed c m j (move pc i p j)
move-Placed c m pc i p others own j = elim (Bool-cases (i == j)) [
  | inl e ↦ let same : i ≡ j = ground arith in rw e (subst (λ k. Placed c m k p) same own)
  | inr e ↦ rw e (others j)
]
