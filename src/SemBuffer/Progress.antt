-- ===== src/SemBuffer/Progress.antt =====
-- What the threads of SysOpy/lab9/src/zad2/main.c find, and that they go on.
use semestr.Prelude.{
  ℕ, ◌+◌, ◌<◌, ◌≡◌, ◌≢◌, refl, ◌∙◌, ap, subst, inl, inr, false, List, arith, Bool-cases, ltb,
}
use semestr.Buffer.{Conf}
use semestr.Buffer.History.{numbered, matching, found_lines}
use semestr.Buffer.Progress.{all_taken}
use semestr.SemBuffer.Threads.{
  Pc, running, on_empty, on_full, past_empty, past_full, returned, System, Step, consume, produce,
  pass_empty, pass_full, give_empty, give_full, Reach, Placed,
}
use semestr.SemBuffer.Invariant.{SysInv, Reach-SysInv, remove_from_buffer-total}

-- Once any consumer has returned, the lines found are exactly the matching lines of the whole
-- file, each once and in the order of the file.
pub finished-found :
    {c : Conf} {file : List (List ℕ)} {s : System}
    → 0 < c.buffer_length
    → Reach c file s
    → (i : ℕ) → i < c.number_of_consumers
    → s.pc i ≡ returned
    → found_lines s.mem.output ≡ matching c (numbered 0 file)
finished-found {c} {file} {s} room r i lt e =
    let v = Reach-SysInv room r in
    let place : Placed c s.mem i returned = subst (Placed c s.mem i) e (v.placed i) in
    v.lines.shown ∙ ap (matching c) (all_taken v.lines (v.lines.ended place.0) (place.1 lt))

-- A step that some thread can make.
abbrev pub CanStep : Conf → System → Type 0
CanStep c s = (t : System) × Step c s t

module _ {c : Conf} {file : List (List ℕ)} (s : System) (v : SysInv c file s)
    (some_producer : 0 < c.number_of_producers) where
  full_passes : (i : ℕ) → s.pc i ≡ on_full → CanStep c s
  full_passes i e = elim (Bool-cases (ltb 0 s.full_sem)) [
    | inl up ↦ (_, pass_full i e (ground arith))
    | inr down ↦ let (j, f) = v.full_open (ground arith) in (_, give_full j f)
  ]

  -- With an empty buffer the first producer goes on.
  producer_steps :
      (p : Pc)
      → s.mem.end_of_file ≡ false
      → s.pc c.number_of_consumers ≡ p
      → Placed c s.mem c.number_of_consumers p
      → CanStep c s
  producer_steps running more e h = (_, produce c.number_of_consumers (omega arith) (omega arith) e)
  producer_steps on_empty more e h = absurd (omega arith)
  producer_steps on_full more e h = full_passes c.number_of_consumers e
  producer_steps past_empty more e h = (_, give_empty c.number_of_consumers e)
  producer_steps past_full more e h = (_, give_full c.number_of_consumers e)
  producer_steps returned more e h = cc

  thread_steps :
      (i : ℕ) (p : Pc)
      → i < c.number_of_consumers + c.number_of_producers
      → s.pc i ≡ p
      → p ≢ returned
      → CanStep c s
  thread_steps i running lt e ne = elim (Bool-cases (ltb i c.number_of_consumers)) [
    | inl consumer ↦
        let (r, call) = remove_from_buffer-total v.lines in (_, consume i r (ground arith) e call)
    | inr producer ↦ (_, produce i (ground arith) lt e)
  ]
  thread_steps i on_empty lt e ne = elim (Bool-cases (ltb 0 s.empty_sem)) [
    | inl up ↦ (_, pass_empty i e (ground arith))
    | inr down ↦ elim (v.empty_open (ground arith)) [
      | inl (j, f) ↦ (_, give_empty j f)
      | inr (_, more) ↦
          producer_steps (s.pc c.number_of_consumers) more refl (v.placed c.number_of_consumers)
    ]
  ]
  thread_steps i on_full lt e ne = full_passes i e
  thread_steps i past_empty lt e ne = (_, give_empty i e)
  thread_steps i past_full lt e ne = (_, give_full i e)
  thread_steps i returned lt e ne = absurd (ne refl)

-- No deadlock: with a producer and a slot, as long as one of the threads has not returned, some
-- thread can make a step, also where threads wait for `emptySem` or `fullSem`.
pub never_stuck :
    {c : Conf} {file : List (List ℕ)} {s : System}
    → 0 < c.buffer_length
    → 0 < c.number_of_producers
    → Reach c file s
    → (i : ℕ) → i < c.number_of_consumers + c.number_of_producers
    → s.pc i ≢ returned
    → (t : System) × Step c s t
never_stuck {s = s} room some_producer r i lt ne =
    thread_steps s (Reach-SysInv room r) some_producer i (s.pc i) lt refl ne
