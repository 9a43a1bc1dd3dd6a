-- ===== src/Pipeline/Filters.antt =====
-- Pipelines of programs that read their input to its end: whether they can end. A program at the start of
-- the pipeline reads something else, and the end of a pipe comes when no process can write to it.
use semestr.Prelude.{
  ℕ, zero, suc, ◌+◌, ◌-◌, ◌<◌, ◌≤◌, ◌≡◌, refl, ◌≢◌, ℕ_discrete, arith, Bool, true, false, not, ◌&&◌,
  ◌||◌, Option, none, some, List, [], ◌∷◌, ltb, ◌==◌, if◌then◌else◌, Bool-cases, Option-cases, inl,
  inr, ◌>>=◌,
}
use semestr.Pipeline.{parent_fds, child_fds, holds_write}
use semestr.Pipeline.Descriptors.{child_fds-holds_write}

-- The parent, and which of its children have not ended.
pub record Processes : Type 0 where
  pub parent : Bool
  pub children : ℕ → Bool

-- All children are started.
abbrev pub started : Processes
started = record { parent = true; children = λ i. true }

-- Whether one of the first `m` children of `n` can write to pipe `j`.
unfoldable pub child_holds : ℕ → ℕ → ℕ → (ℕ → Bool) → Bool
unfolding holds_write child_fds
child_holds zero n j running = false
child_holds (suc m) n j running =
    (running m && holds_write (child_fds n m) j) || child_holds m n j running

unfoldable pub at_end : ℕ → ℕ → Processes → Bool
unfolding child_holds
at_end n j s = not (s.parent && holds_write (parent_fds n) j || child_holds n n j s.children)

pub data Ends : Type 0 where
  parent_ends : Ends
  child_ends : ℕ → Ends

unfoldable pub step : ℕ → Ends → Processes → Option Processes
unfolding at_end
step n parent_ends s = some (record s { parent = false })
step n (child_ends i) s =
    if ltb i n && (i == 0 || at_end n (i - 1) s)
    then some (record s { children = λ j. if j == i then false else s.children j })
    else none

unfoldable pub run : ℕ → List Ends → Processes → Option Processes
unfolding step
run n [] s = some s
run n (e ∷ es) s = do t ← step n e s; run n es t

child_holds_some :
    (m n j i : ℕ) (running : ℕ → Bool)
    → i < m
    → running i ≡ true
    → holds_write (child_fds n i) j ≡ true
    → child_holds m n j running ≡ true
unfolding child_holds
child_holds_some zero n j i running h r e = absurd (omega arith)
child_holds_some (suc m) n j i running h r e = elim (ℕ_discrete i m) [
  | yes same ↦ rw (← same, r, e) refl
  | no other ↦ rw (child_holds_some m n j i running (omega arith) r e) (ground arith)
]

-- While a child runs that can write to a pipe, its reader does not see the end.
at_end_never :
    (n j i : ℕ) (s : Processes)
    → i < n
    → j + 1 < n
    → j + 1 ≢ i
    → s.children i ≡ true
    → at_end n j s ≡ false
unfolding at_end
at_end_never n j i s h k ne r =
    let holds : holds_write (child_fds n i) j ≡ true =
      rw ((child_fds-holds_write n i j h k).1) (ground arith) in
    rw (child_holds_some n n j i s.children h r holds) (ground arith)

reader :
    (j i n : ℕ) (s : Processes)
    → i ≡ j + 1
    → at_end n j s ≡ false
    → (ltb i n && (i == 0 || at_end n (i - 1) s)) ≡ true
    → ⊥
reader j i n s e f g =
    let before : i - 1 ≡ j = omega arith in
    let same : at_end n (i - 1) s ≡ false = rw (before, f) refl in ground arith

step-deadlock :
    (n : ℕ) (e : Ends) (s t : Processes)
    → 3 ≤ n
    → step n e s ≡ some t
    → (s.children 1 ≡ true) × (s.children 2 ≡ true)
    → (t.children 1 ≡ true) × (t.children 2 ≡ true)
unfolding step
step-deadlock n parent_ends s t h e p = (cc, cc)
step-deadlock n (child_ends i) s t h e p =
    let first = at_end_never n 0 2 s (omega arith) (omega arith) (omega arith) p.1 in
    let second = at_end_never n 1 1 s (omega arith) (omega arith) (omega arith) p.0 in
    elim (Bool-cases (ltb i n && (i == 0 || at_end n (i - 1) s))) [
      | inr waits ↦
          let none_left : step n (child_ends i) s ≡ none = rw (step, waits) refl in absurd cc
      | inl goes ↦
          let after : Processes = record s {
            children = λ j. if j == i then false else s.children j;
          } in
          let ends : step n (child_ends i) s ≡ some after = rw (step, goes) refl in
          let same : after ≡ t = cc in
          let not_one : i ≢ 1 = λ one. absurd (reader 0 i n s one first goes) in
          let not_two : i ≢ 2 = λ two. absurd (reader 1 i n s two second goes) in
          rw (← same) (ground arith, ground arith)
    ]

run-deadlock :
    (n : ℕ) (es : List Ends) (s t : Processes)
    → 3 ≤ n
    → run n es s ≡ some t
    → (s.children 1 ≡ true) × (s.children 2 ≡ true)
    → (t.children 1 ≡ true) × (t.children 2 ≡ true)
unfolding run
run-deadlock n [] s t h e p = let same : s ≡ t = cc in rw (← same) p
run-deadlock n (e ∷ es) s t h f p = elim (Option-cases (step n e s)) [
  | inl stuck ↦ let none_left : run n (e ∷ es) s ≡ none = rw (run, stuck) refl in absurd cc
  | inr (u, g) ↦
      let rest : run n es u ≡ some t = rw (← f, run, g) refl in
      run-deadlock n es u t h rest (step-deadlock n e s u h g p)
]

-- A line of three or more programs that read their input to its end never ends: whatever the other
-- processes do, the second and the third program wait for each other.
pub deadlock :
    (n : ℕ) (es : List Ends) (t : Processes)
    → 3 ≤ n
    → run n es started ≡ some t
    → (t.children 1 ≡ true) × (t.children 2 ≡ true)
deadlock n es t h e = run-deadlock n es started t h e (refl, refl)

-- A line of two such programs ends, when the parent and the first program do.
pub two_end :
    (t : Processes) × (run 2 (parent_ends ∷ child_ends 0 ∷ child_ends 1 ∷ []) started ≡ some t)
    × (t.children 0 ≡ false)
    × (t.children 1 ≡ false)
unfolding run
two_end = (
  record {
    parent = false;
    children = λ j. if j == 1 then false else if j == 0 then false else true;
  },
  refl,
  refl,
  refl,
)
