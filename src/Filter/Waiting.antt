-- ===== src/Filter/Waiting.antt =====
-- The wait of `doSomeWork` ends.
use semestr.Prelude.{
  ℕ, zero, suc, ◌+◌, ◌-◌, ◌*◌, ◌≤◌, ◌<◌, ◌≡◌, refl, arith, none, some, Option-cases, List-cases,
  Bool, Bool-cases, true, inl, inr, List, [], ◌∷◌, length, ltb, ◌==◌, ◌&&◌, if◌then◌else◌,
}
use semestr.Prelude.Int.{int_limit}
use semestr.Filter.{
  products_fit, Doubles, Globals, State, start, write_pixel, step, run, all_finished, pixel_of,
  update, set_cell, cells,
}
use semestr.Filter.Threads.{AllThreads, run-filtered}
use semestr.Filter.Pixels.{pixel_of-total}

-- The steps of a thread in a schedule.
abbrev pub count : ℕ → List ℕ → ℕ
count s [] = 0
count s (r ∷ rs) = let more = count s rs in if s == r then suc more else more

-- The steps that a thread has left until its flag is set.
abbrev steps_left : ℕ → State → ℕ
steps_left s t = if t.finished s then 0 else suc (length (t.left s))

module _ {D : Type 0} (d : Doubles D) (g : Globals D) where
  step-steps_left :
      (r s : ℕ) (t u : State)
      → step d g r t ≡ some u
      → steps_left s u ≤ steps_left s t - (if s == r then 1 else 0)
  unfolding step write_pixel
  step-steps_left r s t u e = elim (Bool-cases (products_fit g r)) [
    | inr overflow ↦ let faults : step d g r t ≡ none = rw (step, overflow) refl in absurd cc
    | inl fit ↦ elim (List-cases (t.left r)) [
      | inl over ↦
          let idle : step d g r t ≡ some (record t { finished = update r true t.finished }) =
            rw (step, over, fit) refl in
          let same : record t { finished = update r true t.finished } ≡ u = cc in
          rw (← same) (ground (arith, over))
      | inr ((x, y), rest, f) ↦
          let (v, h) = pixel_of-total d g x y in
          let after : State = record t {
            output = set_cell (x - 1) (y - 1) v t.output;
            left = update r rest t.left;
          } in
          elim (Bool-cases (ltb (x - 1) g.height && ltb (y - 1) g.width)) [
            | inl inside ↦
                let writes : step d g r t ≡ some after = rw (step, f, h, inside, fit) refl in
                let same : after ≡ u = cc in rw (← same) (ground (arith, f))
            | inr outside ↦
                let faults : step d g r t ≡ none = rw (step, f, h, outside, fit) refl in absurd cc
          ]
    ]
  ]

  run-steps_left :
      (ss : List ℕ) (s : ℕ) (t u : State)
      → run d g ss t ≡ some u
      → steps_left s u ≤ steps_left s t - count s ss
  unfolding run
  run-steps_left [] s t u e = let same : t ≡ u = cc in rw same (omega arith)
  run-steps_left (r ∷ ss) s t u e = elim (Option-cases (step d g r t)) [
    | inl fault ↦ absurd (stuck fault)
    | inr (w, f) ↦
        let rest : run d g ss w ≡ some u = rw (← e, run, f) refl in
        ground (arith, run-steps_left ss s w u rest, step-steps_left r s t w f)
  ]
    where
      stuck : step d g r t ≡ none → ⊥
      stuck fault = let dead : run d g (r ∷ ss) t ≡ none = rw (run, fault) refl in cc

  all_finished_each :
      (n : ℕ) (finished : ℕ → Bool)
      → ((s : ℕ) → s < n → finished s ≡ true)
      → all_finished n finished ≡ true
  unfolding all_finished
  all_finished_each zero finished h = refl
  all_finished_each (suc n) finished h =
      rw (h n (omega arith), all_finished_each n finished (λ s below. h s (omega arith))) refl

  -- The wait ends after every order of steps in which each thread takes one step more than it has
  -- pixels, if the number of threads is not 0 and its product with the width in the range of an
  -- `int`; then OUTPUT holds the value of every pixel.
  pub run-finishes :
      (ss : List ℕ)
      → 0 < g.num_of_threads
      → g.num_of_threads * g.width < int_limit
      → AllThreads g.num_of_threads ss
      → ((s : ℕ) → s < g.num_of_threads → length (cells g s) < count s ss)
      → (t : State) × (run d g ss (start d g) ≡ some t)
        × (all_finished g.num_of_threads t.finished ≡ true)
        × ((i j : ℕ)
            → i < g.height
            → j < g.width
            → pixel_of d g (i + 1) (j + 1) ≡ some (t.output i j))
  unfolding start
  run-finishes ss h fits all enough =
      let (t, e, filtered) = run-filtered d g ss h fits all in
      let done =
        all_finished_each g.num_of_threads t.finished
          (λ s below. ground (arith, enough s below, run-steps_left ss s (start d g) t e)) in
      (t, e, done, filtered done)
