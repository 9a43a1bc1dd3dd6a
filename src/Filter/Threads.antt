-- ===== src/Filter/Threads.antt =====
-- The threads of `doSomeWork` in any order of their steps, and what its wait relies on.
use semestr.Prelude.{
  ℕ, zero, suc, ◌+◌, ◌-◌, ◌*◌, ◌≤◌, ◌<◌, ◌≡◌, refl, arith, ap, List-cases, ℕ_discrete, ◌∙◌, some,
  Bool, Bool-cases, true, false, inl, inr, List, [], ◌∷◌, ltb, ◌==◌, ◌&&◌,
}
use semestr.Prelude.Int.{ℤ, int_limit}
use semestr.Filter.{
  Doubles, Globals, State, start, write_pixel, step, run, all_finished, pixel_of, update, set_cell,
  cells,
}
use semestr.Filter.Columns.{
  has_cell, has_cell-cells, owner, max_width_le, first_column-pos, products_fit_lem,
}
use semestr.Filter.Pixels.{pixel_of-total}

-- All threads of a schedule are threads of the program.
abbrev pub AllThreads : ℕ → List ℕ → Type 0
AllThreads n [] = Unit {0}
AllThreads n (s ∷ ss) = (s < n) × AllThreads n ss

module _ {D : Type 0} (d : Doubles D) (g : Globals D) where
  -- What is left lies within OUTPUT; what was in a thread's segment and is not left has its value in
  -- OUTPUT; a thread whose flag is set has nothing left.
  pub record Inv (t : State) : Type 0 where
    pub inside :
        (s x y : ℕ)
        → s < g.num_of_threads
        → has_cell x y (t.left s) ≡ true
        → (1 ≤ x) × (x ≤ g.height) × (1 ≤ y) × (y ≤ g.width)
    pub written :
        (s x y : ℕ)
        → s < g.num_of_threads
        → has_cell x y (cells g s) ≡ true
        → has_cell x y (t.left s) ≡ false
        → pixel_of d g x y ≡ some (t.output (x - 1) (y - 1))
    pub flags : (s : ℕ) → t.finished s ≡ true → t.left s ≡ []

  start-Inv : Inv (start d g)
  unfolding start
  start-Inv = record {
    inside = λ s x y h e.
        ground (arith, has_cell-cells g s x y, max_width_le g s h, first_column-pos g s);
    written = λ s x y h e f. cc;
    flags = λ s e. cc;
  }

  -- A thread with nothing left sets its flag.
  finish-Inv :
      (s : ℕ) (t : State)
      → t.left s ≡ []
      → Inv t
      → Inv (record t { finished = update s true t.finished })
  finish-Inv s t e inv = record {
    inside = inv.inside;
    written = inv.written;
    flags = λ r f. elim (Bool-cases (r == s)) [
      | inl same ↦ ground (arith, e)
      | inr other ↦ inv.flags r (ground (arith, other, f))
    ];
  }

  written_step :
      (s x y : ℕ) (v : ℤ) (rest : List (ℕ × ℕ)) (t : State) (r a b : ℕ)
      → t.left s ≡ (x, y) ∷ rest
      → pixel_of d g x y ≡ some v
      → Inv t
      → s < g.num_of_threads
      → r < g.num_of_threads
      → has_cell a b (cells g r) ≡ true
      → has_cell a b (update s rest t.left r) ≡ false
      → pixel_of d g a b ≡ some (set_cell (x - 1) (y - 1) v t.output (a - 1) (b - 1))
  written_step s x y v rest t r a b e f inv p q own gone = elim (Bool-cases (a == x && b == y)) [
    | inl same ↦
        let row : a ≡ x = ground arith in
        let column : b ≡ y = ground arith in rw (row, column, f) (ground arith)
    | inr other ↦
        let still : has_cell a b (t.left r) ≡ false = (elim (Bool-cases (r == s)) [
          | inl mine ↦ ground (arith, e, gone, mine, other)
          | inr his ↦ ground (arith, gone, his)
        ]) in
        let first = inv.inside s x y p (rw e (ground arith)) in
        inv.written r a b q own still
        ∙ ap some (ground (arith, other, first, has_cell-cells g r a b, own, first_column-pos g r))
  ]

  write-Inv :
      (s x y : ℕ) (v : ℤ) (rest : List (ℕ × ℕ)) (t : State)
      → t.left s ≡ (x, y) ∷ rest
      → pixel_of d g x y ≡ some v
      → s < g.num_of_threads
      → Inv t
      → Inv (record t { output = set_cell (x - 1) (y - 1) v t.output; left = update s rest t.left })
  write-Inv s x y v rest t e f p inv = record {
    inside = λ r a b q h. elim (Bool-cases (r == s)) [
      | inl same ↦ inv.inside s a b p (ground (arith, e, h, same))
      | inr other ↦ inv.inside r a b q (ground (arith, h, other))
    ];
    written = λ r a b q own gone. written_step s x y v rest t r a b e f inv p q own gone;
    flags = λ r h. elim (Bool-cases (r == s)) [
      | inl same ↦ absurd (ground (arith, e, inv.flags r h, same))
      | inr other ↦ ground (arith, other, inv.flags r h)
    ];
  }

  step-Inv :
      (s : ℕ) (t : State)
      → s < g.num_of_threads
      → g.num_of_threads * g.width < int_limit
      → Inv t
      → (u : State) × (step d g s t ≡ some u) × Inv u
  unfolding step write_pixel
  step-Inv s t p fits inv =
      let fit = products_fit_lem g s p fits in
      elim (List-cases (t.left s)) [
        | inl over ↦ (
          record t { finished = update s true t.finished },
          rw (step, over, fit) refl,
          finish-Inv s t over inv,
        )
        | inr ((x, y), rest, e) ↦
            let (v, f) = pixel_of-total d g x y in
            let (a, b, c, h) = inv.inside s x y p (rw e (ground arith)) in
            let within : (ltb (x - 1) g.height && ltb (y - 1) g.width) ≡ true = ground arith in
            (
              record t {
                output = set_cell (x - 1) (y - 1) v t.output;
                left = update s rest t.left;
              },
              rw (step, e, f, within, fit) refl,
              write-Inv s x y v rest t e f p inv,
            )
      ]

  run-Inv :
      (ss : List ℕ) (t : State)
      → AllThreads g.num_of_threads ss
      → g.num_of_threads * g.width < int_limit
      → Inv t
      → (u : State) × (run d g ss t ≡ some u) × Inv u
  unfolding run
  run-Inv [] t all fits inv = (t, refl, inv)
  run-Inv (s ∷ ss) t all fits inv =
      let (u, e, next) = step-Inv s t all.0 fits inv in
      let (w, f, last) = run-Inv ss u all.1 fits next in (w, rw (run, e) f, last)

  all_finished-flag :
      (n s : ℕ) (finished : ℕ → Bool) → s < n → all_finished n finished ≡ true → finished s ≡ true
  unfolding all_finished
  all_finished-flag zero s finished h e = absurd (omega arith)
  all_finished-flag (suc n) s finished h e = elim (ℕ_discrete s n) [
    | yes same ↦ rw same (ground arith)
    | no other ↦ all_finished-flag n s finished (omega arith) (ground arith)
  ]

  complete :
      (t : State)
      → Inv t
      → 0 < g.num_of_threads
      → all_finished g.num_of_threads t.finished ≡ true
      → (i j : ℕ) → i < g.height
      → j < g.width
      → pixel_of d g (i + 1) (j + 1) ≡ some (t.output i j)
  complete t inv h done i j p q =
      let (s, below, first, last) = owner g (j + 1) h (omega arith) (omega arith) in
      let row : i + 1 - 1 ≡ i = omega arith in
      let column : j + 1 - 1 ≡ j = omega arith in
      let idle = inv.flags s (all_finished-flag g.num_of_threads s t.finished below done) in
      inv.written s (i + 1) (j + 1) below
        (rw (has_cell-cells g s (i + 1) (j + 1)) (ground (arith, first, last))) (rw idle refl)
      ∙ rw (row, column) refl

  -- Whatever the order of the threads' steps, no access is outside an array; and where the test of the
  -- wait in `doSomeWork` holds, every pixel of OUTPUT has the value that one loop over the whole image
  -- computes for it, for any number of threads but 0
  -- whose product with the width is in the range of an `int`.
  pub run-filtered :
      (ss : List ℕ)
      → 0 < g.num_of_threads
      → g.num_of_threads * g.width < int_limit
      → AllThreads g.num_of_threads ss
      → (t : State) × (run d g ss (start d g) ≡ some t)
        × (all_finished g.num_of_threads t.finished ≡ true
            → (i j : ℕ) → i < g.height
            → j < g.width
            → pixel_of d g (i + 1) (j + 1) ≡ some (t.output i j))
  run-filtered ss h fits all =
      let (t, e, inv) = run-Inv ss (start d g) all fits start-Inv in
      (t, e, λ done i j p q. complete t inv h done i j p q)
