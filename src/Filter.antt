-- ===== src/Filter.antt =====
-- SysOpy/lab8/src/zad1/main.c, `calculate` and `doSomeWork`: threads that filter an image, each a
-- segment of its columns, and the loop that waits for them. Arrays are functions with the bounds of
-- their `calloc`s, and `none` is an access outside. A step of a thread computes a pixel of OUTPUT, or
-- sets the thread's flag. `double` is an argument, with the operations that the code uses; a
-- product that an `int` does not hold is `none` too.
pub mod Columns
pub mod Image
pub mod Main
pub mod Pixels
pub mod Threads
pub mod Waiting
mod Tests
use semestr.Prelude.{
  ℕ, zero, suc, ◌+◌, ◌-◌, ◌*◌, ◌/◌, Bool, true, false, ◌&&◌, ◌||◌, Option, none, some, List, [],
  ◌∷◌, ◌++◌, ltb, leb, ◌==◌, if◌then◌else◌, ◌>>=◌,
}
use semestr.Prelude.Int.{ℤ, pos, int_limit}

-- `0` as a double, `+`, an `int` times a `double`, and `round`.
pub record Doubles (D : Type 0) : Type 0 where
  pub zero_double : D
  pub add : D → D → D
  pub scale : ℤ → D → D
  pub round : D → ℤ

-- The globals WIDTH, HEIGHT, NUM_OF_THREADS, FILTER_SIZE, INPUT and FILTER.
pub record Globals (D : Type 0) : Type 0 where
  pub width : ℕ
  pub height : ℕ
  pub num_of_threads : ℕ
  pub filter_size : ℕ
  pub input : ℕ → ℕ → ℤ
  pub filter : ℕ → ℕ → D

-- `rows[i][j]`, of `h` rows of `w`.
abbrev pub at {ℓ} : {A : Type ℓ} → ℕ → ℕ → (ℕ → ℕ → A) → ℕ → ℕ → Option A
at h w rows i j = if ltb i h && ltb j w then some (rows i j) else none

-- `(1>=x-c+i)?1:(x-c+i)`: what is below 0 gives 1, as 0 does.
abbrev pub clamp : ℕ → ℕ → ℕ → ℕ
clamp c x i = if leb (x + i - c) 1 then 1 else x + i - c

-- `ceil(FILTER_SIZE*1.0/2)`
abbrev pub centre : ℕ → ℕ
centre size = (size + 1) / 2

module _ {D : Type 0} (d : Doubles D) (g : Globals D) where
  -- What one place of the filter adds to a pixel.
  unfoldable pub term : ℕ → ℕ → ℕ → ℕ → Option D
  term x y i j =
      let a = clamp (centre g.filter_size) x i - 1 in
      let b = clamp (centre g.filter_size) y j - 1 in
      if ltb a g.height && ltb b g.width
      then (do
        pixel ← at g.height g.width g.input a b
        weight ← at g.filter_size g.filter_size g.filter (i - 1) (j - 1)
        some (d.scale pixel weight))
      else some d.zero_double

  -- The loops over `j` and `i`, with the rounds that are left.
  unfoldable pub sum_row : ℕ → ℕ → ℕ → ℕ → ℕ → D → Option D
  unfolding term
  sum_row zero x y i j result = some result
  sum_row (suc n) x y i j result = do t ← term x y i j; sum_row n x y i (j + 1) (d.add result t)

  unfoldable pub sum_rows : ℕ → ℕ → ℕ → ℕ → D → Option D
  unfolding sum_row
  sum_rows zero x y i result = some result
  sum_rows (suc n) x y i result = do
    row ← sum_row g.filter_size x y i 1 result
    sum_rows n x y (i + 1) row

  -- The value of `OUTPUT[x-1][y-1]`.
  unfoldable pub pixel_of : ℕ → ℕ → Option ℤ
  unfolding sum_rows
  pixel_of x y = do result ← sum_rows g.filter_size x y 1 d.zero_double; some (d.round result)

-- The pairs of `x` and `y` that the loop over `y` goes through, with the rounds that are left.
unfoldable pub cells_of_row : ℕ → ℕ → ℕ → List (ℕ × ℕ)
cells_of_row zero x y = []
cells_of_row (suc n) x y = (x, y) ∷ cells_of_row n x (y + 1)

module _ {D : Type 0} (g : Globals D) where
  -- The first and the last column of a segment, counted from 1.
  unfoldable pub first_column : ℕ → ℕ
  first_column segment = segment * g.width / g.num_of_threads + 1

  unfoldable pub max_width : ℕ → ℕ
  max_width segment =
      if segment + 1 == g.num_of_threads
      then g.width
      else (segment + 1) * g.width / g.num_of_threads

  -- `segment*WIDTH`, and `(segment+1)*WIDTH` where it is computed, are in the range of an `int`.
  unfoldable pub products_fit : ℕ → Bool
  products_fit segment =
      ltb (segment * g.width) int_limit
      && (segment + 1 == g.num_of_threads || ltb ((segment + 1) * g.width) int_limit)

  -- The pairs that the two outer loops of `calculate` go through, in their order.
  unfoldable pub cells_of_rows : ℕ → ℕ → ℕ → List (ℕ × ℕ)
  unfolding cells_of_row first_column max_width
  cells_of_rows zero x segment = []
  cells_of_rows (suc n) x segment =
      cells_of_row (max_width segment + 1 - first_column segment) x (first_column segment)
      ++ cells_of_rows n (x + 1) segment

  unfoldable pub cells : ℕ → List (ℕ × ℕ)
  unfolding cells_of_rows
  cells segment = cells_of_rows g.height 1 segment

-- OUTPUT and FINISHED, with the pixels that each thread has still to compute.
pub record State : Type 0 where
  pub output : ℕ → ℕ → ℤ
  pub finished : ℕ → Bool
  pub left : ℕ → List (ℕ × ℕ)

abbrev pub update {ℓ} : {A : Type ℓ} → ℕ → A → (ℕ → A) → ℕ → A
update s a f t = if t == s then a else f t

abbrev pub set_cell {ℓ} : {A : Type ℓ} → ℕ → ℕ → A → (ℕ → ℕ → A) → ℕ → ℕ → A
set_cell x y v rows i j = if i == x && j == y then v else rows i j

module _ {D : Type 0} (d : Doubles D) (g : Globals D) where
  -- `doSomeWork` up to the wait: `calloc`, and `pthread_create` for every segment.
  unfoldable pub start : State
  unfolding cells
  start = record { output = λ x y. pos 0; finished = λ s. false; left = cells g }

  unfoldable pub write_pixel : ℕ → ℕ → ℕ → List (ℕ × ℕ) → State → Option State
  unfolding pixel_of
  write_pixel segment x y rest s = do
    v ← pixel_of d g x y
    let output = set_cell (x - 1) (y - 1) v s.output
    let t : State = record s { output = output; left = update segment rest s.left }
    if ltb (x - 1) g.height && ltb (y - 1) g.width then some t else none

  -- What the thread of a segment does next, where its bounds are defined.
  unfoldable pub step : ℕ → State → Option State
  unfolding write_pixel products_fit
  step segment s =
      let next : Option State = (elim (s.left segment) [
        | [] ↦ some (record s { finished = update segment true s.finished })
        | (x, y) ∷ rest ↦ write_pixel segment x y rest s
      ]) in
      if products_fit g segment then next else none

  -- The threads' steps, in the order in which they are taken.
  unfoldable pub run : List ℕ → State → Option State
  unfolding step
  run [] s = some s
  run (segment ∷ schedule) s = do t ← step segment s; run schedule t

-- The test of `doSomeWork`'s wait, over the flags of the first `n` threads.
unfoldable pub all_finished : ℕ → (ℕ → Bool) → Bool
all_finished zero finished = true
all_finished (suc n) finished = finished n && all_finished n finished
