-- ===== src/Filter/Columns.antt =====
-- The segments of columns that the threads of `calculate` take.
use semestr.Prelude.{
  ℕ, zero, suc, ◌+◌, ◌-◌, ◌*◌, ◌/◌, ◌≤◌, ◌<◌, ◌≡◌, refl, arith, Bool, true, false, ◌&&◌, ◌||◌, List,
  [], ◌∷◌, ◌++◌, ltb, leb, ◌==◌, dec_lt, ℕ_discrete, subst, ap,
}
use semestr.Prelude.Int.{int_limit}
use native.Mathlib.Nat.{
  le-div_iff_mul-le, div-mul-le_self, mul-le-mul_right, mul-div_right, zero-div,
}
use semestr.Filter.{
  Globals, first_column, max_width, products_fit, cells_of_row, cells_of_rows, cells,
}

-- The columns before a segment.
abbrev bound : ℕ → ℕ → ℕ → ℕ
bound w n s = s * w / n

bound_mono : (w n s t : ℕ) → 0 < n → s ≤ t → bound w n s ≤ bound w n t
bound_mono w n s t h le =
    (le-div_iff_mul-le {k = n} {x = bound w n s} {y = t * w} h).1
      (omega (arith, div-mul-le_self (s * w) n, mul-le-mul_right w le))

bound_all : (w n : ℕ) → 0 < n → bound w n n ≡ w
bound_all w n h = mul-div_right w h

-- The segment below `n` that a column is in.
owner_below :
    (w k n y : ℕ)
    → 0 < y
    → y ≤ bound w k n
    → (s : ℕ) × (s < n) × (bound w k s < y) × (y ≤ bound w k (s + 1))
owner_below w k zero y h le = absurd (omega (arith, zero-div k))
owner_below w k (suc n) y h le = elim (dec_lt (bound w k n) y) [
  | yes above ↦ (n, omega arith, above, subst (λ m. y ≤ bound w k m) (omega arith) le)
  | no below ↦ let (s, p, q, r) = owner_below w k n y h (omega arith) in (s, omega arith, q, r)
]

module _ {D : Type 0} (g : Globals D) where
  pub max_width-bound :
      (s : ℕ) → s < g.num_of_threads → max_width g s ≡ bound g.width g.num_of_threads (s + 1)
  unfolding max_width
  max_width-bound s h = elim (ℕ_discrete (s + 1) g.num_of_threads) [
    | yes e ↦ ground (
      arith,
      ap (λ k. bound g.width g.num_of_threads k) e,
      bound_all g.width g.num_of_threads (omega arith),
    )
    | no ne ↦ ground arith
  ]

  -- The products of every segment are at most that of all threads.
  pub products_fit_lem :
      (s : ℕ)
      → s < g.num_of_threads
      → g.num_of_threads * g.width < int_limit
      → products_fit g s ≡ true
  unfolding products_fit
  products_fit_lem s h fits =
      let first : s * g.width ≤ g.num_of_threads * g.width =
        mul-le-mul_right g.width (omega arith) in
      let last : (s + 1) * g.width ≤ g.num_of_threads * g.width =
        mul-le-mul_right g.width (omega arith) in
      let here : ltb (s * g.width) int_limit ≡ true = ground arith in
      let next : ltb ((s + 1) * g.width) int_limit ≡ true = ground arith in
      ground (arith, here, next)

  pub first_column-bound : (s : ℕ) → first_column g s ≡ bound g.width g.num_of_threads s + 1
  unfolding first_column
  first_column-bound s = refl

  -- Every column of the image is in the segment of some thread.
  pub owner :
      (y : ℕ)
      → 0 < g.num_of_threads
      → 0 < y
      → y ≤ g.width
      → (s : ℕ) × (s < g.num_of_threads) × (first_column g s ≤ y) × (y ≤ max_width g s)
  owner y h p le =
      let (s, q, a, b) =
        owner_below g.width g.num_of_threads g.num_of_threads y p
          (omega (arith, bound_all g.width g.num_of_threads h)) in
      (s, q, omega (arith, first_column-bound s), omega (arith, max_width-bound s q))

  -- A segment ends within the image, and before the next ones begin.
  pub max_width_le : (s : ℕ) → s < g.num_of_threads → max_width g s ≤ g.width
  max_width_le s h = omega (
    arith,
    max_width-bound s h,
    bound_mono g.width g.num_of_threads (s + 1) g.num_of_threads (omega arith) (omega arith),
    bound_all g.width g.num_of_threads (omega arith),
  )

  pub segments_apart : (s t : ℕ) → s < t → t < g.num_of_threads → max_width g s < first_column g t
  segments_apart s t h k = omega (
    arith,
    max_width-bound s (omega arith),
    first_column-bound t,
    bound_mono g.width g.num_of_threads (s + 1) t (omega arith) (omega arith),
  )
  -- Whether a pixel is in a list.

abbrev pub has_cell : ℕ → ℕ → List (ℕ × ℕ) → Bool
has_cell x y [] = false
has_cell x y ((a, b) ∷ cs) = (x == a && y == b) || has_cell x y cs

has_cell-append :
    (x y : ℕ) (ps qs : List (ℕ × ℕ))
    → has_cell x y (ps ++ qs) ≡ (has_cell x y ps || has_cell x y qs)
has_cell-append x y [] qs = refl
has_cell-append x y ((a, b) ∷ ps) qs = ground (arith, has_cell-append x y ps qs)

has_cell-row :
    (n a b x y : ℕ) → has_cell x y (cells_of_row n a b) ≡ (x == a && (leb b y && ltb y (b + n)))
unfolding cells_of_row
has_cell-row zero a b x y = ground arith
has_cell-row (suc n) a b x y = ground (arith, has_cell-row n a (b + 1) x y)

module _ {D : Type 0} (g : Globals D) where
  has_cell-rows :
      (n a s x y : ℕ)
      → has_cell x y (cells_of_rows g n a s)
        ≡ ((leb a x && ltb x (a + n)) && (leb (first_column g s) y && leb y (max_width g s)))
  unfolding cells_of_rows
  has_cell-rows zero a s x y = ground arith
  has_cell-rows (suc n) a s x y =
      let f = first_column g s in
      let m = max_width g s in
      rw
        (
          has_cell-append x y (cells_of_row (m + 1 - f) a f) (cells_of_rows g n (a + 1) s),
          has_cell-row (m + 1 - f) a f x y,
          has_cell-rows n (a + 1) s x y,
        )
        (ground arith)

  -- A thread computes the pixels of all rows in the columns of its segment, and no others.
  pub has_cell-cells :
      (s x y : ℕ)
      → has_cell x y (cells g s)
        ≡ ((leb 1 x && leb x g.height) && (leb (first_column g s) y && leb y (max_width g s)))
  unfolding cells
  has_cell-cells s x y = rw (has_cell-rows g.height 1 s x y) (ground arith)

  pub first_column-pos : (s : ℕ) → 0 < first_column g s
  first_column-pos s = omega (arith, first_column-bound g s)
