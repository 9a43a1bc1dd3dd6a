-- ===== src/Filter/Pixels.antt =====
-- What `calculate` reads for a pixel stays within INPUT and FILTER.
use semestr.Prelude.{
  ℕ, zero, suc, ◌+◌, ◌-◌, ◌≤◌, ◌<◌, ◌≡◌, refl, arith, some, Bool-cases, inl, inr, ltb, ◌&&◌,
}
use semestr.Prelude.Int.{ℤ}
use semestr.Filter.{Doubles, Globals, at, clamp, centre, term, sum_row, sum_rows, pixel_of}

at-total :
    {A : Type 0} (h w : ℕ) (rows : ℕ → ℕ → A) (i j : ℕ)
    → i < h
    → j < w
    → at h w rows i j ≡ some (rows i j)
at-total h w rows i j p q = ground arith

module _ {D : Type 0} (d : Doubles D) (g : Globals D) where
  term-total :
      (x y i j : ℕ)
      → i < g.filter_size + 1
      → j < g.filter_size + 1
      → 0 < i
      → 0 < j
      → (t : D) × (term d g x y i j ≡ some t)
  unfolding term
  term-total x y i j p q r s =
      let a = clamp (centre g.filter_size) x i - 1 in
      let b = clamp (centre g.filter_size) y j - 1 in
      elim (Bool-cases (ltb a g.height && ltb b g.width)) [
        | inl inside ↦ (
          d.scale (g.input a b) (g.filter (i - 1) (j - 1)),
          rw
              (
                term,
                inside,
                at-total g.filter_size g.filter_size g.filter (i - 1) (j - 1) (omega arith)
                    (omega arith),
              )
              refl,
        )
        | inr outside ↦ (d.zero_double, rw (term, outside) refl)
      ]

  sum_row-total :
      (n x y i j : ℕ) (result : D)
      → 0 < i
      → i ≤ g.filter_size
      → 0 < j
      → j + n ≤ g.filter_size + 1
      → (r : D) × (sum_row d g n x y i j result ≡ some r)
  unfolding sum_row
  sum_row-total zero x y i j result a b c e = (result, refl)
  sum_row-total (suc n) x y i j result a b c e =
      let (t, f) = term-total x y i j (omega arith) (omega arith) a c in
      let (r, k) = sum_row-total n x y i (j + 1) (d.add result t) a b (omega arith) (omega arith) in
      (r, rw (sum_row, f) k)

  sum_rows-total :
      (n x y i : ℕ) (result : D)
      → 0 < i
      → i + n ≤ g.filter_size + 1
      → (r : D) × (sum_rows d g n x y i result ≡ some r)
  unfolding sum_rows
  sum_rows-total zero x y i result a b = (result, refl)
  sum_rows-total (suc n) x y i result a b =
      let (t, f) =
        sum_row-total g.filter_size x y i 1 result a (omega arith) (omega arith) (omega arith) in
      let (r, k) = sum_rows-total n x y (i + 1) t (omega arith) (omega arith) in
      (r, rw (sum_rows, f) k)

  -- Every pixel has a value: no access is outside an array.
  pub pixel_of-total : (x y : ℕ) → (v : ℤ) × (pixel_of d g x y ≡ some v)
  unfolding pixel_of
  pixel_of-total x y =
      let (r, e) = sum_rows-total g.filter_size x y 1 d.zero_double (omega arith) (omega arith) in
      (d.round r, rw (pixel_of, e) refl)
