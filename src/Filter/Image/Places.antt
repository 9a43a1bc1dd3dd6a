-- ===== src/Filter/Image/Places.antt =====
-- `store_words` of `parseImage`: numbers that are stored one after the other fill the rows from the first
-- place on.
use semestr.Prelude.{
  ℕ, suc, ◌+◌, ◌*◌, ◌/◌, ◌%◌, ◌≤◌, ◌<◌, ◌≡◌, refl, ◌∙◌, arith, Bool, Bool-cases, true, ◌&&◌, some,
  List, [], ◌∷◌, length, ltb, ◌==◌, inl, inr, ℕ_discrete,
}
use semestr.Prelude.Int.{ℤ}
use semestr.CString.{Text, atoi}
use semestr.Filter.{set_cell}
use semestr.Filter.Image.{store_words}
use native.Mathlib.Nat.{div-eq_of_lt-le, mod-eq-sub-div-mul, div-lt_iff_lt-mul, div-add-mod'}

module _ (w h : ℕ) (out : ℕ → ℕ → ℤ) where
  -- The first `i` places, row by row.
  unfoldable pub Filled : ℕ → (ℕ → ℕ → ℤ) → Type 0
  Filled i rows = (a b : ℕ) → b < w → a * w + b < i → rows a b ≡ out a b

  -- Words for the places from `i` on.
  unfoldable pub Spells : ℕ → List Text → Type 0
  Spells i [] = Unit {0}
  Spells i (t ∷ ts) = (atoi t ≡ out (i / w) (i % w)) × Spells (i + 1) ts

  pub place-div : (a b : ℕ) → b < w → (a * w + b) / w ≡ a
  place-div a b lt = div-eq_of_lt-le w (omega arith) (omega arith)

  pub place-mod : (a b : ℕ) → b < w → (a * w + b) % w ≡ b
  place-mod a b lt = mod-eq-sub-div-mul (a * w + b) w ∙ rw (place-div a b lt) (omega arith)

  set_cell-Filled :
      (i : ℕ) (v : ℤ) (rows : ℕ → ℕ → ℤ)
      → v ≡ out (i / w) (i % w)
      → Filled i rows
      → Filled (i + 1) (set_cell (i / w) (i % w) v rows)
  unfolding Filled
  set_cell-Filled i v rows e old a b lt below = elim (ℕ_discrete (a * w + b) i) [
    | yes here ↦
        let row : i / w ≡ a = rw (← here) (place-div a b lt) in
        let column : i % w ≡ b = rw (← here) (place-mod a b lt) in
        let value : v ≡ out a b = e ∙ rw (row, column) refl in
        rw (row, column) (ground (arith, value))
    | no other ↦ elim (Bool-cases (a == i / w && b == i % w)) [
      | inl hit ↦
          let row : a ≡ i / w = ground (arith, hit) in
          let column : b ≡ i % w = ground (arith, hit) in
          let flat : a * w + b ≡ i = rw (row, column) (div-add-mod' i w) in absurd (other flat)
      | inr miss ↦ rw miss (old a b lt (omega arith))
    ]
  ]

  pub store_words-Filled :
      (more : ℕ → Bool) (ts : List Text) (i : ℕ) (rows : ℕ → ℕ → ℤ)
      → 0 < w
      → i + length ts ≤ h * w
      → Spells i ts
      → Filled i rows
      → (stored : ℕ → ℕ → ℤ) × (store_words (λ t old. atoi t) more w h i ts rows
          ≡ some (i + length ts, stored))
        × Filled (i + length ts) stored
  unfolding store_words Spells
  store_words-Filled more [] i rows p le spells old =
      let all : i + 0 ≡ i = omega arith in (rows, rw all refl, rw all old)
  store_words-Filled more (t ∷ ts) i rows p le spells old =
      let (stored, e, filled) =
        store_words-Filled more ts (i + 1) (set_cell (i / w) (i % w) (atoi t) rows) p (omega arith)
          spells.1 (set_cell-Filled i (atoi t) rows spells.0 old) in
      let row : i / w < h = (div-lt_iff_lt-mul {x = i} {y = h} p).1 (omega arith) in
      let inside : (ltb 0 w && ltb (i / w) h) ≡ true = ground arith in
      let shift : i + 1 + length ts ≡ i + suc (length ts) = omega arith in
      (stored, rw (store_words, inside) (e ∙ rw shift refl), rw (← shift) filled)
