-- ===== src/Blocks/Returns.antt =====
-- Where `findBlockDyn` of SysOpy/lab1/src/zad1/blocklibrary.c is defined.
use semestr.Prelude.{
  leb, true, ℕ, zero, suc, ◌+◌, ◌-◌, ◌≤◌, ◌<◌, ◌≡◌, ◌≢◌, refl, sym, inl, inr, Bool, false, ◌||◌,
  some, List, get_elem?, length, arith, ◌==◌, Bool-cases, get_elem?-eq-some, subst,
}
use semestr.Prelude.Int.{ℤ, pos, abs, ltb_ℤ, ◌+ℤ◌, ◌-ℤ◌}
use semestr.Blocks.{
  max_block_size, Block, Pointer, is_null, Heap, load, sum_from, sum_char, difference, first_other,
  distance, better_dyn, find_index_dyn,
}
use semestr.Blocks.Loops.{first_other_lem, last_better-total, Other}

sum_from-total :
    (block : Block) (n i : ℕ) (sum : ℤ)
    → i + n ≤ length block
    → (s : ℤ) × (sum_from block n i sum ≡ some s)
unfolding sum_from
sum_from-total block zero i sum h = (sum, refl)
sum_from-total block (suc n) i sum h =
    let (c, e) = get_elem?-eq-some block i (omega arith) in
    rw e (sum_from-total block n (i + 1) (sum +ℤ c) (omega arith))

pub difference-total :
    (n : ℕ) (a b : Block)
    → n ≤ max_block_size
    → n ≤ length a
    → n ≤ length b
    → (d : ℤ) × (difference n a b ≡ some d)
unfolding difference sum_char
difference-total n a b fits h k =
    let within : leb n max_block_size ≡ true = ground arith in
    let (s, e) = sum_from-total a n 0 (pos 0) (omega arith) in
    let (t, f) = sum_from-total b n 0 (pos 0) (omega arith) in
    (abs (s -ℤ t), rw (difference, sum_char, within, e, f) refl)

-- Index `k` points to a block of at least `block_size` characters.
abbrev pub Full : Heap → List Pointer → ℕ → ℕ → Type 0
Full h array block_size k = (b : Block) × (load h array k ≡ some b) × (block_size ≤ length b)

module _ (h : Heap) (array : List Pointer) (position array_size block_size : ℕ)
    (fits : block_size ≤ max_block_size) where
  distance-total :
      (k : ℕ)
      → Full h array block_size k
      → Full h array block_size position
      → (d : ℤ) × (distance h array position block_size k ≡ some d)
  unfolding distance
  distance-total k (a, e, ha) (b, f, hb) =
      let (d, g) = difference-total block_size a b fits ha hb in (d, rw (e, f) g)

  -- What the search needs of an index: it is inside, and what it points to, if anything, is full.
  abbrev pub Readable : ℕ → Type 0
  Readable k =
      (p : Pointer) × (get_elem? array k ≡ some p) × (is_null p ≡ false → Full h array block_size k)

  better_dyn-total :
      (minimum : ℤ) (k : ℕ)
      → Full h array block_size position
      → Readable k
      → (b : Bool) × (better_dyn h array position block_size minimum k ≡ some b)
  unfolding better_dyn
  better_dyn-total minimum k full (p, inside, content) =
      elim (Bool-cases (is_null p || k == position)) [
        | inl skip ↦ (false, ground (arith, inside, skip))
        | inr other ↦
            let (d, e) = distance-total k (content (ground arith)) full in
            (ltb_ℤ d minimum, ground (arith, inside, other, e))
      ]

  first_other-total :
      (left i k : ℕ)
      → ((j : ℕ) → i ≤ j → j < i + left → (p : Pointer) × (get_elem? array j ≡ some p))
      → i ≤ k
      → k < i + left
      → Other array position k
      → (r : ℕ) × (first_other array position left i ≡ some r) × (r < i + left)
  unfolding first_other
  first_other-total zero i k inside from to other = absurd (omega arith)
  first_other-total (suc left) i k inside from to other =
      let (p, e) = inside i (omega arith) (omega arith) in
      elim (Bool-cases (is_null p || i == position)) [
        | inl skip ↦
            let (q, f, g) = other in
            let past : i ≢ k = λ same.
              ground (arith, subst (λ j. get_elem? array j ≡ some q) (sym same) f, e, skip, g) in
            let (r, found, below) =
              first_other-total left (i + 1) k (λ j a b. inside j (omega arith) (omega arith))
                (omega arith) (omega arith) other in
            (r, ground (arith, e, skip, found), omega arith)
        | inr stop ↦ (i, ground (arith, e, stop), omega arith)
      ]

  -- With a full block at the given position and another one in the array, and no dangling or short
  -- block in between, `findBlockDyn` finds a block.
  pub find_index_dyn-total :
      (k p : ℕ)
      → get_elem? array position ≡ some (some p)
      → Full h array block_size position
      → ((j : ℕ) → j < array_size → Readable j)
      → k < array_size
      → Other array position k
      → (r : ℕ) × (find_index_dyn h (some array) position array_size block_size ≡ some (some r))
  unfolding find_index_dyn
  find_index_dyn-total k p here full readable below other =
      let (first, at, inside) =
        first_other-total array_size 0 k
          (λ j _ b. let (q, e, _) = readable j (omega arith) in (q, e)) (omega arith) (omega arith)
          other in
      let (_, _, found) = first_other_lem array position array_size 0 first at in
      let (q, e, g) = found inside in
      let (q', e', content) = readable first (omega arith) in
      let same : q' ≡ q = ground (arith, e, e') in
      let (minimum, known) = distance-total first (content (ground (arith, g))) full in
      let (r, chosen) =
        last_better-total (better_dyn h array position block_size minimum)
          (array_size - (first + 1)) (first + 1) first
          (λ j a b. better_dyn-total minimum j full (readable j (omega arith))) in
      (r, ground (arith, here, at, known, chosen))
