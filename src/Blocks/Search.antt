-- ===== src/Blocks/Search.antt =====
-- What `findBlockDyn` and `findBlockStat` of SysOpy/lab1/src/zad1/blocklibrary.c return.
use semestr.Prelude.{
  ℕ, ◌+◌, ◌-◌, ◌<◌, ◌≡◌, ◌≢◌, ◌⊎◌, inl, inr, true, none, some, List, get_elem?, length, arith, ◌==◌,
  if◌then◌else◌, Option-cases,
}
use semestr.Prelude.Int.{ℤ, ltb_ℤ}
use semestr.Blocks.{
  Block, Pointer, Heap, first_other, distance, better_dyn, find_index_dyn, distance_stat,
  better_stat, find_index_stat,
}
use semestr.Blocks.Loops.{
  IsLastBetter, last_better-IsLastBetter, first_other_lem, first_other-overrun, Other, Skipped,
}

-- The result of a search in the dynamic array: `first` is the first other block, at distance
-- `minimum`, and `r` the last other block that is nearer than `first`, or `first` if none is.
pub record Found (h : Heap) (array : List Pointer) (position array_size block_size r : ℕ)
    : Type 0 where
  pub first : ℕ
  pub minimum : ℤ
  pub below : first < array_size
  pub first_at : first_other array position array_size 0 ≡ some first
  pub minimum_is : distance h array position block_size first ≡ some minimum
  pub last :
      IsLastBetter
        (better_dyn h array position block_size minimum)
        (array_size - (first + 1))
        (first + 1)
        first
        r

module _ (h : Heap) (array : List Pointer) (position array_size block_size : ℕ) where
  find_index_dyn-Found :
      (r : ℕ)
      → find_index_dyn h (some array) position array_size block_size ≡ some (some r)
      → Found h array position array_size block_size r
  unfolding find_index_dyn
  find_index_dyn-Found r e = elim (Option-cases (get_elem? array position)) [
    | inl outside ↦ absurd (ground arith)
    | inr (p, inside) ↦ elim (Option-cases (first_other array position array_size 0)) [
      | inl overrun ↦ absurd (ground arith)
      | inr (first, at) ↦ elim (Option-cases (distance h array position block_size first)) [
        | inl fault ↦ absurd (ground arith)
        | inr (minimum, known) ↦ record {
          first = first;
          minimum = minimum;
          below = ground (arith, first_other_lem array position array_size 0 first at);
          first_at = at;
          minimum_is = known;
          last = last_better-IsLastBetter _ _ _ first r (omega arith) (ground arith);
        }
      ]
    ]
  ]

  better_dyn-Other :
      (minimum : ℤ) (k : ℕ)
      → better_dyn h array position block_size minimum k ≡ some true
      → Other array position k
  unfolding better_dyn
  better_dyn-Other minimum k e = elim (Option-cases (get_elem? array k)) [
    | inl outside ↦ absurd (ground arith)
    | inr (p, inside) ↦ (p, inside, ground arith)
  ]

  Other-better_dyn :
      (minimum d : ℤ) (k : ℕ)
      → Other array position k
      → distance h array position block_size k ≡ some d
      → ltb_ℤ d minimum ≡ true
      → better_dyn h array position block_size minimum k ≡ some true
  unfolding better_dyn
  Other-better_dyn minimum d k (p, inside, other) e nearer = ground (arith, inside, other)

  -- A block that `findBlockDyn` finds is another block of the array: its index is inside, it is
  -- not null, and it is not the given one.
  pub find_index_dyn-Other :
      (r : ℕ)
      → find_index_dyn h (some array) position array_size block_size ≡ some (some r)
      → (r < array_size) × Other array position r
  find_index_dyn-Other r e =
      let v = find_index_dyn-Found r e in
      let (_, _, found) = first_other_lem array position array_size 0 v.first v.first_at in
      elim v.last.chosen [
        | inl same ↦ rw same (v.below, found (omega (arith, v.below)))
        | inr (from, to, better) ↦ (omega (arith, v.below), better_dyn-Other v.minimum r better)
      ]

  -- `min` never changes in the loop: a block at `a` that is nearer than the first candidate is
  -- passed over for any later block at `b` that is nearer than the first candidate, also where the
  -- block at `b` is farther than the one at `a`.
  pub farther_block_wins :
      (first a b r : ℕ) (minimum da db : ℤ)
      → first_other array position array_size 0 ≡ some first
      → distance h array position block_size first ≡ some minimum
      → distance h array position block_size a ≡ some da
      → distance h array position block_size b ≡ some db
      → first < a
      → a < b
      → b < array_size
      → Other array position b
      → ltb_ℤ da db ≡ true
      → ltb_ℤ db minimum ≡ true
      → find_index_dyn h (some array) position array_size block_size ≡ some (some r)
      → r ≢ a
  farther_block_wins first a b r minimum da db e1 e2 e3 e4 h1 h2 h3 other nearer below e same =
      let v = find_index_dyn-Found r e in
      let e5 : v.first ≡ first = ground (arith, v.first_at) in
      let e6 : v.minimum ≡ minimum = ground (arith, v.minimum_is) in
      let yes_better = Other-better_dyn minimum db b other e4 below in
      let not_better = v.last.later b (omega arith) (omega arith) (omega arith) in cc

  -- A search with no other block in the array reads beyond the array, instead of returning NULL.
  pub find_index_dyn-overrun :
      (p : ℕ)
      → length array ≡ array_size
      → get_elem? array position ≡ some (some p)
      → ((k : ℕ) → k < array_size → Skipped array position k)
      → find_index_dyn h (some array) position array_size block_size ≡ none
  unfolding find_index_dyn
  find_index_dyn-overrun p size here all =
      let over =
        first_other-overrun array position array_size 0 (omega arith)
          (λ k _ below. all k (omega arith)) in
      ground (arith, over)

module _ (rows : List Block) (position array_size block_size : ℕ) where
  -- `findBlockStat` never returns the given row itself; and the row is one of the array's, except
  -- that it may be the row that the search starts from (row 1 for position 0, or else row 0).
  pub find_index_stat-ne :
      (r : ℕ)
      → find_index_stat rows position array_size block_size ≡ some r
      → (r ≢ position) × ((r < array_size) ⊎ (r ≡ (if position == 0 then 1 else 0)))
  unfolding find_index_stat better_stat
  find_index_stat-ne r e =
      elim (Option-cases
        (distance_stat rows position block_size (if position == 0 then 1 else 0))) [
          | inl fault ↦ absurd (ground arith)
          | inr (minimum, known) ↦
              let v =
                last_better-IsLastBetter (better_stat rows position block_size minimum)
                  (array_size - 1) 1 (if position == 0 then 1 else 0) r (ground arith)
                  (ground arith) in
              ground (arith, v.chosen)
        ]
