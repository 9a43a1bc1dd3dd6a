-- ===== src/Blocks/Loops.antt =====
-- What the loops of both searches of SysOpy/lab1/src/zad1/blocklibrary.c compute.
use semestr.Prelude.{
  ℕ, zero, suc, ◌+◌, ◌≤◌, ◌<◌, ◌≡◌, refl, ◌⊎◌, inl, inr, Bool, true, false, ◌||◌, Option, none,
  some, List, get_elem?, length, arith, ◌==◌, if◌then◌else◌, Option-cases, Bool-cases, subst,
  get_elem?-eq-none, dec_lt,
}
use semestr.Blocks.{Pointer, is_null, last_better, first_other}

-- `r` is the last index in [i, i + n) that is better, or `best` if none is.
pub record IsLastBetter (better : ℕ → Option Bool) (n i best r : ℕ) : Type 0 where
  pub chosen : (r ≡ best) ⊎ ((i ≤ r) × (r < i + n) × (better r ≡ some true))
  pub later : (k : ℕ) → i ≤ k → k < i + n → r < k → better k ≡ some false

module _ (better : ℕ → Option Bool) where
  IsLastBetter-cons :
      (n i best r : ℕ) (b : Bool)
      → best ≤ i
      → better i ≡ some b
      → IsLastBetter better n (i + 1) (if b then i else best) r
      → IsLastBetter better (suc n) i best r
  IsLastBetter-cons n i best r b h e v = record {
    chosen = ground (arith, v.chosen);
    later = λ k from to above. elim (dec_lt i k) [
      | yes past ↦ v.later k (omega arith) (omega arith) above
      | no here ↦ first k (omega arith) above
    ];
  }
    where
      first : (k : ℕ) → k ≡ i → r < k → better k ≡ some false
      first k same above = ground (arith, v.chosen)

  pub last_better-IsLastBetter :
      (n i best r : ℕ)
      → best ≤ i
      → last_better better n i best ≡ some r
      → IsLastBetter better n i best r
  unfolding last_better
  last_better-IsLastBetter zero i best r h e = record {
    chosen = inl (ground arith);
    later = λ k from to _. absurd (omega arith);
  }
  last_better-IsLastBetter (suc n) i best r h e = elim (Option-cases (better i)) [
    | inl fault ↦ absurd (cc (rw (fault, last_better) at e))
    | inr (b, known) ↦ IsLastBetter-cons n i best r b h known (
        last_better-IsLastBetter n (i + 1) (if b then i else best) r (ground arith)
          (rw (known, last_better) at e))
  ]

  pub last_better-total :
      (n i best : ℕ)
      → ((k : ℕ) → i ≤ k → k < i + n → (b : Bool) × (better k ≡ some b))
      → (r : ℕ) × (last_better better n i best ≡ some r)
  unfolding last_better
  last_better-total zero i best known = (best, refl)
  last_better-total (suc n) i best known =
      let (b, e) = known i (omega arith) (omega arith) in
      rw e (
        last_better-total n (i + 1) (if b then i else best)
          (λ k from to. known k (omega arith) (omega arith)))

module _ (array : List Pointer) (position : ℕ) where
  -- Index `k` holds no block, or the given one.
  abbrev pub Skipped : ℕ → Type 0
  Skipped k = (p : Pointer) × (get_elem? array k ≡ some p) × ((is_null p || k == position) ≡ true)

  -- Index `k` holds another block.
  abbrev pub Other : ℕ → Type 0
  Other k = (p : Pointer) × (get_elem? array k ≡ some p) × ((is_null p || k == position) ≡ false)

  -- Where the search for a first candidate ends inside the array, it is the first one.
  pub first_other_lem :
      (left i r : ℕ)
      → first_other array position left i ≡ some r
      → (i ≤ r) × (r ≤ i + left) × (r < i + left → Other r)
  unfolding first_other
  first_other_lem zero i r e = elim (Option-cases (get_elem? array i)) [
    | inl outside ↦ absurd (cc (rw outside at e))
    | inr (p, inside) ↦
        let reached : some i ≡ some r = rw inside at e in
        let here : i ≡ r = cc in (omega arith, omega arith, λ below. absurd (omega arith))
  ]
  first_other_lem (suc left) i r e = elim (Option-cases (get_elem? array i)) [
    | inl outside ↦ absurd (cc (rw (outside, first_other) at e))
    | inr (p, inside) ↦ elim (Bool-cases (is_null p || i == position)) [
      | inl skip ↦
          let tail : first_other array position left (i + 1) ≡ some r = ground arith in
          let (from, to, found) = first_other_lem left (i + 1) r tail in
          (omega arith, omega arith, λ below. found (omega arith))
      | inr stop ↦
          let here : i ≡ r = ground arith in
          (omega arith, omega arith, λ below. subst Other here (p, inside, stop))
    ]
  ]

  -- With nothing but skipped elements the loop reads one element more than there are.
  pub first_other-overrun :
      (left i : ℕ)
      → length array ≡ i + left
      → ((k : ℕ) → i ≤ k → k < i + left → Skipped k)
      → first_other array position left i ≡ none
  unfolding first_other
  first_other-overrun zero i size all = rw (get_elem?-eq-none array i (omega arith))
  first_other-overrun (suc left) i size all =
      let (p, inside, skip) = all i (omega arith) (omega arith) in
      let rest =
        first_other-overrun left (i + 1) (omega arith)
          (λ k from to. all k (omega arith) (omega arith)) in
      ground (arith, inside, skip, rest)
