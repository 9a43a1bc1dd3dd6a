-- ===== src/Tester/Main.antt =====
-- The dynamic mode of the tester, from its first block to the end.
use semestr.Prelude.{
  ℕ, zero, suc, ◌+◌, ◌≤◌, ◌<◌, ◌≡◌, ◌≢◌, refl, sym, ◌∙◌, ap, subst, inl, inr, true, false, none,
  some, List, [], ◌∷◌, ◌++◌, arith, length, get_elem?, set, take, drop, take-append-drop,
  length-take, length-replicate, replicate, append_assoc, append-nil, length-append, ◌==◌,
}
use semestr.Prelude.Int.{ℤ, pos, negsuc, ltb_ℤ}
use semestr.Blocks.{max_block_size, Pointer, Heap, free, load, create_array, add_block_dynamic}
use semestr.Blocks.Release.{delete_array_dynamic_lem}
use semestr.Blocks.Returns.{Full, find_index_dyn-total}
use semestr.Tester.{
  State, check_args, allocate, rounds, random_block, insert_block, fill_from, fill_array_dyn,
  free_from, replace_first, delete_and_insert, search, created, main, search_positive, main_loaded,
}
use semestr.Tester.Memory.{Holds, Good, PointsTo-cases, Holds-Owns, Good-allocate, Good-free}

get_elem?-middle :
    (i : ℕ) (ps qs : List Pointer) (p : Pointer)
    → length ps ≡ i
    → get_elem? (ps ++ p ∷ qs) i ≡ some p
get_elem?-middle zero [] qs p e = refl
get_elem?-middle (suc i) [] qs p e = absurd (omega arith)
get_elem?-middle zero (o ∷ ps) qs p e = absurd (omega arith)
get_elem?-middle (suc i) (o ∷ ps) qs p e = get_elem?-middle i ps qs p (omega arith)

set-middle :
    (i : ℕ) (ps qs : List Pointer) (p v : Pointer)
    → length ps ≡ i
    → set (ps ++ p ∷ qs) i v ≡ ps ++ v ∷ qs
set-middle zero [] qs p v e = refl
set-middle (suc i) [] qs p v e = absurd (omega arith)
set-middle zero (o ∷ ps) qs p v e = absurd (omega arith)
set-middle (suc i) (o ∷ ps) qs p v e = ap (λ t. o ∷ t) (set-middle i ps qs p v (omega arith))

Holds-first :
    (n : ℕ) (h : Heap) (ps : List Pointer)
    → Holds n h ps
    → 0 < length ps
    → (p : ℕ) × (qs : List Pointer) × (ps ≡ some p ∷ qs)
Holds-first n h [] v lt = absurd (omega arith)
Holds-first n h (none ∷ ps) v lt = absurd v
Holds-first n h (some p ∷ ps) v lt = (p, ps, refl)

-- A state in which the array holds all blocks of the heap, with its length.
abbrev pub GoodState : ℕ → ℕ → State → Type 0
GoodState size len s = Good size s.heap s.callocs s.array × (length s.array ≡ len)

module _ (rand : ℕ → ℕ) where
  length-random_block : (n call : ℕ) → length (random_block rand n call) ≡ n
  unfolding random_block
  length-random_block zero call = refl
  length-random_block (suc n) call = ap suc (length-random_block n (call + 1))

  insert_block-middle :
      (size i : ℕ) (ps qs ds : List Pointer) (d : Pointer) (s : State)
      → s.array ≡ ps ++ d ∷ (ds ++ qs)
      → length ps ≡ i
      → Good size s.heap s.callocs (ps ++ qs)
      → (t : State) × (insert_block rand size i s ≡ some t)
        × (t.array ≡ ps ++ some s.callocs ∷ (ds ++ qs))
        × Good size t.heap t.callocs (ps ++ some s.callocs ∷ qs)
  unfolding insert_block add_block_dynamic
  insert_block-middle size i ps qs ds d s e l good = (
    record {
      heap = allocate s.heap s.callocs (random_block rand size s.rands);
      array = ps ++ some s.callocs ∷ (ds ++ qs);
      callocs = s.callocs + 1;
      rands = s.rands + size;
    },
    rw
        (
          insert_block,
          add_block_dynamic,
          e,
          get_elem?-middle i ps (ds ++ qs) d l,
          set-middle i ps (ds ++ qs) d (some s.callocs) l,
        )
        refl,
    refl,
    Good-allocate size s.heap s.callocs ps qs (random_block rand size s.rands)
        (length-random_block size s.rands) good,
  )

  -- The fill of the places `ds`, between those that are filled and those that stay.
  fill_from-Good :
      (size i : ℕ) (ps ds qs : List Pointer) (s : State)
      → s.array ≡ ps ++ (ds ++ qs)
      → length ps ≡ i
      → Good size s.heap s.callocs (ps ++ qs)
      → (t : State) × (fill_from rand (length ds) i size s ≡ some t)
        × GoodState size (length s.array) t
  unfolding fill_from
  fill_from-Good size i ps [] qs s e l good =
      (s, refl, (subst (Good size s.heap s.callocs) (sym e) good, refl))
  fill_from-Good size i ps (d ∷ ds) qs s e l good =
      let (t, f, g, next) = insert_block-middle size i ps qs ds d s e l good in
      let longer = append_assoc ps (some s.callocs ∷ []) in
      let (u, h, (fine, len)) =
        fill_from-Good size (i + 1) (ps ++ some s.callocs ∷ []) ds qs t
          (g ∙ sym (longer (ds ++ qs))) (omega (arith, length-append ps (some s.callocs ∷ [])))
          (subst (Good size t.heap t.callocs) (sym (longer qs)) next) in
      (u, rw (fill_from, f) h, (fine, len ∙ same_length t g))
    where
      same_length :
          (t : State)
          → t.array ≡ ps ++ some s.callocs ∷ (ds ++ qs)
          → length t.array ≡ length s.array
      same_length t g =
          rw (g, e)
            (omega (
              arith,
              length-append ps (some s.callocs ∷ (ds ++ qs)),
              length-append ps (d ∷ (ds ++ qs)),
            ))

  free_from-Good :
      (size i : ℕ) (ps ds qs : List Pointer) (s : State)
      → s.array ≡ ps ++ (ds ++ qs)
      → length ps ≡ i
      → Good size s.heap s.callocs (ds ++ qs)
      → (t : State) × (free_from rand (length ds) i s ≡ some t)
        × (t.array ≡ s.array)
        × Good size t.heap t.callocs qs
  unfolding free_from
  free_from-Good size i ps [] qs s e l good = (s, refl, refl, good)
  free_from-Good size i ps (none ∷ ds) qs s e l good = absurd good.holds
  free_from-Good size i ps (some p ∷ ds) qs s e l good =
      let (h, f, rest) = Good-free size s.heap s.callocs p (ds ++ qs) good in
      let (t, g, same, fine) =
        free_from-Good size (i + 1) (ps ++ some p ∷ []) ds qs (record s { heap = h })
          (e ∙ sym (append_assoc ps (some p ∷ []) (ds ++ qs)))
          (omega (arith, length-append ps (some p ∷ []))) rest in
      let here : get_elem? s.array i ≡ some (some p) =
        rw e (get_elem?-middle i ps (ds ++ qs) (some p) l) in
      (t, rw (free_from, here, f) g, same, fine)

  -- The first `n` blocks are freed and replaced.
  delete_and_insert-Good :
      (n size len : ℕ) (s : State)
      → n ≤ len
      → GoodState size len s
      → (t : State) × (delete_and_insert rand n size s ≡ some t) × GoodState size len t
  unfolding delete_and_insert fill_array_dyn
  delete_and_insert-Good n size len s le (good, l) =
      let ds = take n s.array in
      let qs = drop n s.array in
      let whole : ds ++ qs ≡ s.array = take-append-drop n s.array in
      let many : length ds ≡ n = omega (arith, length-take n s.array) in
      let (t, e, same, rest) =
        free_from-Good size 0 [] ds qs s (sym whole) refl
          (subst (Good size s.heap s.callocs) (sym whole) good) in
      let (u, f, (fine, m)) = fill_from-Good size 0 [] ds qs t (same ∙ sym whole) refl rest in
      let freed : free_from rand n 0 s ≡ some t =
        subst (λ k. free_from rand k 0 s ≡ some t) many e in
      let filled : fill_from rand n 0 size t ≡ some u =
        subst (λ k. fill_from rand k 0 size t ≡ some u) many f in
      (u, rw freed filled, (fine, m ∙ ap length same ∙ l))

  replace_first-step :
      (n size p : ℕ) (ps : List Pointer) (s : State) (h : Heap) (t : State)
      → s.array ≡ some p ∷ ps
      → free s.heap (some p) ≡ some h
      → insert_block rand size 0 (record s { heap = h }) ≡ some t
      → replace_first rand (suc n) size s ≡ replace_first rand n size t
  unfolding replace_first
  replace_first-step n size p ps s h t e f g =
      let first : get_elem? s.array 0 ≡ some (some p) = rw e refl in
      rw (replace_first, first, f, g) refl

  replace_first-Good :
      (n size len : ℕ) (s : State)
      → 0 < len
      → GoodState size len s
      → (t : State) × (replace_first rand n size s ≡ some t) × GoodState size len t
  unfolding replace_first
  replace_first-Good zero size len s le good = (s, refl, good)
  replace_first-Good (suc n) size len s le (good, l) =
      let (p, ps, e) = Holds-first size s.heap s.array good.holds (omega arith) in
      let (h, f, rest) =
        Good-free size s.heap s.callocs p ps (subst (Good size s.heap s.callocs) e good) in
      let (t, g, same, fine) =
        insert_block-middle size 0 [] ps [] (some p) (record s { heap = h }) e refl rest in
      let shape : length t.array ≡ len = rw (same) (omega (arith, ap length e)) in
      let (u, k, last) =
        replace_first-Good n size len t le
          (subst (Good size t.heap t.callocs) (sym same) fine, shape) in
      (u, replace_first-step n size p ps s h t e f g ∙ k, last)

  created-Good :
      (size len : ℕ)
      → (t : State) × (fill_array_dyn rand len size (created rand len) ≡ some t)
        × GoodState size len t
  unfolding fill_array_dyn created create_array
  created-Good size len =
      let ds : List Pointer = replicate len none in
      let (t, e, (good, l)) =
        fill_from-Good size 0 [] ds [] (created rand len) (sym (append-nil ds)) refl
          (record { holds = tt; only = λ q i. refl; fresh = λ q i. refl }) in
      let many : length ds ≡ len = length-replicate len none in
      (t, subst (λ k. fill_from rand k 0 size (created rand len) ≡ some t) many e, (good, l ∙ many))

Holds-at :
    (n : ℕ) (h : Heap) (ps : List Pointer) (k : ℕ)
    → Holds n h ps
    → k < length ps
    → (p : ℕ) × (get_elem? ps k ≡ some (some p)) × Full h ps n k
unfolding load
Holds-at n h [] k v lt = absurd (omega arith)
Holds-at n h (none ∷ ps) k v lt = absurd v
Holds-at n h (some p ∷ ps) zero ((b, e, l), once, rest) lt = (p, refl, (b, e, omega arith))
Holds-at n h (some p ∷ ps) (suc k) (live, once, rest) lt = Holds-at n h ps k rest (omega arith)

-- An index below 2 that is not the given one.
other : (position : ℕ) → (k : ℕ) × (k < 2) × ((k == position) ≡ false)
other zero = (1, omega arith, refl)
other (suc n) = (0, omega arith, ground arith)

module _ (rand : ℕ → ℕ) where
  -- The search comes to an end in an array of two blocks or more, for a position inside.
  search-Good :
      (fun_arg2 : ℤ) (size len : ℕ) (s : State)
      → size ≤ max_block_size
      → 2 ≤ len
      → ltb_ℤ fun_arg2 (pos len) ≡ true
      → GoodState size len s
      → search rand fun_arg2 len size s ≡ some s
  unfolding search
  search-Good (negsuc n) size len s fits two inside good = refl
  search-Good (pos position) size len s fits two inside (good, l) =
      let at = Holds-at size s.heap s.array in
      let below : position < len = ground arith in
      let (p, here, full) = at position good.holds (omega arith) in
      let (k, q, apart) = other position in
      let (o, there, unused) = at k good.holds (omega arith) in
      let (r, e) =
        find_index_dyn-total s.heap s.array position len size fits k p here full
          (λ j lt. let (a, b, c) = at j good.holds (omega arith) in (some a, b, λ z. c))
          (omega arith) (some o, there, ground arith) in
      rw (search, e) refl

rounds_le : (len : ℕ) (n : ℤ) → check_args 8 (pos len) (pos 1) n ≡ true → rounds n ≤ len
unfolding check_args
rounds_le len (pos n) e = ground arith
rounds_le len (negsuc n) e = omega arith

-- With blocks of at most 2^23 characters, two blocks or more, a number of blocks to replace that
-- `checkArgs` accepts, and a search position inside the array or negative, the dynamic mode runs to its
-- end without undefined behaviour, whatever `rand` returns, and leaves no block allocated.
pub main-freed :
    (rand : ℕ → ℕ) (array_size block_size : ℕ) (fun_arg1 fun_arg2 fun_arg3 : ℤ)
    → block_size ≤ max_block_size
    → 2 ≤ array_size
    → check_args 8 (pos array_size) (pos 1) fun_arg1 ≡ true
    → ltb_ℤ fun_arg2 (pos array_size) ≡ true
    → (h : Heap) × (main rand array_size block_size fun_arg1 fun_arg2 fun_arg3 ≡ some h)
      × ((p : ℕ) → h p ≡ none)
unfolding main
main-freed rand len size fun_arg1 fun_arg2 fun_arg3 fits two checked inside =
    let (s, e, good) = created-Good rand size len in
    let (t, f, good') =
      delete_and_insert-Good rand (rounds fun_arg1) size len s (rounds_le len fun_arg1 checked)
        good in
    let g = search-Good rand fun_arg2 size len t fits two inside good' in
    let (v, k, (last, l)) =
      replace_first-Good rand (rounds fun_arg3) size len t (omega arith) good' in
    let (h, freed, gone, kept) =
      delete_array_dynamic_lem v.heap v.array (Holds-Owns size v.heap v.array last.holds) in
    (
      h,
      rw (e, f, g, k) freed,
      λ p. elim (PointsTo-cases p v.array) [
        | inl i ↦ gone p i
        | inr out ↦ kept p out ∙ last.only p out
      ],
    )

-- The two testers do the same for every position of the search but 0, which only zad2 searches from.
pub main_loaded-main :
    (rand : ℕ → ℕ) (array_size block_size : ℕ) (fun_arg1 fun_arg2 fun_arg3 : ℤ)
    → fun_arg2 ≢ pos 0
    → main_loaded rand array_size block_size fun_arg1 fun_arg2 fun_arg3
      ≡ main rand array_size block_size fun_arg1 fun_arg2 fun_arg3
unfolding main_loaded main search_positive
main_loaded-main rand len size fun_arg1 (pos zero) fun_arg3 ne = absurd (ne refl)
main_loaded-main rand len size fun_arg1 (pos (suc n)) fun_arg3 ne = refl
main_loaded-main rand len size fun_arg1 (negsuc n) fun_arg3 ne = refl
