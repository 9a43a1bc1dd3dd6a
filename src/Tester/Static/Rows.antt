-- ===== src/Tester/Static/Rows.antt =====
-- The static mode stays inside the rows.
use semestr.Prelude.{
  ℕ, zero, suc, ◌+◌, ◌-◌, ◌*◌, ◌%◌, ◌≤◌, ◌<◌, ◌≡◌, refl, sym, ◌∙◌, subst, inl, inr, Bool, true,
  false, some, List, [], ◌∷◌, arith, length, get_elem?, set, length-set, get_elem?-eq-some,
  get_elem?-set_self, get_elem?-set_ne, ltb, ◌==◌, if◌then◌else◌, Bool-cases, ℕ_discrete,
}
use semestr.Prelude.Int.{ℤ, pos, negsuc, ltb_ℤ}
use semestr.Blocks.{max_block_size, Block, find_index_stat, distance_stat, better_stat}
use semestr.Blocks.Loops.{last_better-total}
use semestr.Blocks.Returns.{difference-total}
use semestr.Tester.{rounds}
use semestr.Tester.Static.{
  put_chars, put_rows, clear_rows, fill_array_stat, is_nul, strncpy, add_block_static, add_blocks,
  search_stat, main_static,
}

-- `count` rows of `width` characters.
pub record Shape (count width : ℕ) (rows : List Block) : Type 0 where
  pub many : length rows ≡ count
  pub each : (i : ℕ) (row : Block) → get_elem? rows i ≡ some row → length row ≡ width

row_at :
    (count width i : ℕ) (rows : List Block)
    → Shape count width rows
    → i < count
    → (row : Block) × (get_elem? rows i ≡ some row) × (length row ≡ width)
row_at count width i rows shape lt =
    let (row, e) = get_elem?-eq-some rows i (omega (arith, shape.many)) in
    (row, e, shape.each i row e)

put_chars-total :
    (value : ℕ → ℤ) (n j : ℕ) (row : Block)
    → j + n ≤ length row
    → (r : Block) × (put_chars value n j row ≡ some r) × (length r ≡ length row)
unfolding put_chars
put_chars-total value zero j row h = (row, refl, refl)
put_chars-total value (suc n) j row h =
    let same = length-set row j (value j) in
    let inside : ltb j (length row) ≡ true = ground arith in
    let (r, e, l) = put_chars-total value n (j + 1) (set row j (value j)) (omega (arith, same)) in
    (r, rw inside e, l ∙ same)

set-Shape :
    (count width i : ℕ) (rows : List Block) (row : Block)
    → i < count
    → length row ≡ width
    → Shape count width rows
    → Shape count width (set rows i row)
set-Shape count width i rows row lt l shape = record {
  many = length-set rows i row ∙ shape.many;
  each = λ k r e. elim (ℕ_discrete k i) [
    | yes same ↦
        let here : get_elem? (set rows i row) i ≡ some r =
          subst (λ x. get_elem? (set rows i row) x ≡ some r) same e in
        let placed = get_elem?-set_self rows i row (omega (arith, shape.many)) in
        let one : row ≡ r = cc in rw (← one) l
    | no other ↦ shape.each k r (sym (get_elem?-set_ne rows row (λ same. other (sym same))) ∙ e)
  ];
}

put_rows-Shape :
    (value : ℕ → ℕ → ℤ) (n i block_size count width : ℕ) (rows : List Block)
    → i + n ≤ count
    → block_size ≤ width
    → Shape count width rows
    → (r : List Block) × (put_rows value n i block_size rows ≡ some r) × Shape count width r
unfolding put_rows
put_rows-Shape value zero i size count width rows h k shape = (rows, refl, shape)
put_rows-Shape value (suc n) i size count width rows h k shape =
    let (row, e, l) = row_at count width i rows shape (omega arith) in
    let (filled, f, m) = put_chars-total (value i) size 0 row (omega arith) in
    let (r, g, last) =
      put_rows-Shape value n (i + 1) size count width (set rows i filled) (omega arith) k
        (set-Shape count width i rows filled (omega arith) (m ∙ l) shape) in
    (r, rw (put_rows, e, f) g, last)

strncpy-total :
    (n i : ℕ) (stopped : Bool) (row : Block)
    → i + n ≤ length row
    → (b : Block) × (strncpy n i stopped row ≡ some b)
unfolding strncpy
strncpy-total zero i stopped row h = ([], refl)
strncpy-total (suc n) i true row h =
    let (b, e) = strncpy-total n (i + 1) true row (omega arith) in (pos 0 ∷ b, rw (strncpy, e) refl)
strncpy-total (suc n) i false row h =
    let (c, e) = get_elem?-eq-some row i (omega arith) in
    let (b, f) = strncpy-total n (i + 1) (is_nul c) row (omega arith) in
    (c ∷ b, rw (strncpy, e, f) refl)

add_blocks_lem :
    (n block_size count width : ℕ) (rows : List Block)
    → 0 < count
    → block_size ≤ width
    → Shape count width rows
    → add_blocks n block_size rows ≡ some rows
unfolding add_blocks add_block_static
add_blocks_lem zero size count width rows p k shape = refl
add_blocks_lem (suc n) size count width rows p k shape =
    let (row, e, l) = row_at count width 0 rows shape p in
    let (b, f) = strncpy-total size 0 false row (omega arith) in
    rw (add_blocks, add_block_static, e, f) (add_blocks_lem n size count width rows p k shape)

distance_stat-total :
    (position block_size count width i : ℕ) (rows : List Block)
    → position < count
    → i < count
    → block_size ≤ width
    → width ≤ max_block_size
    → Shape count width rows
    → (d : ℤ) × (distance_stat rows position block_size i ≡ some d)
unfolding distance_stat
distance_stat-total position size count width i rows p q k narrow shape =
    let (a, e, l) = row_at count width i rows shape q in
    let (b, f, m) = row_at count width position rows shape p in
    let (d, g) = difference-total size a b (omega arith) (omega arith) (omega arith) in
    (d, rw (e, f) g)

better_stat-total :
    (position block_size count width i : ℕ) (minimum : ℤ) (rows : List Block)
    → position < count
    → i < count
    → block_size ≤ width
    → width ≤ max_block_size
    → Shape count width rows
    → (b : Bool) × (better_stat rows position block_size minimum i ≡ some b)
unfolding better_stat
better_stat-total position size count width i minimum rows p q k narrow shape =
    elim (Bool-cases (i == position)) [
      | inl same ↦ (false, rw same refl)
      | inr other ↦
          let (d, e) = distance_stat-total position size count width i rows p q k narrow shape in
          (ltb_ℤ d minimum, rw (other, e) refl)
    ]

search_stat-total :
    (fun_arg2 : ℤ) (array_size block_size count width : ℕ) (rows : List Block)
    → 2 ≤ count
    → array_size ≤ count
    → ltb_ℤ fun_arg2 (pos count) ≡ true
    → block_size ≤ width
    → width ≤ max_block_size
    → Shape count width rows
    → search_stat fun_arg2 array_size block_size rows ≡ some rows
unfolding search_stat find_index_stat
search_stat-total (negsuc n) array_size size count width rows two most inside k narrow shape = refl
search_stat-total (pos position) array_size size count width rows two most inside k narrow shape =
    let below : position < count = ground arith in
    let best : ℕ = if position == 0 then 1 else 0 in
    let (minimum, e) =
      distance_stat-total position size count width best rows below (ground arith) k narrow shape in
    let (r, f) =
      last_better-total (better_stat rows position size minimum) (array_size - 1) 1 best
        (λ i from to.
          better_stat-total position size count width i minimum rows below (omega arith) k narrow
            shape) in
    rw (search_stat, find_index_stat, e, f) refl

rounds_le : (n : ℤ) (count : ℕ) → ltb_ℤ (pos count) n ≡ false → rounds n ≤ count
rounds_le (pos n) count e = ground arith
rounds_le (negsuc n) count e = omega arith

-- With a static array of two rows or more and at most 2^23 columns, blocks and their number within its
-- rows and columns, a number of fills up to that of the blocks, and a search position below the
-- number of rows, the static mode accesses nothing outside the array, and the blocks that it adds at
-- the end change nothing: the array is the same for any number of them.
pub main_static-unchanged :
    (rand : ℕ → ℕ) (array_size block_size count width : ℕ) (fun_arg1 fun_arg2 : ℤ)
    (rows : List Block)
    → 2 ≤ count
    → array_size ≤ count
    → ltb_ℤ (pos array_size) fun_arg1 ≡ false
    → ltb_ℤ fun_arg2 (pos count) ≡ true
    → block_size ≤ width
    → width ≤ max_block_size
    → Shape count width rows
    → (end : List Block) × ((fun_arg3 : ℤ)
        → main_static rand array_size block_size fun_arg1 fun_arg2 fun_arg3 rows ≡ some end)
unfolding main_static clear_rows fill_array_stat
main_static-unchanged rand len size count width fun_arg1 fun_arg2 rows two most few inside k narrow
      shape =
    let n = rounds_le fun_arg1 len few in
    let (s, e, good) =
      put_rows-Shape (λ i j. pos 0) len 0 size count width rows (omega arith) k shape in
    let (t, f, good') =
      put_rows-Shape (λ i j. pos 0) (rounds fun_arg1) 0 size count width s (omega arith) k good in
    let (u, g, last) =
      put_rows-Shape (λ i j. pos (rand (i * size + j) % (b'z' - b'a') + b'a')) (rounds fun_arg1) 0
        size count width t (omega arith) k good' in
    let h = search_stat-total fun_arg2 len size count width u two most inside k narrow last in
    (
      u,
      λ fun_arg3.
          rw (main_static, clear_rows, fill_array_stat, e, f, g, h)
            (add_blocks_lem (rounds fun_arg3) size count width u (omega arith) k last),
    )
