-- ===== src/Tester.antt =====
-- SysOpy/lab1/src/zad2/tester.c, a program that times the functions of the block library, and
-- SysOpy/lab1/src/zad3a/tester_dynamic.c, the same with the library loaded by `dlopen`. Modelled is
-- the dynamic mode, over the heap of Blocks: a block's address is the number of the `calloc` that
-- returned it. `rand` is an argument, by the number of its call. `none` is undefined behaviour.
pub mod Memory
pub mod Main
pub mod Static
mod Tests
use semestr.Prelude.{
  ℕ, zero, suc, ◌+◌, ◌-◌, ◌%◌, Bool, true, false, Option, none, some, List, [], ◌∷◌, get_elem?,
  length, ◌==◌, if◌then◌else◌, ◌>>=◌,
}
use semestr.Prelude.Int.{ℤ, pos, negsuc, ltb_ℤ}
use semestr.CString.{Text, atoi}
use semestr.Blocks.{
  Block, Pointer, Heap, free, create_array, delete_array_dynamic, add_block_dynamic, find_index_dyn,
}

-- The heap and the array, with the calls of `calloc` and of `rand` so far.
pub record State : Type 0 where
  pub heap : Heap
  pub array : List Pointer
  pub callocs : ℕ
  pub rands : ℕ

-- `checkArgs`: 1 is `false`.
unfoldable pub check_args : ℕ → ℤ → ℤ → ℤ → Bool
check_args argc array_size allock_mode fun_arg1 =
    if argc == 8 then mode_known allock_mode (ltb_ℤ array_size fun_arg1) else false
  where
    mode_known : ℤ → Bool → Bool
    mode_known (pos zero) too_many = if too_many then false else true
    mode_known (pos (suc zero)) too_many = if too_many then false else true
    mode_known (pos (suc (suc n))) too_many = false
    mode_known (negsuc n) too_many = false

abbrev pub allocate : Heap → ℕ → Block → Heap
allocate h p block q = if q == p then some block else h q

-- The rounds of a loop up to an `int`, which is not entered where it is not positive.
abbrev pub rounds : ℤ → ℕ
rounds (pos n) = n
rounds (negsuc n) = 0

module _ (rand : ℕ → ℕ) where
  -- `rand()%('z' - 'a') + 'a'` for each character.
  unfoldable pub random_block : ℕ → ℕ → Block
  random_block zero call = []
  random_block (suc n) call = pos (rand call % (b'z' - b'a') + b'a') ∷ random_block n (call + 1)

  -- A new block of `blockSize` characters at a position of the array.
  unfoldable pub insert_block : ℕ → ℕ → State → Option State
  unfolding random_block
  insert_block block_size position s = do
    array ← add_block_dynamic s.array (some s.callocs) position
    some (record {
      heap = allocate s.heap s.callocs (random_block block_size s.rands);
      array = array;
      callocs = s.callocs + 1;
      rands = s.rands + block_size;
    })

  -- The loop of `fillArrayDyn` from `i` on, with the rounds that are left.
  unfoldable pub fill_from : ℕ → ℕ → ℕ → State → Option State
  unfolding insert_block
  fill_from zero i block_size s = some s
  fill_from (suc n) i block_size s = do
    t ← insert_block block_size i s
    fill_from n (i + 1) block_size t

  unfoldable pub fill_array_dyn : ℕ → ℕ → State → Option State
  unfolding fill_from
  fill_array_dyn array_size block_size s = fill_from array_size 0 block_size s

  -- `free(array[i])` for the blocks from `i` on.
  unfoldable pub free_from : ℕ → ℕ → State → Option State
  unfolding free
  free_from zero i s = some s
  free_from (suc n) i s = do
    p ← get_elem? s.array i
    h ← free s.heap p
    free_from n (i + 1) (record s { heap = h })

  -- The loop that deletes and inserts the first block.
  unfoldable pub replace_first : ℕ → ℕ → State → Option State
  unfolding free insert_block
  replace_first zero block_size s = some s
  replace_first (suc n) block_size s = do
    p ← get_elem? s.array 0
    h ← free s.heap p
    t ← insert_block block_size 0 (record s { heap = h })
    replace_first n block_size t

  unfoldable pub delete_and_insert : ℕ → ℕ → State → Option State
  unfolding fill_array_dyn free_from
  delete_and_insert n block_size s = do t ← free_from n 0 s; fill_array_dyn n block_size t

  -- The search of a block, whose result is not used.
  unfoldable pub search : ℤ → ℕ → ℕ → State → Option State
  search (pos position) array_size block_size s = do
    found ← find_index_dyn s.heap (some s.array) position array_size block_size
    some s
  search (negsuc n) array_size block_size s = some s

  unfoldable pub created : ℕ → State
  unfolding create_array
  created array_size = record {
    heap = λ p. none;
    array = create_array array_size;
    callocs = 0;
    rands = 0;
  }

  -- `main` in the dynamic mode, with the heap at its end.
  unfoldable pub main : ℕ → ℕ → ℤ → ℤ → ℤ → Option Heap
  unfolding created fill_array_dyn delete_and_insert search replace_first delete_array_dynamic
  main array_size block_size fun_arg1 fun_arg2 fun_arg3 = do
    s ← fill_array_dyn array_size block_size (created array_size)
    t ← delete_and_insert (rounds fun_arg1) block_size s
    u ← search fun_arg2 array_size block_size t
    v ← replace_first (rounds fun_arg3) block_size u
    delete_array_dynamic v.heap v.array

  -- The search of zad3a, which position 0 does not start.
  unfoldable pub search_positive : ℤ → ℕ → ℕ → State → Option State
  unfolding search
  search_positive (pos zero) array_size block_size s = some s
  search_positive (pos (suc n)) array_size block_size s =
      search (pos (suc n)) array_size block_size s
  search_positive (negsuc n) array_size block_size s = some s

  -- `main` of zad3a in the dynamic mode; its other functions are those of zad2.
  unfoldable pub main_loaded : ℕ → ℕ → ℤ → ℤ → ℤ → Option Heap
  unfolding created fill_array_dyn delete_and_insert search_positive replace_first
      delete_array_dynamic
  main_loaded array_size block_size fun_arg1 fun_arg2 fun_arg3 = do
    s ← fill_array_dyn array_size block_size (created array_size)
    t ← delete_and_insert (rounds fun_arg1) block_size s
    u ← search_positive fun_arg2 array_size block_size t
    v ← replace_first (rounds fun_arg3) block_size u
    delete_array_dynamic v.heap v.array
