-- ===== src/Tester/Static.antt =====
-- The static mode of SysOpy/lab1/src/zad2/tester.c. The rows of `staticArray` are an argument: 8192 of
-- 8192 zeros in the program.
pub mod Rows
use semestr.Prelude.{
  ℕ, zero, suc, ◌+◌, ◌*◌, ◌%◌, ◌-◌, Bool, true, false, Option, none, some, List, [], ◌∷◌, get_elem?,
  set, length, ltb, if◌then◌else◌, ◌>>=◌,
}
use semestr.Prelude.Int.{ℤ, pos, negsuc}
use semestr.Blocks.{Block, find_index_stat}
use semestr.Tester.{rounds}

-- The loop over `j` that assigns to the characters of a row, with the rounds that are left.
unfoldable pub put_chars : (ℕ → ℤ) → ℕ → ℕ → Block → Option Block
put_chars value zero j row = some row
put_chars value (suc n) j row =
    let rest = put_chars value n (j + 1) (set row j (value j)) in
    if ltb j (length row) then rest else none

-- The loop over `i`, from `i` on.
unfoldable pub put_rows : (ℕ → ℕ → ℤ) → ℕ → ℕ → ℕ → List Block → Option (List Block)
unfolding put_chars
put_rows value zero i block_size rows = some rows
put_rows value (suc n) i block_size rows = do
  row ← get_elem? rows i
  filled ← put_chars (value i) block_size 0 row
  put_rows value n (i + 1) block_size (set rows i filled)

unfoldable pub clear_rows : ℕ → ℕ → List Block → Option (List Block)
unfolding put_rows
clear_rows n block_size rows = put_rows (λ i j. pos 0) n 0 block_size rows

-- `fillArrayStat`
unfoldable pub fill_array_stat : (ℕ → ℕ) → ℕ → ℕ → List Block → Option (List Block)
unfolding put_rows
fill_array_stat rand array_size block_size rows =
    put_rows (λ i j. pos (rand (i * block_size + j) % (b'z' - b'a') + b'a')) array_size 0 block_size
      rows

abbrev pub is_nul : ℤ → Bool
is_nul (pos zero) = true
is_nul (pos (suc n)) = false
is_nul (negsuc n) = false

-- `strncpy(block, row, n)`: what the block holds then.
unfoldable pub strncpy : ℕ → ℕ → Bool → Block → Option Block
strncpy zero i stopped row = some []
strncpy (suc n) i true row = do more ← strncpy n (i + 1) true row; some (pos 0 ∷ more)
strncpy (suc n) i false row = do
  c ← get_elem? row i
  more ← strncpy n (i + 1) (is_nul c) row
  some (c ∷ more)

-- `addBlockStatic`: the block, with what it is given.
unfoldable pub add_block_static : ℕ → ℕ → List Block → Option Block
unfolding strncpy
add_block_static position block_size rows = do
  row ← get_elem? rows position
  strncpy block_size 0 false row

-- The loop that adds a block `n` times.
unfoldable pub add_blocks : ℕ → ℕ → List Block → Option (List Block)
unfolding add_block_static
add_blocks zero block_size rows = some rows
add_blocks (suc n) block_size rows = do
  block ← add_block_static 0 block_size rows
  add_blocks n block_size rows

unfoldable pub search_stat : ℤ → ℕ → ℕ → List Block → Option (List Block)
search_stat (pos position) array_size block_size rows = do
  best ← find_index_stat rows position array_size block_size
  some rows
search_stat (negsuc n) array_size block_size rows = some rows

-- `main` in the static mode, with the rows at its end.
unfoldable pub main_static : (ℕ → ℕ) → ℕ → ℕ → ℤ → ℤ → ℤ → List Block → Option (List Block)
unfolding clear_rows fill_array_stat search_stat add_blocks
main_static rand array_size block_size fun_arg1 fun_arg2 fun_arg3 rows = do
  s ← clear_rows array_size block_size rows
  t ← clear_rows (rounds fun_arg1) block_size s
  u ← fill_array_stat rand (rounds fun_arg1) block_size t
  v ← search_stat fun_arg2 array_size block_size u
  add_blocks (rounds fun_arg3) block_size v
