-- ===== src/Blocks.antt =====
-- SysOpy/lab1/src/zad1/blocklibrary.c: arrays of blocks of characters, on the heap and in a static
-- array, and the search for a block whose sum of characters is near to that of a given block.
-- `none` is undefined behaviour: a read outside an array or a block, through a null or a freed
-- pointer, or a second `free`. Blocks are shorter than 2^24, so that sums do not overflow an `int`.
pub mod Sums
pub mod Loops
pub mod Search
pub mod Release
pub mod Returns
mod Tests
use semestr.Prelude.{
  ◌^◌, leb, ℕ, zero, suc, ◌+◌, ◌-◌, Bool, true, false, ◌&&◌, ◌||◌, Option, none, some, List, [],
  ◌∷◌, get_elem?, set, replicate, take, drop, length, ltb, ◌==◌, if◌then◌else◌, ◌>>=◌, ◌++◌,
}
use semestr.Prelude.Int.{ℤ, pos, ◌+ℤ◌, ◌-ℤ◌, ltb_ℤ, abs}

-- A `char*` with the characters that it points to; a `char` is signed.
abbrev pub Block : Type 0
Block = List ℤ

-- A null pointer is `none`.
abbrev pub Pointer : Type 0
Pointer = Option ℕ

abbrev pub is_null : Pointer → Bool
is_null none = true
is_null (some p) = false

-- The blocks that were allocated and not freed, by address.
abbrev pub Heap : Type 0
Heap = ℕ → Option Block

-- `free`: nothing for a null pointer, undefined for a block that is not allocated.
unfoldable pub free : Heap → Pointer → Option Heap
free h none = some h
free h (some p) = do block ← h p; some (λ q. if p == q then none else h q)

-- `createArray`, by `calloc`.
unfoldable pub create_array : ℕ → List Pointer
create_array array_size = replicate array_size none

-- The loop of `deleteArrayDynamic`, over the array's elements.
unfoldable pub delete_array_dynamic : Heap → List Pointer → Option Heap
unfolding free
delete_array_dynamic h [] = some h
delete_array_dynamic h (p ∷ ps) = do h' ← free h p; delete_array_dynamic h' ps

-- `addBlockDynamic`
unfoldable pub add_block_dynamic : List Pointer → Pointer → ℕ → Option (List Pointer)
add_block_dynamic array block position = do
  old ← get_elem? array position
  some (set array position block)

-- `deleteBlockDynamic`
unfoldable pub delete_block_dynamic : Heap → List Pointer → ℕ → Option (Heap × List Pointer)
unfolding free
delete_block_dynamic h array position = do
  p ← get_elem? array position
  h' ← free h p
  some (h', set array position none)

-- The loop of `sumChar` from `i` on, with the rounds that are left.
unfoldable pub sum_from : Block → ℕ → ℕ → ℤ → Option ℤ
sum_from block zero i sum = some sum
sum_from block (suc n) i sum = do c ← get_elem? block i; sum_from block n (i + 1) (sum +ℤ c)

-- The block sizes for which no sum, and no difference of two, can leave an `int`.
abbrev pub max_block_size : ℕ
max_block_size = 2 ^ 23

-- `sumChar`. In a larger block the sum may overflow an `int`, and counts as undefined.
unfoldable pub sum_char : Block → ℕ → Option ℤ
unfolding sum_from
sum_char block block_size =
    if leb block_size max_block_size then sum_from block block_size 0 (pos 0) else none

-- `abs(sumChar(a, blockSize) - sumChar(b, blockSize))`
unfoldable pub difference : ℕ → Block → Block → Option ℤ
difference block_size a b = do
  s ← sum_char a block_size
  t ← sum_char b block_size
  some (abs (s -ℤ t))

-- The loop that both searches end with: `best` becomes every index that improves on `min`.
unfoldable pub last_better : (ℕ → Option Bool) → ℕ → ℕ → ℕ → Option ℕ
last_better better zero i best = some best
last_better better (suc n) i best = do
  b ← better i
  last_better better n (i + 1) (if b then i else best)

-- What an element of the array points to.
unfoldable pub load : Heap → List Pointer → ℕ → Option Block
load h array i = do p ← get_elem? array i; q ← p; h q

-- The difference of `findBlockDyn` between `array[i]` and `array[position]`.
unfoldable pub distance : Heap → List Pointer → ℕ → ℕ → ℕ → Option ℤ
unfolding load
distance h array position block_size i = do
  a ← load h array i
  b ← load h array position
  difference block_size a b

-- The body of the `for` loop of `findBlockDyn`: whether `best` becomes `i`.
unfoldable pub better_dyn : Heap → List Pointer → ℕ → ℕ → ℤ → ℕ → Option Bool
better_dyn h array position block_size minimum i = do
  p ← get_elem? array i
  if is_null p || i == position
      then some false
      else do d ← distance h array position block_size i; some (ltb_ℤ d minimum)

-- The `while` loop of `findBlockDyn`, where `left` is `arraySize - first`: with none left the
-- element is still read before `first < arraySize` ends the loop.
unfoldable pub first_other : List Pointer → ℕ → ℕ → ℕ → Option ℕ
first_other array position zero first = do p ← get_elem? array first; some first
first_other array position (suc left) first = do
  p ← get_elem? array first
  elim (is_null p || first == position) [
    | true ↦ first_other array position left (first + 1)
    | false ↦ some first
  ]

-- `findBlockDyn` up to its last line: the index `best`, or none where it returns NULL.
unfoldable pub find_index_dyn : Heap → Option (List Pointer) → ℕ → ℕ → ℕ → Option (Option ℕ)
find_index_dyn h none position array_size block_size = some none
find_index_dyn h (some array) position array_size block_size = do
  p ← get_elem? array position
  if is_null p then some none else do
    first ← first_other array position array_size 0
    if first == array_size then some none else do
      minimum ← distance h array position block_size first
      best ←
          last_better (better_dyn h array position block_size minimum) (array_size - (first + 1))
            (first + 1) first
      some (some best)

-- `findBlockDyn`, whose result is a pointer.
unfoldable pub find_block_dyn : Heap → Option (List Pointer) → ℕ → ℕ → ℕ → Option Pointer
find_block_dyn h none position array_size block_size = some none
find_block_dyn h (some array) position array_size block_size = do
  best ← find_index_dyn h (some array) position array_size block_size
  elim best [ none ↦ some none | some i ↦ get_elem? array i ]

-- The difference of `findBlockStat` between two rows of the static array.
unfoldable pub distance_stat : List Block → ℕ → ℕ → ℕ → Option ℤ
distance_stat rows position block_size i = do
  a ← get_elem? rows i
  b ← get_elem? rows position
  difference block_size a b

-- The body of the `for` loop of `findBlockStat`.
unfoldable pub better_stat : List Block → ℕ → ℕ → ℤ → ℕ → Option Bool
better_stat rows position block_size minimum i =
    if i == position
    then some false
    else do d ← distance_stat rows position block_size i; some (ltb_ℤ d minimum)

-- `findBlockStat`: the index of the row that it returns.
unfoldable pub find_index_stat : List Block → ℕ → ℕ → ℕ → Option ℕ
find_index_stat rows position array_size block_size =
    let best = if position == 0 then 1 else 0 in
    do
      minimum ← distance_stat rows position block_size best
      last_better (better_stat rows position block_size minimum) (array_size - 1) 1 best
