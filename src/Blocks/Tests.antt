-- ===== src/Blocks/Tests.antt =====
-- SysOpy/lab1/src/zad1/blocklibrary.c on blocks of one character.
use semestr.Prelude.{◌^◌, ◌≤◌, ◌≡◌, refl, none, some, List, [], ◌∷◌, arith, ◌==◌, if◌then◌else◌}
use semestr.Prelude.Int.{ℤ, pos, negsuc, pos_part, neg_part, abs, ◌+ℤ◌, ◌-ℤ◌}
use semestr.Blocks.{
  Pointer, Heap, add_block_dynamic, create_array, load, sum_char, difference, distance, better_dyn,
  first_other, last_better, find_index_dyn, find_block_dyn,
}
use semestr.Blocks.Sums.{total, sum_char-bounds}

-- Blocks 1 to 4 hold 0, 10, 1 and 5.
abbrev heap : Heap
heap p =
    if p == 1
    then some (pos 0 ∷ [])
    else if p == 2
    then some (pos 10 ∷ [])
    else if p == 3
    then some (pos 1 ∷ [])
    else if p == 4
    then some (pos 5 ∷ [])
    else none

abbrev array : List Pointer
array = some 1 ∷ some 2 ∷ some 3 ∷ some 4 ∷ []

-- Block 3 is the nearest to block 1, and block 4 is found.
finds_block_4 : find_block_dyn heap (some array) 0 4 1 ≡ some (some 4)
unfolding find_block_dyn find_index_dyn first_other last_better better_dyn distance load difference
    sum_char ◌+ℤ◌ ◌-ℤ◌ abs
finds_block_4 = refl

add_then_delete :
    (add_block_dynamic (create_array 2) (some 1) 1 ≡ some (none ∷ some 1 ∷ []))
    × (add_block_dynamic (create_array 2) (some 1) 2 ≡ none)
unfolding add_block_dynamic create_array
add_then_delete = (refl, refl)

sum_char-bounds_example :
    (s : ℤ) × (sum_char (pos 5 ∷ negsuc 9 ∷ []) 2 ≡ some s)
    × (s ≡ total (pos 5 ∷ negsuc 9 ∷ []))
    × (pos_part s ≤ 254)
    × (neg_part s ≤ 256)
    × (pos_part s ≤ 2 ^ 30)
    × (neg_part s ≤ 2 ^ 30)
sum_char-bounds_example =
    sum_char-bounds (pos 5 ∷ negsuc 9 ∷ []) 2
      (omega arith, omega arith, (omega arith, omega arith, tt)) (omega arith) (omega arith)
