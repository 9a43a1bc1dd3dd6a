-- ===== src/Tester/Tests.antt =====
-- A run of the tester in its dynamic mode.
use semestr.Prelude.{ℕ, ◌≡◌, refl, arith, zero, suc, none, some, List, [], ◌∷◌, get_elem?, length}
use semestr.Prelude.Int.{ℤ, pos}
use semestr.Blocks.{Block, Heap}
use semestr.Tester.{check_args, main}
use semestr.Tester.Main.{main-freed}
use semestr.Tester.Static.{main_static}
use semestr.Tester.Static.Rows.{main_static-unchanged}

main-freed_example :
    (h : Heap) × (main (λ n. n) 3 2 (pos 2) (pos 1) (pos 4) ≡ some h) × ((p : ℕ) → h p ≡ none)
unfolding check_args
main-freed_example =
    main-freed (λ n. n) 3 2 (pos 2) (pos 1) (pos 4) (omega arith) (omega arith) refl refl

abbrev zeros : List Block
zeros = (pos 0 ∷ pos 0 ∷ []) ∷ (pos 0 ∷ pos 0 ∷ []) ∷ []

zeros-each : (i : ℕ) (row : Block) → get_elem? zeros i ≡ some row → length row ≡ 2
zeros-each zero row e = let same : pos 0 ∷ pos 0 ∷ [] ≡ row = cc in rw (← same) refl
zeros-each (suc zero) row e = let same : pos 0 ∷ pos 0 ∷ [] ≡ row = cc in rw (← same) refl
zeros-each (suc (suc i)) row e = cc

main_static-unchanged_example :
    (end : List Block) × ((fun_arg3 : ℤ)
      → main_static (λ n. n) 2 2 (pos 1) (pos 0) fun_arg3 zeros ≡ some end)
main_static-unchanged_example =
    main_static-unchanged (λ n. n) 2 2 2 2 (pos 1) (pos 0) zeros (omega arith) (omega arith) refl
      refl (omega arith) (omega arith) (record { many = refl; each = zeros-each })
