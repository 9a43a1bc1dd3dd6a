-- ===== src/Fifo/Tests.antt =====
-- Two slaves of SysOpy/lab5/src/zad2 that write while the FIFO is open, and one that writes by itself.
use semestr.Prelude.{◌≡◌, refl, arith, [], ◌∷◌, map}
use semestr.CString.{Text}
use semestr.CString.Decimal.{decimal, digits_from}
use semestr.Fifo.{Moment, block, master_logic}
use semestr.Fifo.Lines.{IsDated, Opening, blocks, first_line, master_logic-AllDated}

abbrev monday : Text
monday = b'M' ∷ b'o' ∷ b'n' ∷ []

abbrev noon : Moment
noon = record { date = b'M' ∷ b'o' ∷ b'n' ∷ 10 ∷ []; memory = 0 ∷ 1 ∷ [] }

noon-IsDated : IsDated 12 monday noon
unfolding decimal digits_from
noon-IsDated = record {
  printed = refl;
  one_line = (refl, (refl, (refl, tt)));
  short = omega arith;
  fits = omega arith;
}

abbrev two_slaves : Opening
two_slaves = record { pid = 12; day = monday; moment = noon; later = block 13 noon ∷ [] }

master_logic-AllDated_example :
    master_logic (map blocks (two_slaves ∷ [])) ≡ map first_line (two_slaves ∷ [])
master_logic-AllDated_example = master_logic-AllDated (two_slaves ∷ []) (noon-IsDated, tt)
