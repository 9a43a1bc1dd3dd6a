-- ===== src/DirSearch/Tests.antt =====
-- The search of SysOpy/lab2/src/zad2 and lab3/src/zad1 in a directory with a file and a directory.
use mathlib.Core.List.{Perm}
use mathlib.Core.List.Perm
use semestr.Prelude.{true, false, some, List, [], ◌∷◌}
use semestr.CString.{Text}
use semestr.DirSearch.{regular, Stat, Tree, file, dir, Entries, end, entry, Date, greater, Query}

abbrev spring : Date
spring = record { year = 2018; month = 4; day = 10 }

abbrev summer : Date
summer = record { year = 2018; month = 7; day = 2 }

-- Files changed after the spring date, on a clock whose every time is in summer.
abbrev query : Query
query = record { operator = greater; date = some spring; local_date = λ t. summer }

abbrev unknown : Query
unknown = record query { operator = b'?' ∷ [] }

abbrev note : Stat
note = record { kind = regular; mtime = 5 }

abbrev tree_entries : Entries
tree_entries = entry (b'.' ∷ []) (dir true end) (
    entry (b'a' ∷ []) (file note)
      (entry (b'd' ∷ []) (dir true (entry (b'b' ∷ []) (file note) end)) end))

abbrev tree : Tree
tree = dir true tree_entries

abbrev locked_entries : Entries
locked_entries = entry (b'd' ∷ []) (dir false end) (entry (b'a' ∷ []) (file note) end)

abbrev locked : Tree
locked = dir true locked_entries

-- What `nftw` visits, with the entries in the other order.
abbrev visited : List (List Text × Stat)
visited = ((b'd' ∷ []) ∷ (b'b' ∷ []) ∷ [], note) ∷ ((b'a' ∷ []) ∷ [], note) ∷ []
