-- ===== src/DirSearch/Processes.antt =====
-- The walk of SysOpy/lab3/src/zad1/zad1.c, with a process for each directory.
use mathlib.Core.List.{Perm}
use mathlib.Core.List.Perm
use semestr.Prelude.{
  ◌≡◌, refl, ◌∙◌, ap, true, false, List, [], ◌∷◌, ◌++◌, arith, Bool-cases, inl, inr,
}
use semestr.CString.{Text}
use semestr.DirSearch.{
  Stat, Tree, file, dir, Entries, end, entry, Out, listed, directory_error, Query, is_dot, keep_on,
  show_file, at_entry, dir_info_vfork, vfork_entries, dir_info_nftw,
}
use semestr.DirSearch.Modes.{is_known, Plain, PlainEntries, fn_only}
use semestr.DirSearch.Walk.{reached, reached_entries, dir_info_nftw-append}

-- The files that a run has listed, without its error messages.
abbrev pub listings : List Out → List Out
listings [] = []
listings (listed path s ∷ out) = listed path s ∷ listings out
listings (directory_error ∷ out) = listings out

listings-append : (a b : List Out) → listings (a ++ b) ≡ listings a ++ listings b
listings-append [] b = refl
listings-append (listed path s ∷ a) b = ap (λ out. listed path s ∷ out) (listings-append a b)
listings-append (directory_error ∷ a) b = listings-append a b

never_exits :
    (q : Query) (path : List Text) (out : List Out) (t : Tree)
    → (at_entry q path (keep_on out) t).exited ≡ false
never_exits q path out (file s) = refl
never_exits q path out (dir r es) = refl

module _ (q : Query) (known : is_known q ≡ true) where
  listings-show_file :
      (path : List Text) (s : Stat) → listings (show_file q path s) ≡ show_file q path s
  listings-show_file path s = ground arith

  mutual
    unfolding dir_info_vfork Plain dir_info_nftw

    -- What an entry lists in the end; the `exit` of a directory's own process is left out.
    tree_lem :
        (path : List Text) (t : Tree)
        → Plain t
        → listings (at_entry q path (keep_on (dir_info_vfork q path t).out) t).out
          ≡ dir_info_nftw q (reached path t)
    tree_lem path (file s) plain = listings-show_file path s ∙ fn_only q known path s plain
    tree_lem path (dir true es) plain = (entries_lem path es plain).0
    tree_lem path (dir false es) plain = refl

    entries_lem :
        (path : List Text) (es : Entries)
        → PlainEntries es
        → (listings (vfork_entries q path es).out ≡ dir_info_nftw q (reached_entries path es))
          × ((vfork_entries q path es).exited ≡ false)
    entries_lem path end plain = (refl, refl)
    entries_lem path (entry name t es) plain =
        let inner = path ++ name ∷ [] in
        let child = keep_on (dir_info_vfork q inner t).out in
        let here = tree_lem inner t plain.0 in
        let (rest, on) = entries_lem path es plain.1 in
        let stays : (at_entry q inner child t).exited ≡ false = never_exits q inner _ t in
        elim (Bool-cases (is_dot name)) [
          | inl dot ↦ rw dot (rest, on)
          | inr real ↦
              rw
                (
                  real,
                  stays,
                  listings-append,
                  here,
                  rest,
                  dir_info_nftw-append q (reached inner t) (reached_entries path es),
                )
                (refl, on)
        ]
