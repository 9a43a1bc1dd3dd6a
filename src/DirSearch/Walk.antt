-- ===== src/DirSearch/Walk.antt =====
-- What `nftw` is documented to do, for SysOpy/lab2/src/zad2/zad2.c and SysOpy/lab3/src/zad1/zad1.c: it
-- visits every file below the given directory once, in an order that is not said.
use mathlib.Core.Logic.{∥∥₁_elim}
use mathlib.Core.List.{Perm, Permᴰ, Perm-prop}
use mathlib.Core.List.Perm
use mathlib.Core.List.Permᴰ
use semestr.Prelude.{
  ◌≡◌, refl, ap, sym, ◌∙◌, subst, List, [], ◌∷◌, ◌++◌, append_assoc, if◌then◌else◌,
}
use semestr.Prelude.{true, false}
use semestr.CString.{Text}
use semestr.DirSearch.{Stat, Tree, file, dir, Entries, end, entry, Query, fn, is_dot, dir_info_nftw}

-- The files that are no directories, through the directories that can be opened.
abbrev mutual
  pub reached : List Text → Tree → List (List Text × Stat)
  reached path (file s) = (path, s) ∷ []
  reached path (dir true es) = reached_entries path es
  reached path (dir false es) = []

  pub reached_entries : List Text → Entries → List (List Text × Stat)
  reached_entries path end = []
  reached_entries path (entry name t es) =
      let rest = reached_entries path es in
      let here = reached (path ++ name ∷ []) t in if is_dot name then rest else here ++ rest

module _ (q : Query) where
  pub dir_info_nftw-append :
      (v w : List (List Text × Stat))
      → dir_info_nftw q (v ++ w) ≡ dir_info_nftw q v ++ dir_info_nftw q w
  unfolding dir_info_nftw
  dir_info_nftw-append [] w = refl
  dir_info_nftw-append (f ∷ v) w =
      ap (λ out. fn q f.0 f.1 ++ out) (dir_info_nftw-append v w)
      ∙ sym (append_assoc (fn q f.0 f.1) (dir_info_nftw q v) (dir_info_nftw q w))

  -- The calls for two files in the other order.
  swapped :
      (f g : List Text × Stat) (v : List (List Text × Stat))
      → Perm (dir_info_nftw q (f ∷ g ∷ v)) (dir_info_nftw q (g ∷ f ∷ v))
  unfolding dir_info_nftw
  swapped f g v =
      let a = fn q f.0 f.1 in
      let b = fn q g.0 g.1 in
      let rest = dir_info_nftw q v in
      subst (λ out. Perm out (b ++ (a ++ rest))) (append_assoc a b rest)
        (subst (λ out. Perm ((a ++ b) ++ rest) out) (append_assoc b a rest)
          (Perm.append_right rest ∣ Permᴰ.append_comm a b ∣₁))

  nftw_permuted :
      {v w : List (List Text × Stat)} → Permᴰ v w → Perm (dir_info_nftw q v) (dir_info_nftw q w)
  unfolding dir_info_nftw
  nftw_permuted Permᴰ.nil = Perm.refl []
  nftw_permuted (Permᴰ.cons {a} {b} e d) =
      Perm.append (subst (λ f. Perm (fn q a.0 a.1) (fn q f.0 f.1)) e (Perm.refl (fn q a.0 a.1)))
        (nftw_permuted d)
  nftw_permuted (Permᴰ.swap {a} {b} {a'} {b'} {l} e f) =
      subst (λ g. Perm (dir_info_nftw q (a ∷ b ∷ l)) (dir_info_nftw q (g ∷ b' ∷ l))) f
        (subst (λ g. Perm (dir_info_nftw q (a ∷ b ∷ l)) (dir_info_nftw q (b ∷ g ∷ l))) e
          (swapped a b l))
  nftw_permuted (Permᴰ.trans d e) = Perm.trans (nftw_permuted d) (nftw_permuted e)

  pub dir_info_nftw-Perm :
      {v w : List (List Text × Stat)} → Perm v w → Perm (dir_info_nftw q v) (dir_info_nftw q w)
  dir_info_nftw-Perm p = ∥∥₁_elim p Perm-prop nftw_permuted
