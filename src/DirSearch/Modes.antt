-- ===== src/DirSearch/Modes.antt =====
-- The two modes of SysOpy/lab2/src/zad2/zad2.c against each other.
use mathlib.Core.List.{Perm}
use mathlib.Core.List.Perm
use semestr.Prelude.{
  ◌≡◌, ◌≢◌, refl, ap, sym, ◌∙◌, append-nil, Bool-cases, inl, inr, Bool, true, false, ◌&&◌, ◌||◌,
  List, [], ◌∷◌, ◌++◌, arith, if◌then◌else◌,
}
use semestr.CString.{Text, same_text}
use semestr.DirSearch.{
  Kind, regular, symlink, other, is_dot, Stat, Tree, file, dir, Entries, end, entry, equal, greater,
  less, Out, listed, Query, passes, fn, keep_on, show_file, dir_info_stat, dir_info_entries,
  dir_info_nftw, at_entry, is_ftw_f, is_regular, by_stat, by_nftw, parse,
}
use semestr.DirSearch.Walk.{reached, reached_entries, dir_info_nftw-append}

-- The operator is one of the three of the help.
abbrev pub is_known : Query → Bool
is_known q = same_text q.operator equal || same_text q.operator greater || same_text q.operator less

-- There are no devices, FIFOs or sockets in the tree.
unfoldable mutual
  pub Plain : Tree → Type 0
  Plain (file s) = s.kind ≢ other
  Plain (dir r es) = PlainEntries es

  pub PlainEntries : Entries → Type 0
  PlainEntries end = Unit {0}
  PlainEntries (entry name t es) = Plain t × PlainEntries es

-- All directories of the tree can be opened.
unfoldable mutual
  pub Open : Tree → Type 0
  Open (file s) = Unit {0}
  Open (dir r es) = (r ≡ true) × OpenEntries es

  pub OpenEntries : Entries → Type 0
  OpenEntries end = Unit {0}
  OpenEntries (entry name t es) = Open t × OpenEntries es

same_kinds : (k : Kind) → k ≢ other → is_ftw_f k ≡ is_regular k
same_kinds regular plain = refl
same_kinds symlink plain = refl
same_kinds other plain = absurd (plain refl)

-- A chain of three tests does not reach its end when one of them holds.
last_unused :
    (a b c x y z u v : Bool)
    → a || b || c ≡ true
    → (if a then x else if b then y else if c then z else u)
      ≡ (if a then x else if b then y else if c then z else v)
last_unused a b c x y z u v e = ground arith

module _ (q : Query) (known : is_known q ≡ true) where
  fn-show_file : (path : List Text) (s : Stat) → s.kind ≢ other → fn q path s ≡ show_file q path s
  unfolding fn passes
  fn-show_file path s plain =
      rw
        (
          same_kinds s.kind plain,
          last_unused (same_text q.operator equal) (same_text q.operator greater)
              (same_text q.operator less) _ _ _ false true known,
        )
        refl

  pub fn_only :
      (path : List Text) (s : Stat)
      → s.kind ≢ other
      → show_file q path s ≡ dir_info_nftw q (reached path (file s))
  unfolding dir_info_nftw
  fn_only path s plain = sym (append-nil (fn q path s) ∙ fn-show_file path s plain)

  mutual
    unfolding dir_info_stat Plain Open dir_info_nftw

    tree_lem :
        (path : List Text) (t : Tree)
        → Plain t
        → Open t
        → at_entry q path (dir_info_stat q path t) t ≡ keep_on (dir_info_nftw q (reached path t))
    tree_lem path (file s) plain open' = ap keep_on (fn_only path s plain)
    tree_lem path (dir true es) plain open' = entries_lem path es plain open'.1
    tree_lem path (dir false es) plain open' = cc

    entries_lem :
        (path : List Text) (es : Entries)
        → PlainEntries es
        → OpenEntries es
        → dir_info_entries q path es ≡ keep_on (dir_info_nftw q (reached_entries path es))
    entries_lem path end plain open' = refl
    entries_lem path (entry name t es) plain open' = elim (Bool-cases (is_dot name)) [
      | inl dot ↦ rw dot (entries_lem path es plain.1 open'.1)
      | inr real ↦
          rw
            (
              real,
              tree_lem (path ++ name ∷ []) t plain.0 open'.0,
              entries_lem path es plain.1 open'.1,
              dir_info_nftw-append q (reached (path ++ name ∷ []) t) (reached_entries path es),
            )
            refl
    ]

none_of : (a b c : Bool) → a || b || c ≡ false → (a ≡ false) × (b ≡ false) × (c ≡ false)
none_of a b c e = ground arith

never : (a : Bool) (out : List Out) → (if a && false then out else []) ≡ []
never a out = ground arith

-- `parse` takes any operator. For one that is none of the three, mode 0 lists every regular file,
-- and mode 1 none.
pub unknown_operator :
    (q : Query)
    → is_known q ≡ false
    → (parse 5 q.operator 0 ≡ by_stat)
      × (parse 5 q.operator 1 ≡ by_nftw)
      × ((path : List Text) (s : Stat)
          → (fn q path s ≡ []) × (s.kind ≡ regular → show_file q path s ≡ listed path s ∷ []))
unfolding parse fn passes
unknown_operator q unknown =
    let (no_equal, no_greater, no_less) =
      none_of (same_text q.operator equal) (same_text q.operator greater)
        (same_text q.operator less) unknown in
    (
      rw no_equal refl,
      rw no_equal refl,
      λ path s. (
        rw (no_equal, no_greater, no_less) (never (is_ftw_f s.kind) _),
        λ is. rw (is, no_equal, no_greater, no_less) refl,
      ),
    )
