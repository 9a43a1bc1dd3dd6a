-- ===== src/Records/Insertion.antt =====
-- The order that `sort` of SysOpy/lab2/src/zad1/zad1.c works towards, on lists of records: the
-- insertion of a record into a sorted list, walking down from the list's end.
use mathlib.Core.List.{Perm}
use mathlib.Core.List.Perm
use semestr.Prelude.{
  ℕ, ◌≤◌, ◌≡◌, refl, ◌∙◌, sym, subst, append-nil, append_assoc, List, [], ◌∷◌, ◌++◌, arith, inl,
  inr, Bool-cases, ltb, if◌then◌else◌,
}
use semestr.Records.{Bytes, key}

-- `rp` backwards, then `l`: the records before a place, nearest first, and those from it on.
abbrev pub rev_onto : List Bytes → List Bytes → List Bytes
rev_onto [] l = l
rev_onto (y ∷ rp) l = rev_onto rp (y ∷ l)

-- The keys rise (weakly) along the list, from `lo` on.
abbrev pub Ascending : ℕ → List Bytes → Type 0
Ascending lo [] = Unit {0}
Ascending lo (x ∷ xs) = (lo ≤ key x) × Ascending (key x) xs

-- Insert `x` below the last record, of those before the place, whose key is not above its own.
abbrev pub insert : Bytes → List Bytes → List Bytes → List Bytes
insert x [] s = x ∷ s
insert x (y ∷ rp) s = if ltb (key x) (key y) then insert x rp (y ∷ s) else rev_onto rp (y ∷ x ∷ s)

-- Sort the second list into the first, which is sorted.
abbrev pub insert_all : List Bytes → List Bytes → List Bytes
insert_all p [] = p
insert_all p (x ∷ t) = insert_all (insert x (rev_onto p []) []) t

pub rev_onto_rev : (p q t : List Bytes) → rev_onto (rev_onto p q) t ≡ rev_onto q (p ++ t)
rev_onto_rev [] q t = refl
rev_onto_rev (x ∷ p) q t = rev_onto_rev p (x ∷ q) t

pub rev_onto-append : (rp s t : List Bytes) → rev_onto rp s ++ t ≡ rev_onto rp (s ++ t)
rev_onto-append [] s t = refl
rev_onto-append (y ∷ rp) s t = rev_onto-append rp (y ∷ s) t

rev_onto-perm :
    (rp : List Bytes) {l m : List Bytes} → Perm l m → Perm (rev_onto rp l) (rev_onto rp m)
rev_onto-perm [] h = h
rev_onto-perm (y ∷ rp) h = rev_onto-perm rp (Perm.cons y h)

insert-perm : (x : Bytes) (rp s : List Bytes) → Perm (insert x rp s) (rev_onto rp (x ∷ s))
insert-perm x [] s = Perm.refl (x ∷ s)
insert-perm x (y ∷ rp) s = elim (Bool-cases (ltb (key x) (key y))) [
  | inl e ↦ rw e (Perm.trans (insert-perm x rp (y ∷ s)) (rev_onto-perm rp (Perm.swap y x s)))
  | inr e ↦ rw e (rev_onto-perm rp (Perm.refl (y ∷ x ∷ s)))
]

pub insert_all-perm : (p t : List Bytes) → Perm (insert_all p t) (p ++ t)
insert_all-perm p [] = rw (append-nil p) (Perm.refl p)
insert_all-perm p (x ∷ t) = Perm.trans (insert_all-perm (insert x (rev_onto p []) []) t) (
    rw (← append_assoc p (x ∷ []) t)
      (Perm.append_right t (rw (← rev_onto_rev p [] (x ∷ [])) (insert-perm x (rev_onto p []) []))))

-- What holds of every lower bound passes through the records before a place.
rev_onto-Ascending :
    (rp l m : List Bytes)
    → ((lo : ℕ) → Ascending lo l → Ascending lo m)
    → (lo : ℕ) → Ascending lo (rev_onto rp l)
    → Ascending lo (rev_onto rp m)
rev_onto-Ascending [] l m f lo h = f lo h
rev_onto-Ascending (y ∷ rp) l m f lo h =
    rev_onto-Ascending rp (y ∷ l) (y ∷ m) (λ k a. (a.0, f (key y) a.1)) lo h

Ascending-rev_onto :
    (rp l : List Bytes) (lo : ℕ) → Ascending lo (rev_onto rp l) → (k : ℕ) × Ascending k l
Ascending-rev_onto [] l lo h = (lo, h)
Ascending-rev_onto (y ∷ rp) l lo h = let (k, a) = Ascending-rev_onto rp (y ∷ l) lo h in (key y, a.1)

insert-Ascending :
    (x : Bytes) (rp s : List Bytes)
    → Ascending 0 (rev_onto rp s)
    → Ascending (key x) s
    → Ascending 0 (insert x rp s)
insert-Ascending x [] s h above = (omega arith, above)
insert-Ascending x (y ∷ rp) s h above = elim (Bool-cases (ltb (key x) (key y))) [
  | inl e ↦
      rw e (insert-Ascending x rp (y ∷ s) h (ground arith, (Ascending-rev_onto rp (y ∷ s) 0 h).1.1))
  | inr e ↦
      rw e (rev_onto-Ascending rp (y ∷ s) (y ∷ x ∷ s) (λ lo a. (a.0, (ground arith, above))) 0 h)
]

pub insert_all-Ascending : (p t : List Bytes) → Ascending 0 p → Ascending 0 (insert_all p t)
insert_all-Ascending p [] h = h
insert_all-Ascending p (x ∷ t) h =
    let start : Ascending 0 (rev_onto (rev_onto p []) []) =
      subst (Ascending 0) (sym (rev_onto_rev p [] [] ∙ append-nil p)) h in
    insert_all-Ascending (insert x (rev_onto p []) []) t
      (insert-Ascending x (rev_onto p []) [] start tt)
