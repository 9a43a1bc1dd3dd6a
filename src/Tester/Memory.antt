-- ===== src/Tester/Memory.antt =====
-- The blocks of an array that are all the blocks of the heap, and what `calloc` and `free` make of them.
use semestr.Prelude.{
  ℕ, ◌+◌, ◌≤◌, ◌≡◌, ◌≢◌, refl, sym, ◌∙◌, subst, ℕ_discrete, ◌⊎◌, inl, inr, none, some, List, [],
  ◌∷◌, ◌++◌, arith, length, ◌==◌, if◌then◌else◌,
}
use semestr.Blocks.{Block, Pointer, Heap, free}
use semestr.Blocks.Release.{PointsTo, Owns, freed_other, freed_self}
use semestr.Tester.{allocate}

-- All pointers are to blocks of their own, of `n` characters.
abbrev pub Holds : ℕ → Heap → List Pointer → Type 0
Holds n h [] = Unit {0}
Holds n h (none ∷ ps) = ⊥
Holds n h (some p ∷ ps) =
    ((b : Block) × (h p ≡ some b) × (length b ≡ n)) × (¬ (PointsTo p ps)) × Holds n h ps

-- These are all blocks of the heap, and addresses from `next` on are unused.
pub record Good (n : ℕ) (h : Heap) (next : ℕ) (ps : List Pointer) : Type 0 where
  pub holds : Holds n h ps
  pub only : (q : ℕ) → ¬ (PointsTo q ps) → h q ≡ none
  pub fresh : (q : ℕ) → next ≤ q → h q ≡ none

pub Holds-Owns : (n : ℕ) (h : Heap) (ps : List Pointer) → Holds n h ps → Owns h ps
Holds-Owns n h [] v = tt
Holds-Owns n h (none ∷ ps) v = absurd v
Holds-Owns n h (some p ∷ ps) ((b, e, l), once, rest) = ((b, e), once, Holds-Owns n h ps rest)

-- What a block is held by is allocated.
Holds-live :
    (n : ℕ) (h : Heap) (ps : List Pointer) (q : ℕ) → Holds n h ps → PointsTo q ps → h q ≢ none
Holds-live n h [] q v i e = i
Holds-live n h (none ∷ ps) q v i e = v
Holds-live n h (some p ∷ ps) q ((b, f, l), once, rest) i e = elim i [
  | inl same ↦ let here : h q ≡ some b = subst (λ x. h x ≡ some b) same f in absurd cc
  | inr later ↦ Holds-live n h ps q rest later e
]

Holds-frame :
    (n : ℕ) (h h' : Heap) (ps : List Pointer)
    → ((q : ℕ) → PointsTo q ps → h' q ≡ h q)
    → Holds n h ps
    → Holds n h' ps
Holds-frame n h h' [] same v = tt
Holds-frame n h h' (none ∷ ps) same v = v
Holds-frame n h h' (some p ∷ ps) same ((b, e, l), once, rest) =
    ((b, same p (inl refl) ∙ e, l), once, Holds-frame n h h' ps (λ q i. same q (inr i)) rest)

PointsTo-insert :
    (ps qs : List Pointer) (a q : ℕ)
    → PointsTo q (ps ++ some a ∷ qs)
    → (a ≡ q) ⊎ PointsTo q (ps ++ qs)
PointsTo-insert [] qs a q i = i
PointsTo-insert (none ∷ ps) qs a q i = PointsTo-insert ps qs a q i
PointsTo-insert (some p ∷ ps) qs a q (inl e) = inr (inl e)
PointsTo-insert (some p ∷ ps) qs a q (inr i) = elim (PointsTo-insert ps qs a q i) [
  | inl e ↦ inl e
  | inr j ↦ inr (inr j)
]

PointsTo-inserted :
    (ps qs : List Pointer) (a q : ℕ)
    → (a ≡ q) ⊎ PointsTo q (ps ++ qs)
    → PointsTo q (ps ++ some a ∷ qs)
PointsTo-inserted [] qs a q i = i
PointsTo-inserted (none ∷ ps) qs a q i = PointsTo-inserted ps qs a q i
PointsTo-inserted (some p ∷ ps) qs a q (inl e) = inr (PointsTo-inserted ps qs a q (inl e))
PointsTo-inserted (some p ∷ ps) qs a q (inr (inl e)) = inl e
PointsTo-inserted (some p ∷ ps) qs a q (inr (inr i)) = inr (PointsTo-inserted ps qs a q (inr i))

allocate_other : (h : Heap) (a q : ℕ) (b : Block) → a ≢ q → allocate h a b q ≡ h q
allocate_other h a q b ne = ground arith

allocate_self : (h : Heap) (a : ℕ) (b : Block) → allocate h a b a ≡ some b
allocate_self h a b = ground arith

unused_apart :
    (n : ℕ) (h : Heap) (ps : List Pointer) (a q : ℕ)
    → Holds n h ps
    → h a ≡ none
    → PointsTo q ps
    → a ≢ q
unused_apart n h ps a q v e i same = Holds-live n h ps q v i (subst (λ x. h x ≡ none) same e)

Holds-insert :
    (n : ℕ) (h : Heap) (ps qs : List Pointer) (a : ℕ) (b : Block)
    → Holds n h (ps ++ qs)
    → h a ≡ none
    → length b ≡ n
    → Holds n (allocate h a b) (ps ++ some a ∷ qs)
Holds-insert n h [] qs a b v e l = (
  (b, allocate_self h a b, l),
  (λ i. Holds-live n h qs a v i e),
  Holds-frame n h (allocate h a b) qs
      (λ q i. allocate_other h a q b (unused_apart n h qs a q v e i)) v,
)
Holds-insert n h (none ∷ ps) qs a b v e l = absurd v
Holds-insert n h (some p ∷ ps) qs a b ((c, f, m), once, rest) e l =
    let apart : a ≢ p =
      λ same. (let here : h a ≡ some c = subst (λ x. h x ≡ some c) (sym same) f in absurd cc) in
    (
      (c, allocate_other h a p b apart ∙ f, m),
      (λ i. elim (PointsTo-insert ps qs a p i) [ inl same ↦ apart same | inr j ↦ once j ]),
      Holds-insert n h ps qs a b rest e l,
    )

-- A new block at any place among the others.
pub Good-allocate :
    (n : ℕ) (h : Heap) (next : ℕ) (ps qs : List Pointer) (b : Block)
    → length b ≡ n
    → Good n h next (ps ++ qs)
    → Good n (allocate h next b) (next + 1) (ps ++ some next ∷ qs)
Good-allocate n h next ps qs b l good = record {
  holds = Holds-insert n h ps qs next b good.holds (good.fresh next (omega arith)) l;
  only = λ q i.
      allocate_other h next q b (λ same. i (PointsTo-inserted ps qs next q (inl same)))
      ∙ good.only q (λ j. i (PointsTo-inserted ps qs next q (inr j)));
  fresh =
      λ q le. allocate_other h next q b (λ same. absurd (omega arith)) ∙ good.fresh q (omega arith);
}

-- `free` of the first block.
pub Good-free :
    (n : ℕ) (h : Heap) (next p : ℕ) (ps : List Pointer)
    → Good n h next (some p ∷ ps)
    → (h' : Heap) × (free h (some p) ≡ some h') × Good n h' next ps
unfolding free
Good-free n h next p ps good =
    let ((b, e, l), once, rest) = good.holds in
    let freed : Heap = λ q. if p == q then none else h q in
    (
      freed,
      rw e refl,
      record {
        holds =
            Holds-frame n h freed ps
              (λ q i. freed_other h p q (λ same. once (subst (λ x. PointsTo x ps) (sym same) i)))
              rest;
        only = λ q i. elim (ℕ_discrete p q) [
          | yes same ↦ freed_self h p q same
          | no other ↦
              freed_other h p q other
              ∙ good.only q (λ j. elim j [ inl same ↦ other same | inr k ↦ i k ])
        ];
        fresh = λ q le. elim (ℕ_discrete p q) [
          | yes same ↦ freed_self h p q same
          | no other ↦ freed_other h p q other ∙ good.fresh q le
        ];
      },
    )

pub PointsTo-cases : (q : ℕ) (ps : List Pointer) → PointsTo q ps ⊎ (¬ (PointsTo q ps))
PointsTo-cases q [] = inr (λ i. i)
PointsTo-cases q (none ∷ ps) = PointsTo-cases q ps
PointsTo-cases q (some p ∷ ps) = elim (ℕ_discrete p q) [
  | yes same ↦ inl (inl same)
  | no other ↦ elim (PointsTo-cases q ps) [
    | inl i ↦ inl (inr i)
    | inr out ↦ inr (λ j. elim j [ inl same ↦ other same | inr i ↦ out i ])
  ]
]
