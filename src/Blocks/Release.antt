-- ===== src/Blocks/Release.antt =====
-- `deleteArrayDynamic` of SysOpy/lab1/src/zad1/blocklibrary.c frees every block once.
use semestr.Prelude.{
  ℕ, ◌≡◌, ◌≢◌, refl, ◌∙◌, sym, subst, ◌⊎◌, inl, inr, none, some, List, [], ◌∷◌, arith, ◌==◌,
  if◌then◌else◌,
}
use semestr.Blocks.{Block, Pointer, Heap, delete_array_dynamic}

-- The array points to the block at `q`.
abbrev pub PointsTo : ℕ → List Pointer → Type 0
PointsTo q [] = ⊥
PointsTo q (none ∷ ps) = PointsTo q ps
PointsTo q (some p ∷ ps) = (p ≡ q) ⊎ PointsTo q ps

-- The pointers of the array that are not null are distinct, and each is to an allocated block.
abbrev pub Owns : Heap → List Pointer → Type 0
Owns h [] = Unit {0}
Owns h (none ∷ ps) = Owns h ps
Owns h (some p ∷ ps) = ((b : Block) × (h p ≡ some b)) × (¬ (PointsTo p ps)) × Owns h ps

-- What matters of the heap is what the array points to.
Owns-frame :
    (h h' : Heap) (ps : List Pointer)
    → ((q : ℕ) → PointsTo q ps → h' q ≡ h q)
    → Owns h ps
    → Owns h' ps
Owns-frame h h' [] same v = tt
Owns-frame h h' (none ∷ ps) same v = Owns-frame h h' ps same v
Owns-frame h h' (some p ∷ ps) same (live, once, rest) =
    ((live.0, same p (inl refl) ∙ live.1), once, Owns-frame h h' ps (λ q i. same q (inr i)) rest)

pub freed_other : (h : Heap) (p q : ℕ) → p ≢ q → (if p == q then none else h q) ≡ h q
freed_other h p q ne = ground arith

pub freed_self : (h : Heap) (p q : ℕ) → p ≡ q → (if p == q then none else h q) ≡ none
freed_self h p q e = ground arith

-- With distinct allocated blocks `deleteArrayDynamic` frees no block twice, leaves none of the
-- array's blocks allocated, and keeps all other blocks.
pub delete_array_dynamic_lem :
    (h : Heap) (ps : List Pointer)
    → Owns h ps
    → (h' : Heap) × (delete_array_dynamic h ps ≡ some h')
      × ((q : ℕ) → PointsTo q ps → h' q ≡ none)
      × ((q : ℕ) → ¬ (PointsTo q ps) → h' q ≡ h q)
unfolding delete_array_dynamic
delete_array_dynamic_lem h [] v = (h, refl, λ q i. absurd i, λ q i. refl)
delete_array_dynamic_lem h (none ∷ ps) v = delete_array_dynamic_lem h ps v
delete_array_dynamic_lem h (some p ∷ ps) ((b, e), once, rest) =
    let freed : Heap = λ q. if p == q then none else h q in
    let out : (q : ℕ) → PointsTo q ps → p ≢ q =
      λ q i e. once (subst (λ x. PointsTo x ps) (sym e) i) in
    let owns = Owns-frame h freed ps (λ q i. freed_other h p q (out q i)) rest in
    let (h', f, gone, kept) = delete_array_dynamic_lem freed ps owns in
    let gone_now : (q : ℕ) → PointsTo q (some p ∷ ps) → h' q ≡ none = λ q i. elim i [
      | inl same ↦ kept q (λ z. out q z same) ∙ freed_self h p q same
      | inr later ↦ gone q later
    ] in
    let kept_now : (q : ℕ) → ¬ (PointsTo q (some p ∷ ps)) → h' q ≡ h q =
      λ q i. kept q (λ z. i (inr z)) ∙ freed_other h p q (λ z. i (inl z)) in
    (h', rw e f, gone_now, kept_now)
