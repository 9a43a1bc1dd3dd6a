-- ===== src/Blocks/Sums.antt =====
-- `sumChar` of SysOpy/lab1/src/zad1/blocklibrary.c, over the characters of a block.
use semestr.Prelude.{
  sym, ap, ◌∙◌, true, take, drop, leb, ◌^◌, ℕ, zero, suc, ◌+◌, ◌*◌, ◌≤◌, ◌≡◌, refl, some, [], ◌∷◌,
  get_elem?, length, arith, get_elem?-eq-some,
}
use semestr.Prelude.Int.{ℤ, pos, pos_part, neg_part, ◌+ℤ◌, +ℤ_bounds, +ℤ_parts, eq_of_parts}
use semestr.Blocks.{Block, max_block_size, sum_from, sum_char}

-- Every character lies between -128 and 127.
abbrev pub AllChars : Block → Type 0
AllChars [] = Unit {0}
AllChars (c ∷ cs) = (pos_part c ≤ 127) × (neg_part c ≤ 128) × AllChars cs

AllChars-get_elem? :
    (block : Block) (i : ℕ) (c : ℤ)
    → AllChars block
    → get_elem? block i ≡ some c
    → (pos_part c ≤ 127) × (neg_part c ≤ 128)
AllChars-get_elem? [] i c h e = absurd (cc)
AllChars-get_elem? (d ∷ block) zero c h e = ground arith
AllChars-get_elem? (d ∷ block) (suc i) c h e = AllChars-get_elem? block i c h.2 e

sum_from-bounds :
    (block : Block) (n i : ℕ) (sum : ℤ)
    → AllChars block
    → i + n ≤ length block
    → (s : ℤ) × (sum_from block n i sum ≡ some s)
      × (pos_part s ≤ pos_part sum + 127 * n)
      × (neg_part s ≤ neg_part sum + 128 * n)
unfolding sum_from
sum_from-bounds block zero i sum h k = (sum, refl, omega arith, omega arith)
sum_from-bounds block (suc n) i sum h k =
    let (c, e) = get_elem?-eq-some block i (omega arith) in
    let small = AllChars-get_elem? block i c h e in
    let (s, f, up, down) = sum_from-bounds block n (i + 1) (sum +ℤ c) h (omega arith) in
    (s, rw e f, omega (arith, +ℤ_bounds sum c), omega (arith, +ℤ_bounds sum c))

-- The sum of a list of characters.
abbrev pub total : Block → ℤ
total [] = pos 0
total (c ∷ cs) = c +ℤ total cs

+ℤ_zero : (a : ℤ) → a +ℤ pos 0 ≡ a
+ℤ_zero a = eq_of_parts (a +ℤ pos 0) a (omega (arith, +ℤ_parts a (pos 0)))

+ℤ_assoc : (a b c : ℤ) → (a +ℤ b) +ℤ c ≡ a +ℤ (b +ℤ c)
+ℤ_assoc a b c =
    eq_of_parts ((a +ℤ b) +ℤ c) (a +ℤ (b +ℤ c))
      (omega (arith, +ℤ_parts (a +ℤ b) c, +ℤ_parts a b, +ℤ_parts a (b +ℤ c), +ℤ_parts b c))

drop-get_elem? :
    (block : Block) (i : ℕ) (c : ℤ)
    → get_elem? block i ≡ some c
    → drop i block ≡ c ∷ drop (i + 1) block
drop-get_elem? [] i c e = absurd (cc)
drop-get_elem? (d ∷ block) zero c e = let same : d ≡ c = cc in rw (← same) refl
drop-get_elem? (d ∷ block) (suc i) c e =
    let next : suc i + 1 ≡ suc (i + 1) = omega arith in rw next (drop-get_elem? block i c e)

sum_from-total :
    (block : Block) (n i : ℕ) (sum : ℤ)
    → i + n ≤ length block
    → sum_from block n i sum ≡ some (sum +ℤ total (take n (drop i block)))
unfolding sum_from
sum_from-total block zero i sum h = ap some (sym (+ℤ_zero sum))
sum_from-total block (suc n) i sum h =
    let (c, e) = get_elem?-eq-some block i (omega arith) in
    let next = sum_from-total block n (i + 1) (sum +ℤ c) (omega arith) in
    rw (e, drop-get_elem? block i c e)
      (next ∙ ap some (+ℤ_assoc sum c (total (take n (drop (i + 1) block)))))

zero_+ℤ : (a : ℤ) → pos 0 +ℤ a ≡ a
zero_+ℤ a = eq_of_parts (pos 0 +ℤ a) a (omega (arith, +ℤ_parts (pos 0) a))

-- Over a block of at least `block_size` characters, no more than 2^23, `sumChar` is the sum of its first
-- `block_size` characters, and lies between -2^30 and 2^30, where no `int` overflows.
pub sum_char-bounds :
    (block : Block) (block_size : ℕ)
    → AllChars block
    → block_size ≤ max_block_size
    → block_size ≤ length block
    → (s : ℤ) × (sum_char block block_size ≡ some s)
      × (s ≡ total (take block_size block))
      × (pos_part s ≤ 127 * block_size)
      × (neg_part s ≤ 128 * block_size)
      × (pos_part s ≤ 2 ^ 30)
      × (neg_part s ≤ 2 ^ 30)
unfolding sum_char
sum_char-bounds block block_size h fits k =
    let (s, e, up, down) = sum_from-bounds block block_size 0 (pos 0) h (omega arith) in
    let sum = sum_from-total block block_size 0 (pos 0) (omega arith) in
    let whole : pos 0 +ℤ total (take block_size block) ≡ s = cc in
    let within : leb block_size max_block_size ≡ true = ground arith in
    (
      s,
      rw (sum_char, within) e,
      sym whole ∙ zero_+ℤ (total (take block_size block)),
      omega arith,
      omega arith,
      omega arith,
      omega arith,
    )
