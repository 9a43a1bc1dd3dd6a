-- ===== src/Records/Copy.antt =====
-- `copy` of SysOpy/lab2/src/zad1/zad1.c copies a prefix of the source.
use semestr.Prelude.{
  ℕ, zero, suc, ◌-◌, ◌*◌, ◌<◌, ◌≡◌, refl, ◌∙◌, ap, some, [], ◌∷◌, ◌++◌, append-nil, append_assoc,
  length, take, drop, length-drop, arith, if◌then◌else◌, ltb,
}
use semestr.Records.{Bytes, copy_loop, copy}

pub take-nil : (n : ℕ) → take {A = ℕ} n [] ≡ []
take-nil zero = refl
take-nil (suc n) = refl

-- What one round writes: of the `size` bytes read, no more than `m`.
abbrev written : ℕ → ℕ → Bytes → Bytes
written size m source =
    if ltb (length (take size source)) m then take size source else take m (take size source)

-- What a round writes, and a prefix of the rest, make up a prefix of the source.
written-append :
    (size m : ℕ) (source : Bytes)
    → written size m source ++ take (m - length (take size source)) (drop size source)
      ≡ take m source
written-append zero zero source = refl
written-append zero (suc m) source = ground arith
written-append (suc size) m [] = ground (arith, take-nil m, take-nil (m - 0))
written-append (suc size) zero (x ∷ xs) = ground arith
written-append (suc size) (suc m) (x ∷ xs) = ground (arith, written-append size m xs)

-- The same after what the destination holds already.
dest-append :
    (size m : ℕ) (source dest : Bytes)
    → (dest ++ written size m source) ++ take (m - length (take size source)) (drop size source)
      ≡ dest ++ take m source
dest-append size m source dest =
    append_assoc dest (written size m source) _ ∙ ap (◌++◌ dest) (written-append size m source)

pub copy_loop_lem :
    (fuel size : ℕ) (source : Bytes) (m : ℕ) (dest : Bytes)
    → 0 < size
    → length source < fuel
    → copy_loop fuel size source m dest ≡ some (dest ++ take m source)
unfolding copy_loop
copy_loop_lem zero size source m dest h k = absurd (omega arith)
copy_loop_lem (suc fuel) zero source m dest h k = elim h [ ]
copy_loop_lem (suc fuel) (suc size) [] m dest h k = rw (take-nil m, append-nil dest)
copy_loop_lem (suc fuel) (suc size) (x ∷ xs) zero dest h k = ground (arith, append-nil dest)
copy_loop_lem (suc fuel) (suc size) (x ∷ xs) (suc m) dest h k =
    let source : Bytes = x ∷ xs in
    let left : ℕ = suc m - length (take (suc size) source) in
    let more : Bytes = dest ++ written (suc size) (suc m) source in
    ground (
      arith,
      copy_loop_lem fuel (suc size) (drop size xs) left more h (omega (arith, length-drop size xs)),
      dest-append (suc size) (suc m) source dest,
    )

-- With a buffer of at least one byte, `copy` ends, and the destination holds the first `howManyRecords *
-- recordSize` bytes of the source, or all of it if it is shorter, whatever the size of the buffer.
pub copy_lem :
    (how_many buffer_size record_size : ℕ) (source : Bytes)
    → 0 < buffer_size
    → copy how_many buffer_size record_size source ≡ some (take (how_many * record_size) source)
unfolding copy
copy_lem how_many buffer_size record_size source h =
    copy_loop_lem (suc (length source)) buffer_size source (how_many * record_size) [] h
      (omega arith)
