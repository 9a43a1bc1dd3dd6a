-- ===== src/Queues/Calc.antt =====
-- The request CALC of SysOpy/lab6/src/zad1/server.c.
use semestr.Prelude.{ℕ, ◌≡◌, refl, ◌∙◌, true, false, some, [], ◌∷◌, ◌++◌, arith}
use semestr.Prelude.Int.{pos, ◌-ℤ◌}
use semestr.CString.{Text, has, atoi, signed_value, digits_value}
use semestr.CString.Tokens.{Plain, strtok-token, strtok-last}
use semestr.Queues.{operator, compute, calculate}

-- The operators, and the delimiters of the first number.
abbrev pub ops : Text
ops = b'+' ∷ b'-' ∷ b'/' ∷ b'*' ∷ []

abbrev pub ends_number : Text
ends_number = b' ' ∷ b'+' ∷ b'-' ∷ b'*' ∷ b'/' ∷ 10 ∷ []

no_operator : (c : ℕ) → has ends_number c ≡ false → has ops c ≡ false
no_operator c e = ground arith

is_delimiter : (c : ℕ) → has ops c ≡ true → has ends_number c ≡ true
is_delimiter c e = ground arith

operator-skip : (a rest : Text) → Plain ends_number a → operator (a ++ rest) ≡ operator rest
unfolding operator
operator-skip [] rest h = refl
operator-skip (c ∷ a) rest h = rw (no_operator c h.0) (operator-skip a rest h.1)

-- Without blanks, "a op b" is computed from its two numbers.
pub calculate-tight :
    (a0 op b0 : ℕ) (a b : Text)
    → Plain ends_number (a0 ∷ a)
    → has ops op ≡ true
    → Plain (10 ∷ []) (b0 ∷ b)
    → calculate ((a0 ∷ a) ++ op ∷ b0 ∷ b) ≡ some (compute op (atoi (a0 ∷ a)) (atoi (b0 ∷ b)))
unfolding calculate operator
calculate-tight a0 op b0 a b ha ho hb =
    let found : operator ((a0 ∷ a) ++ op ∷ b0 ∷ b) ≡ some op =
      operator-skip (a0 ∷ a) (op ∷ b0 ∷ b) ha ∙ rw ho refl in
    rw
      (
        found,
        strtok-token ends_number a0 a op (b0 ∷ b) ha (is_delimiter op ho),
        strtok-last (10 ∷ []) b0 b hb,
      )
      refl

starts_no_number : (op : ℕ) (b : Text) → has ops op ≡ true → atoi (op ∷ b' ' ∷ b) ≡ pos 0
unfolding atoi signed_value digits_value ◌-ℤ◌
starts_no_number op b h = ground arith

-- With a blank on each side of the operator, the second number is read from the operator on, and
-- is 0 whatever it is.
pub calculate-spaced :
    (a0 op : ℕ) (a b : Text)
    → Plain ends_number (a0 ∷ a)
    → has ops op ≡ true
    → Plain (10 ∷ []) b
    → calculate ((a0 ∷ a) ++ b' ' ∷ op ∷ b' ' ∷ b) ≡ some (compute op (atoi (a0 ∷ a)) (pos 0))
unfolding calculate operator
calculate-spaced a0 op a b ha ho hb =
    let found : operator ((a0 ∷ a) ++ b' ' ∷ op ∷ b' ' ∷ b) ≡ some op =
      operator-skip (a0 ∷ a) (b' ' ∷ op ∷ b' ' ∷ b) ha ∙ rw ho refl in
    rw
      (
        found,
        strtok-token ends_number a0 a b' ' (op ∷ b' ' ∷ b) ha refl,
        strtok-last (10 ∷ []) op (b' ' ∷ b) (ground arith, (refl, hb)),
        starts_no_number op b ho,
      )
      refl
