-- ===== src/Cluster/Node.antt =====
-- SysOpy/lab10/src/zad1/client.c: how a node computes and answers a request.
use semestr.Prelude.{
  ℕ, suc, ◌/◌, ◌&&◌, Option, none, some, [], ◌∷◌, length, ltb, ◌==◌, if◌then◌else◌, ◌>>=◌,
}
use semestr.Prelude.Int.{ℤ, pos, negsuc, fits_int, ◌+ℤ◌, ◌-ℤ◌, ◌*ℤ◌}
use semestr.CString.{Text, strtok, atoi}

-- Division of `int`s: towards 0, and undefined for a divisor of 0.
unfoldable pub divide : ℤ → ℤ → Option ℤ
unfolding ◌-ℤ◌
divide (pos a) (pos b) = if b == 0 then none else some (pos (a / b))
divide (pos a) (negsuc b) = some (pos 0 -ℤ pos (a / suc b))
divide (negsuc a) (pos b) = if b == 0 then none else some (pos 0 -ℤ pos (suc a / b))
divide (negsuc a) (negsuc b) = some (pos (suc a / suc b))

-- A result that an `int` does not hold is undefined.
abbrev pub in_int : ℤ → Option ℤ
in_int v = if fits_int v then some v else none

-- The `switch` of `calculate`, on numbers that `atoi` can give.
unfoldable pub apply : ℕ → ℤ → ℤ → Option ℤ
unfolding divide ◌+ℤ◌ ◌-ℤ◌ ◌*ℤ◌
apply op a b =
    let quotient = (do v ← divide a b; in_int v) in
    let result =
      if op == b'+'
      then in_int (a +ℤ b)
      else if op == b'-'
      then in_int (a -ℤ b)
      else if op == b'*'
      then in_int (a *ℤ b)
      else if op == b'/'
      then quotient
      else some (negsuc 0) in
    if fits_int a && fits_int b then result else none

abbrev pub first_byte : Text → ℕ
first_byte [] = 0
first_byte (c ∷ cs) = c

-- `calculate`; a missing token is a null pointer that is read.
unfoldable pub calculate : Text → Option ℤ
calculate e = do
  (arg1, rest1) ← strtok (32 ∷ []) e
  (op, rest2) ← strtok (32 ∷ []) rest1
  (arg2, _) ← strtok (32 ∷ 10 ∷ []) rest2
  apply (first_byte op) (atoi arg1) (atoi arg2)

-- `sprintf` of "%d" into `result`, of 10 bytes with the final null.
unfoldable pub result_text : (ℤ → Text) → ℤ → Option Text
result_text print v = if ltb (length (print v)) 10 then some (print v) else none

-- The body of the loop of `receive`, with what `recv` delivers; `print` gives the text of a number by "%d".
-- Another message than a request gets no answer.
unfoldable pub answer : (ℤ → Text) → Text → Option (Option Text)
unfolding calculate result_text
answer print (c ∷ p ∷ rest) =
    let reply = (do
      value ← calculate rest
      text ← result_text print value
      some (some (b'3' ∷ p ∷ text))) in
    if c == b'3' then reply else some none
answer print _ = some none
