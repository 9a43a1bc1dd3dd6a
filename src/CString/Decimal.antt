-- ===== src/CString/Decimal.antt =====
-- Decimal numbers as `printf` writes them for `%d`, and `atoi` of what it writes.
use semestr.Prelude.{
  ℕ, zero, suc, ◌+◌, ◌-◌, ◌*◌, ◌/◌, ◌%◌, ◌<◌, ◌≡◌, refl, sym, subst, ◌∙◌, arith, true, false, [],
  ◌∷◌, ltb, ◌==◌, if◌then◌else◌, Bool-cases, inl, inr,
}
use semestr.Prelude.Int.{ℤ, pos, negsuc, ◌-ℤ◌}
use semestr.CString.{Text, has, is_digit, digits_value, signed_value, atoi}
use semestr.CString.Tokens.{Plain}

-- The digits of `n` before `out`, on fuel.
unfoldable pub digits_from : ℕ → ℕ → Text → Text
digits_from zero n out = out
digits_from (suc fuel) n out =
    let rest = digits_from fuel (n / 10) ((b'0' + n % 10) ∷ out) in
    if ltb n 10 then (b'0' + n % 10) ∷ out else rest

unfoldable pub decimal : ℕ → Text
unfolding digits_from
decimal n = digits_from (suc n) n []

-- `%d` of `printf`.
unfoldable pub print_int : ℤ → Text
unfolding decimal
print_int (pos n) = decimal n
print_int (negsuc n) = b'-' ∷ decimal (suc n)

pub AllDigits : Text → Type 0
AllDigits [] = Unit {0}
AllDigits (c ∷ cs) = (is_digit c ≡ true) × AllDigits cs

digits_from-AllDigits :
    (fuel n : ℕ) (out : Text) → AllDigits out → AllDigits (digits_from fuel n out)
unfolding digits_from AllDigits
digits_from-AllDigits zero n out h = h
digits_from-AllDigits (suc fuel) n out h =
    let digit : is_digit (b'0' + n % 10) ≡ true = ground arith in
    elim (Bool-cases (ltb n 10)) [
      | inl last ↦ rw (digits_from, last) (digit, h)
      | inr more ↦
          rw (digits_from, more)
            (digits_from-AllDigits fuel (n / 10) ((b'0' + n % 10) ∷ out) (digit, h))
    ]

-- The first digit is there, whatever follows.
digits_from-cons :
    (fuel n : ℕ) (c : ℕ) (out : Text)
    → (b : ℕ) × (rest : Text) × (digits_from fuel n (c ∷ out) ≡ b ∷ rest)
unfolding digits_from
digits_from-cons zero n c out = (c, out, refl)
digits_from-cons (suc fuel) n c out = elim (Bool-cases (ltb n 10)) [
  | inl last ↦ (b'0' + n % 10, c ∷ out, rw (digits_from, last) refl)
  | inr more ↦
      let (b, rest, e) = digits_from-cons fuel (n / 10) (b'0' + n % 10) (c ∷ out) in
      (b, rest, rw (digits_from, more) e)
]

digits_value-digits_from :
    (fuel n : ℕ) (out : Text)
    → n < fuel
    → digits_value 0 (digits_from fuel n out) ≡ digits_value n out
unfolding digits_from digits_value
digits_value-digits_from zero n out h = absurd (omega arith)
digits_value-digits_from (suc fuel) n out h =
    let digit : is_digit (b'0' + n % 10) ≡ true = ground arith in
    elim (Bool-cases (ltb n 10)) [
      | inl last ↦
          let value : 0 * 10 + (b'0' + n % 10 - b'0') ≡ n = ground arith in
          rw (digits_from, last, digits_value, digit, value) refl
      | inr more ↦
          let value : n / 10 * 10 + (b'0' + n % 10 - b'0') ≡ n = ground arith in
          rw (digits_from, more)
            (digits_value-digits_from fuel (n / 10) ((b'0' + n % 10) ∷ out) (ground arith)
              ∙ rw (digits_value, digit, value) refl)
    ]

-- A number is written with a digit first.
decimal-cons :
    (n : ℕ) → (c : ℕ) × (cs : Text) × (decimal n ≡ c ∷ cs) × (is_digit c ≡ true) × AllDigits cs
unfolding decimal digits_from AllDigits
decimal-cons n =
    let all = digits_from-AllDigits (suc n) n [] tt in
    elim (Bool-cases (ltb n 10)) [
      | inl last ↦ (b'0' + n % 10, [], rw (decimal, digits_from, last) refl, ground arith, tt)
      | inr more ↦
          let (c, cs, e) = digits_from-cons n (n / 10) (b'0' + n % 10) [] in
          let same : decimal n ≡ c ∷ cs = rw (decimal, digits_from, more) e in
          let (first, rest) : AllDigits (c ∷ cs) = subst AllDigits same all in
          (c, cs, same, first, rest)
    ]

-- No digit is white space, and none is a sign.
atoi-digits :
    (c : ℕ) (cs : Text) → is_digit c ≡ true → atoi (c ∷ cs) ≡ pos (digits_value 0 (c ∷ cs))
unfolding atoi signed_value
atoi-digits c cs h =
    let solid : has (32 ∷ 9 ∷ 10 ∷ 11 ∷ 12 ∷ 13 ∷ []) c ≡ false = ground arith in
    let minus : (c == b'-') ≡ false = ground arith in
    let plus : (c == b'+') ≡ false = ground arith in
    rw (atoi, solid, signed_value, minus, plus) refl

atoi-decimal : (n : ℕ) → atoi (decimal n) ≡ pos n
unfolding decimal digits_value
atoi-decimal n =
    let (c, cs, e, first, rest) = decimal-cons n in
    let value = digits_value-digits_from (suc n) n [] (omega arith) in
    let found : digits_value 0 (c ∷ cs) ≡ n = subst (λ s. digits_value 0 s ≡ n) e value in
    rw (e, atoi-digits c cs first, found) refl

minus_lem : (n : ℕ) → pos 0 -ℤ pos (suc n) ≡ negsuc n
unfolding ◌-ℤ◌
minus_lem n = ground arith

-- `atoi` finds the number that `%d` writes.
pub atoi-print_int : (x : ℤ) → atoi (print_int x) ≡ x
unfolding print_int atoi signed_value decimal digits_value
atoi-print_int (pos n) = atoi-decimal n
atoi-print_int (negsuc n) =
    let value : digits_value 0 (decimal (suc n)) ≡ suc n =
      digits_value-digits_from (suc (suc n)) (suc n) [] (omega arith) in
    rw (atoi, signed_value, value) (minus_lem n)

AllDigits-Plain :
    (d cs : Text) → ((c : ℕ) → is_digit c ≡ true → has d c ≡ false) → AllDigits cs → Plain d cs
unfolding AllDigits
AllDigits-Plain d [] h all = tt
AllDigits-Plain d (c ∷ cs) h all = (h c all.0, AllDigits-Plain d cs h all.1)

-- What is written for a number has a first byte, and holds no delimiter that is neither digit nor minus.
pub print_int-cons :
    (d : Text) (x : ℤ)
    → ((c : ℕ) → is_digit c ≡ true → has d c ≡ false)
    → has d b'-' ≡ false
    → (c : ℕ) × (cs : Text) × (print_int x ≡ c ∷ cs) × Plain d (c ∷ cs)
unfolding print_int AllDigits
print_int-cons d (pos n) h m =
    let (c, cs, e, first, rest) = decimal-cons n in
    (c, cs, e, AllDigits-Plain d (c ∷ cs) h (first, rest))
print_int-cons d (negsuc n) h m =
    let (c, cs, e, first, rest) = decimal-cons (suc n) in
    (
      b'-',
      decimal (suc n),
      refl,
      (m, subst (Plain d) (sym e) (AllDigits-Plain d (c ∷ cs) h (first, rest))),
    )
