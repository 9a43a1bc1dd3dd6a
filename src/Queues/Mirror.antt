-- ===== src/Queues/Mirror.antt =====
-- The request MIRROR of SysOpy/lab6/src/zad1/server.c.
use semestr.Prelude.{
  reversed, ℕ, zero, suc, ◌≡◌, refl, ◌∙◌, sym, ap, some, [], ◌∷◌, ◌++◌, length, get_elem?, ◌>>=◌,
  append-nil, append_assoc, Option-cases, inl, inr,
}
use semestr.CString.{Text}
use semestr.Queues.{mirror_from}

mirror_from-cons :
    (c : ℕ) (cs : Text) (n : ℕ) (result : Text)
    → mirror_from (c ∷ cs) (suc n) result ≡ (mirror_from cs n result >>= λ r. some (r ++ c ∷ []))
unfolding mirror_from
mirror_from-cons c cs zero result = refl
mirror_from-cons c cs (suc n) result = elim (Option-cases (get_elem? cs n)) [
  | inl outside ↦ rw (outside) refl
  | inr (x, at) ↦ rw (at) (mirror_from-cons c cs n (result ++ x ∷ []))
]

-- The loop reads no byte outside the text, and puts the reversed text after what it has.
mirror_from_lem :
    (ts result : Text) → mirror_from ts (length ts) result ≡ some (result ++ reversed ts)
unfolding mirror_from
mirror_from_lem [] result = ap some (sym (append-nil result))
mirror_from_lem (c ∷ cs) result =
    mirror_from-cons c cs (length cs) result
    ∙ rw (mirror_from_lem cs result) (ap some (append_assoc result (reversed cs) (c ∷ [])))

reversed-snoc : (ts : Text) (c : ℕ) → reversed (ts ++ c ∷ []) ≡ c ∷ reversed ts
reversed-snoc [] c = refl
reversed-snoc (x ∷ ts) c = ap (λ r. r ++ x ∷ []) (reversed-snoc ts c)

reversed_twice : (ts : Text) → reversed (reversed ts) ≡ ts
reversed_twice [] = refl
reversed_twice (c ∷ cs) = reversed-snoc (reversed cs) c ∙ ap (λ r. c ∷ r) (reversed_twice cs)

-- MIRROR answers with the reversed text, and mirroring the answer gives the text again.
pub mirror_lem :
    (text : Text)
    → (mirror_from text (length text) [] ≡ some (reversed text))
      × (mirror_from (reversed text) (length (reversed text)) [] ≡ some text)
mirror_lem text =
    (mirror_from_lem text [], mirror_from_lem (reversed text) [] ∙ ap some (reversed_twice text))
