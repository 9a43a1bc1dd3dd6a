-- ===== src/Cluster/Session/Messages.antt =====
-- The messages on their way between the server and the nodes of SysOpy/lab10/src/zad1, and what is printed
-- of them.
use semestr.Prelude.{
  OnSome, OnSome-bind, ℕ, zero, suc, ◌+◌, ◌≡◌, refl, subst, ◌∙◌, arith, Bool-cases, ◌⊎◌,
  Option-cases, none, some, ltb, length, List, [], ◌∷◌, ◌>>=◌, inl, inr, get_elem?,
}
use semestr.Prelude.Int.{ℤ, pos, ◌-ℤ◌}
use semestr.CString.{Text}
use semestr.CString.Tokens.{strtok-last}
use semestr.CString.Decimal.{print_int, print_int-cons}
use semestr.Cluster.{request, on_result}
use semestr.Cluster.Node.{calculate, result_text, answer}
use semestr.Cluster.Session.{
  Session, is_member, take_at, reply_to, answer_request, show_result, print_result,
}

abbrev pub Each {ℓ} : {A : Type ℓ} → (A → Type 0) → List A → Type 0
Each P [] = Unit {0}
Each P (x ∷ xs) = P x × Each P xs

pub Each-weaken {ℓ} :
    {A : Type ℓ} (P Q : A → Type 0) (xs : List A) → ((x : A) → P x → Q x) → Each P xs → Each Q xs
Each-weaken P Q [] h all = tt
Each-weaken P Q (x ∷ xs) h all = (h x all.0, Each-weaken P Q xs h all.1)

-- An element that is taken out, and the others.
Each-take_at {ℓ} :
    {A : Type ℓ} (P : A → Type 0) (i : ℕ) (xs : List A)
    → Each P xs
    → OnSome (λ r. P r.0 × Each P r.1) (take_at i xs)
Each-take_at P i [] all = tt
Each-take_at P zero (x ∷ xs) all = all
Each-take_at P (suc i) (x ∷ xs) all =
    OnSome-bind (λ r. P r.0 × Each P r.1) (take_at i xs) _
      (λ r e.
        let (here, others) =
          subst (OnSome (λ r. P r.0 × Each P r.1)) e (Each-take_at P i xs all.1) in
        (here, (all.0, others)))

abbrev pub IsSent : List (ℕ × Text) → ℕ → Text → Type 0
IsSent sent p line = (i : ℕ) × (get_elem? sent i ≡ some (p, line))

abbrev pub RequestOf : List (ℕ × Text) → ℕ × Text → Type 0
RequestOf sent (fd, message) =
    (p : ℕ) × (line : Text) × IsSent sent p line × (message ≡ request p line)

abbrev pub ReplyOf : List (ℕ × Text) → Text → Type 0
ReplyOf sent text =
    (p : ℕ) × (line : Text) × (v : ℤ) × IsSent sent p line
    × (calculate line ≡ some v)
    × (text ≡ b'3' ∷ (p + 1) ∷ print_int v)

-- The text and the number for a line that was sent to a slot.
abbrev pub ResultOf : List (ℕ × Text) → Text × ℤ → Type 0
ResultOf sent (text, number) =
    (p : ℕ) × (line : Text) × (v : ℤ) × IsSent sent p line
    × (calculate line ≡ some v)
    × (text ≡ print_int v)
    × (number ≡ pos p)

pub record Inv (s : Session) : Type 0 where
  pub requests : Each (RequestOf s.sent) s.requests
  pub replies : Each (ReplyOf s.sent) s.replies
  pub printed : Each (ResultOf s.sent) s.printed

answer_lem :
    (p : ℕ) (line : Text)
    → answer print_int (request p line) ≡ (
        calculate line >>= λ v.
        (result_text print_int v >>= λ text. some (some (b'3' ∷ (p + 1) ∷ text))))
unfolding answer request
answer_lem p line = refl

number_lem : (p : ℕ) → pos (p + 1) -ℤ pos 1 ≡ pos p
unfolding ◌-ℤ◌
number_lem p = ground arith

on_result_lem :
    (p : ℕ) (v : ℤ) → on_result (b'3' ∷ (p + 1) ∷ print_int v) ≡ some (some (print_int v, pos p))
unfolding on_result
on_result_lem p v =
    let (d, ds, e, plain) = print_int-cons [] v (λ c h. refl) refl in
    rw (e, strtok-last [] d ds plain, number_lem p) refl

result_text-cases :
    (v : ℤ) → (result_text print_int v ≡ none) ⊎ (result_text print_int v ≡ some (print_int v))
unfolding result_text
result_text-cases v = elim (Bool-cases (ltb (length (print_int v)) 10)) [
  | inl short ↦ inr (rw (result_text, short) refl)
  | inr long ↦ inl (rw (result_text, long) refl)
]

answer_value :
    (p : ℕ) (line : Text) (v : ℤ)
    → calculate line ≡ some v
    → result_text print_int v ≡ some (print_int v)
    → answer print_int (request p line) ≡ some (some (b'3' ∷ (p + 1) ∷ print_int v))
answer_value p line v e short = answer_lem p line ∙ rw (e, short) refl

answer-cases :
    (p : ℕ) (line : Text)
    → (answer print_int (request p line) ≡ none)
      ⊎ ((v : ℤ) × (calculate line ≡ some v)
          × (answer print_int (request p line) ≡ some (some (b'3' ∷ (p + 1) ∷ print_int v))))
answer-cases p line = elim (Option-cases (calculate line)) [
  | inl crash ↦ inl (answer_lem p line ∙ rw crash refl)
  | inr (v, e) ↦ elim (result_text-cases v) [
    | inl long ↦ inl (answer_lem p line ∙ rw (e, long) refl)
    | inr short ↦ inr (v, e, answer_value p line v e short)
  ]
]

reply_to-Inv :
    (message : Text) (s : Session)
    → RequestOf s.sent (0, message)
    → Inv s
    → OnSome Inv (reply_to message s)
unfolding reply_to
reply_to-Inv message s (p, line, known, e) inv = elim (answer-cases p line) [
  | inl crash ↦ rw (e, crash) tt
  | inr (v, computed, reply) ↦
      rw (e, reply)
        (record {
          requests = inv.requests;
          replies = ((p, line, v, known, computed, refl), inv.replies);
          printed = inv.printed;
        })
]

show_result-Inv :
    (text : Text) (s : Session) → ReplyOf s.sent text → Inv s → OnSome Inv (show_result text s)
unfolding show_result
show_result-Inv text s (p, line, v, known, computed, e) inv =
    rw (e, on_result_lem p v)
      (record {
        requests = inv.requests;
        replies = inv.replies;
        printed = ((p, line, v, known, computed, refl, refl), inv.printed);
      })

pub answer_request-Inv : (i : ℕ) (s : Session) → Inv s → OnSome Inv (answer_request i s)
unfolding answer_request
answer_request-Inv i s inv = OnSome-bind Inv (take_at i s.requests) _ (λ r e.
    let (here, others) =
      subst (OnSome (λ r. RequestOf s.sent r.0 × Each (RequestOf s.sent) r.1)) e
        (Each-take_at (RequestOf s.sent) i s.requests inv.requests) in
    let rest : Inv (record s { requests = r.1 }) = record {
      requests = others;
      replies = inv.replies;
      printed = inv.printed;
    } in
    elim (Bool-cases (is_member r.0.0 s.nodes)) [
      | inl looping ↦ rw looping (reply_to-Inv r.0.1 (record s { requests = r.1 }) here rest)
      | inr ended ↦ rw ended rest
    ])

pub print_result-Inv : (i : ℕ) (s : Session) → Inv s → OnSome Inv (print_result i s)
unfolding print_result
print_result-Inv i s inv = OnSome-bind Inv (take_at i s.replies) _ (λ r e.
    let (here, others) =
      subst (OnSome (λ r. ReplyOf s.sent r.0 × Each (ReplyOf s.sent) r.1)) e
        (Each-take_at (ReplyOf s.sent) i s.replies inv.replies) in
    show_result-Inv r.0 (record s { replies = r.1 }) here
      (record { requests = inv.requests; replies = others; printed = inv.printed }))
