-- ===== src/Cluster/Requests.antt =====
-- The requests of SysOpy/lab10/src/zad1: server.c sends a line to a node that it picks, client.c
-- computes it and answers.
use semestr.Prelude.{
  ℕ, ◌+◌, ◌%◌, ◌<◌, ◌≡◌, refl, some, List, [], ◌∷◌, ◌++◌, arith, ltb, true, length, Option-cases,
  inl, inr, get_elem?,
}
use semestr.Prelude.Int.{ℤ, pos, ◌-ℤ◌}
use semestr.CString.{Text, atoi}
use semestr.CString.Tokens.{Plain, Plain-nil, strtok-token, strtok-last}
use semestr.Cluster.{Slot, cluster_size, choose, request, on_result}
use semestr.Cluster.Node.{apply, calculate, result_text, answer}

-- The slot that a request goes to holds a node, and the request goes to its socket.
pub choose-live :
    (rs : List ℕ) (clients : List Slot) (p fd : ℕ)
    → choose rs clients ≡ some (p, fd)
    → (p < cluster_size) × (c : Slot) × (get_elem? clients p ≡ some c) × (c.fd ≡ some fd)
unfolding choose
choose-live [] clients p fd e = cc
choose-live (r ∷ rs) clients p fd e = elim (Option-cases (get_elem? clients (r % cluster_size))) [
  | inl outside ↦ ground arith
  | inr (c, at) ↦ elim (Option-cases c.fd) [
    | inl free ↦ choose-live rs clients p fd (ground arith)
    | inr (f, used) ↦
        let same : r % cluster_size ≡ p = ground arith in
        (ground arith, c, ground arith, ground arith)
  ]
]

-- A line "a op b\n" is computed from its three tokens.
pub calculate_lem :
    (a0 op b0 : ℕ) (a ops b : Text)
    → Plain (32 ∷ []) (a0 ∷ a)
    → Plain (32 ∷ []) (op ∷ ops)
    → Plain (32 ∷ 10 ∷ []) (b0 ∷ b)
    → calculate ((a0 ∷ a) ++ (32 ∷ ((op ∷ ops) ++ (32 ∷ ((b0 ∷ b) ++ (10 ∷ []))))))
      ≡ apply op (atoi (a0 ∷ a)) (atoi (b0 ∷ b))
unfolding calculate
calculate_lem a0 op b0 a ops b ha ho hb =
    rw
      (
        strtok-token (32 ∷ []) a0 a 32 ((op ∷ ops) ++ (32 ∷ ((b0 ∷ b) ++ (10 ∷ [])))) ha refl,
        strtok-token (32 ∷ []) op ops 32 ((b0 ∷ b) ++ (10 ∷ [])) ho refl,
        strtok-token (32 ∷ 10 ∷ []) b0 b 10 [] hb refl,
      )
      refl

number_of : (p : ℕ) → pos (p + 1) -ℤ pos 1 ≡ pos p
unfolding ◌-ℤ◌
number_of p = ground arith

-- A text of at most 9 bytes is printed.
pub result_text_lem :
    (print : ℤ → Text) (value : ℤ) (d : ℕ) (ds : Text)
    → print value ≡ d ∷ ds
    → length ds < 9
    → result_text print value ≡ some (d ∷ ds)
unfolding result_text
result_text_lem print value d ds printed short =
    let within : ltb (length (d ∷ ds)) 10 ≡ true = ground arith in
    rw (result_text, printed, within) refl

-- A node that computes the value of a request's line, of at most 9 bytes, answers with a message from
-- which the server prints that value's digits and the number of the slot it sent the request to.
pub answer-request :
    (print : ℤ → Text) (p : ℕ) (line : Text) (value : ℤ) (d : ℕ) (ds : Text)
    → calculate line ≡ some value
    → print value ≡ d ∷ ds
    → length ds < 9
    → (reply : Text) × (answer print (request p line) ≡ some (some reply))
      × (on_result reply ≡ some (some (d ∷ ds, pos p)))
unfolding answer request on_result
answer-request print p line value d ds computed printed short = (
  b'3' ∷ (p + 1) ∷ d ∷ ds,
  rw (computed, result_text_lem print value d ds printed short) refl,
  rw (strtok-last [] d ds (Plain-nil (d ∷ ds)), number_of p) refl,
)
