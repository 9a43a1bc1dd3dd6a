-- ===== src/Signals/System/Counting.antt =====
-- The requests that the parent of SysOpy/lab4/src/zad2/zad2.c has counted, against the children that have
-- asked.
use semestr.Prelude.{
  OnSome, OnSome-bind, ℕ, zero, suc, ◌+◌, ◌≤◌, ◌<◌, ◌≡◌, refl, sym, subst, arith, Bool, Bool-cases,
  true, false, ◌||◌, Option, Option-cases, none, some, List, [], ◌∷◌, ◌++◌, length, drop, ◌⊎◌, inl,
  inr, ℕ_discrete, ltb, ◌==◌, if◌then◌else◌, set,
}
use semestr.Prelude.Int.{ℤ, pos, negsuc}
use semestr.Signals.{Parent, decrement, after_request, signal_handling, grant_pending}
use semestr.Signals.System.{
  Phase, resting, asking, suspended, late, exited, reaped, State, update, is_resting,
  handle_request,
}

-- How many of the first `n` children have asked.
abbrev pub asked : ℕ → (ℕ → Phase) → ℕ
asked zero child = 0
asked (suc n) child = let more = asked n child in if is_resting (child n) then more else suc more

abbrev pub waiting : Option ℕ → ℕ
waiting none = 0
waiting (some p) = 1

-- The requests that are wanted, those that came in, and the one that is pending.
abbrev pub Enough : ℕ → ℕ → ℕ → ℤ → Type 0
Enough m a pending (pos k) = m + pending ≤ k + a
Enough m a pending (negsuc k) = m ≤ a

-- A child with a permission, or past it.
abbrev pub has_permission : Phase → Bool
has_permission resting = false
has_permission asking = false
has_permission suspended = false
has_permission late = true
has_permission exited = true
has_permission reaped = true

pub record Inv (n m : ℕ) (s : State) : Type 0 where
  pub wanted : Enough m (asked n s.child) (waiting s.request) s.parent.left_requests
  pub early : (i : ℕ) → (s.permission i || has_permission (s.child i)) ≡ true → m ≤ asked n s.child

-- A request either is answered when enough have come in, or leads to no answer.
after_request-granted :
    (pid m a : ℕ) (left : ℤ) (p q : Parent)
    → after_request pid left p ≡ some q
    → Enough m a 0 left
    → (q.left_requests ≡ left) × ((m ≤ a) ⊎ (q.granted ≡ p.granted))
unfolding after_request
after_request-granted pid m a (negsuc k) p q e h =
    let same : record p { left_requests = negsuc k; granted = p.granted ++ pid ∷ [] } ≡ q = cc in
    (rw (← same) refl, inl h)
after_request-granted pid m a (pos k) p q e h = elim (Bool-cases (ltb k (length p.pending))) [
  | inr outside ↦
      let fault : after_request pid (pos k) p ≡ none = rw (after_request, outside) refl in absurd cc
  | inl inside ↦ elim (Bool-cases (k == 0)) [
    | inr more ↦
        let wait : Parent = record p { left_requests = pos k; pending = set p.pending k pid } in
        let kept : after_request pid (pos k) p ≡ some wait =
          rw (after_request, inside, more) refl in
        let same : wait ≡ q = cc in (rw (← same) refl, inr (rw (← same) refl))
    | inl last ↦ elim (Option-cases (grant_pending (set p.pending k pid) p.requests 0 p.granted)) [
      | inl fault ↦
          let dead : after_request pid (pos k) p ≡ none =
            rw (after_request, inside, last, fault) refl in
          absurd cc
      | inr (granted, all) ↦
          let done : Parent = record p {
            left_requests = pos k;
            pending = set p.pending k pid;
            granted = granted;
          } in
          let kept : after_request pid (pos k) p ≡ some done =
            rw (after_request, inside, last, all) refl in
          let same : done ≡ q = cc in (rw (← same) refl, inl (ground arith))
    ]
  ]
]

decrement-Enough : (m a : ℕ) (left : ℤ) → Enough m a 1 left → Enough m a 0 (decrement left)
decrement-Enough m a (pos zero) h = omega arith
decrement-Enough m a (pos (suc k)) h = omega arith
decrement-Enough m a (negsuc k) h = h

drop-length : (xs : List ℕ) → drop (length xs) xs ≡ []
drop-length [] = refl
drop-length (x ∷ xs) = drop-length xs

asked-update_past :
    (n i : ℕ) (child : ℕ → Phase) (p : Phase) → n ≤ i → asked n (update i p child) ≡ asked n child
asked-update_past zero i child p h = refl
asked-update_past (suc n) i child p h = ground (arith, asked-update_past n i child p (omega arith))

-- A child's change of phase.
pub asked-update :
    (n i : ℕ) (child : ℕ → Phase) (p : Phase)
    → is_resting p ≡ is_resting (child i)
    → asked n (update i p child) ≡ asked n child
asked-update zero i child p e = refl
asked-update (suc n) i child p e = elim (ℕ_discrete n i) [
  | yes same ↦ ground (arith, asked-update n i child p e, same, e)
  | no other ↦ ground (arith, asked-update n i child p e, other)
]

pub asked-asks :
    (n i : ℕ) (child : ℕ → Phase)
    → i < n
    → is_resting (child i) ≡ true
    → asked n (update i asking child) ≡ suc (asked n child)
asked-asks zero i child h e = absurd (omega arith)
asked-asks (suc n) i child h e = elim (ℕ_discrete n i) [
  | yes same ↦ ground (arith, asked-update_past n i child asking (omega arith), same, e)
  | no other ↦ ground (arith, asked-asks n i child (omega arith) e, other)
]

pub handle_request-Inv :
    (n m pid : ℕ) (s : State)
    → s.request ≡ some pid
    → Inv n m s
    → OnSome (Inv n m) (handle_request pid s)
unfolding handle_request signal_handling
handle_request-Inv n m pid s e inv =
    OnSome-bind (Inv n m) (after_request pid (decrement s.parent.left_requests) s.parent) _ (λ q f.
      let a = asked n s.child in
      let left : Enough m a 1 s.parent.left_requests =
        subst (λ r. Enough m a (waiting r) s.parent.left_requests) e inv.wanted in
      let now = decrement-Enough m a s.parent.left_requests left in
      let (same, granted) =
        after_request-granted pid m a (decrement s.parent.left_requests) s.parent q f now in
      record {
        wanted = subst (λ l. Enough m a 0 l) (sym same) now;
        early = λ i h. elim granted [
          | inl enough ↦ enough
          | inr kept ↦
              let nothing : drop (length s.parent.granted) q.granted ≡ [] =
                rw kept (drop-length s.parent.granted) in
              inv.early i (rw nothing at h)
        ];
      })
