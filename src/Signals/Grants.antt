-- ===== src/Signals/Grants.antt =====
-- Which requests the parent of SysOpy/lab4/src/zad2/zad2.c grants, and in which order.
use semestr.Prelude.{
  ℕ, zero, suc, ◌+◌, ◌≡◌, refl, ◌∙◌, sym, ap, subst, true, false, some, List, [], ◌∷◌, ◌++◌, arith,
  get_elem?, set, replicate, length, length-replicate, length-append, ltb, ◌==◌, if◌then◌else◌,
  take, drop, reversed, append-nil, append_assoc,
}
use semestr.Prelude.Int.{pos, negsuc}
use semestr.Signals.{
  Parent, start, decrement, grant_pending, after_request, signal_handling, requests,
}

get_elem?-middle :
    (pre : List ℕ) (x : ℕ) (rest : List ℕ) → get_elem? (pre ++ x ∷ rest) (length pre) ≡ some x
get_elem?-middle [] x rest = refl
get_elem?-middle (y ∷ pre) x rest = get_elem?-middle pre x rest

-- The loop grants what is left of PENDING, in its order.
grant_pending_lem :
    (pre rest granted : List ℕ) (i : ℕ)
    → i ≡ length pre
    → grant_pending (pre ++ rest) (length rest) i granted ≡ some (granted ++ rest)
unfolding grant_pending
grant_pending_lem pre [] granted i at = ap some (sym (append-nil granted))
grant_pending_lem pre (x ∷ rest) granted i at =
    let here : get_elem? (pre ++ x ∷ rest) i ≡ some x =
      subst (λ k. get_elem? (pre ++ x ∷ rest) k ≡ some x) (sym at) (get_elem?-middle pre x rest) in
    let longer : i + 1 ≡ length (pre ++ x ∷ []) = omega (arith, length-append pre (x ∷ [])) in
    let tail = grant_pending_lem (pre ++ x ∷ []) rest (granted ++ x ∷ []) (i + 1) longer in
    rw here (
      subst
        (λ xs.
          grant_pending xs (length rest) (i + 1) (granted ++ x ∷ []) ≡ some (granted ++ x ∷ rest))
        (append_assoc pre (x ∷ []) rest) (tail ∙ ap some (append_assoc granted (x ∷ []) rest)))

-- A pid that is stored at the last free place of PENDING.
set-last :
    (z got : List ℕ) (k pid : ℕ)
    → length z ≡ k + 1
    → (z' : List ℕ) × (length z' ≡ k) × (set (z ++ got) k pid ≡ z' ++ pid ∷ got)
set-last [] got k pid h = absurd (omega arith)
set-last (x ∷ []) got zero pid h = ([], refl, refl)
set-last (x ∷ []) got (suc k) pid h = absurd (omega arith)
set-last (x ∷ y ∷ z) got zero pid h = absurd (omega arith)
set-last (x ∷ y ∷ z) got (suc k) pid h =
    let (z', size, e) = set-last (y ∷ z) got k pid (omega arith) in
    (x ∷ z', ap suc size, ap (λ xs. x ∷ xs) e)

length-zero : (xs : List ℕ) → length xs ≡ 0 → xs ≡ []
length-zero [] e = refl
length-zero (x ∷ xs) e = absurd (omega arith)

late :
    (pids : List ℕ) (s : Parent) (j : ℕ)
    → decrement s.left_requests ≡ negsuc j
    → (t : Parent) × (requests pids s ≡ some t) × (t.granted ≡ s.granted ++ pids)
unfolding requests signal_handling after_request
late [] s j over = (s, refl, sym (append-nil s.granted))
late (p ∷ pids) s j over =
    let (t, run, all) =
      late pids (record s { left_requests = negsuc j; granted = s.granted ++ p ∷ [] }) (j + 1)
        refl in
    (t, rw over run, all ∙ append_assoc s.granted (p ∷ []) pids)

-- What the parent has granted after the requests of `pids`, when `k` more were wanted and those of
-- `got` are pending, the latest first.
abbrev pub grants : ℕ → List ℕ → List ℕ → List ℕ
grants k got pids =
    if ltb (length pids) k then [] else (reversed (take k pids) ++ got) ++ drop k pids

grants-suc : (k p : ℕ) (got pids : List ℕ) → grants k (p ∷ got) pids ≡ grants (suc k) got (p ∷ pids)
grants-suc k p got pids =
    let fewer : ltb (length pids) k ≡ ltb (suc (length pids)) (suc k) = ground arith in
    rw (fewer, append_assoc (reversed (take k pids)) (p ∷ []) got) refl

early :
    (pids : List ℕ) (k : ℕ) (z got : List ℕ) (n : ℕ)
    → length z ≡ k + 1
    → n ≡ k + 1 + length got
    → (t : Parent) × (requests pids
          (record { left_requests = pos (suc k); requests = n; pending = z ++ got; granted = [] })
        ≡ some t)
      × (t.granted ≡ grants (suc k) got pids)
unfolding requests signal_handling after_request
early [] k z got n size total = (_, refl, ground arith)
early (p ∷ pids) zero z got n size total =
    let (z', none_left, filled) = set-last z got 0 p size in
    let inside : ltb 0 (length (z ++ got)) ≡ true = ground (arith, length-append z got) in
    let is_nil : z' ≡ [] = length-zero z' none_left in
    let stored : set (z ++ got) 0 p ≡ p ∷ got = filled ∙ ap (λ xs. xs ++ p ∷ got) is_nil in
    let count : n ≡ suc (length got) = omega arith in
    let granted_all : grant_pending (p ∷ got) n 0 [] ≡ some (p ∷ got) =
      rw count (grant_pending_lem [] (p ∷ got) [] 0 refl) in
    let (t, run, all) =
      late pids
        (record { left_requests = pos 0; requests = n; pending = p ∷ got; granted = p ∷ got }) 0
        refl in
    let enough : ltb (suc (length pids)) 1 ≡ false = ground arith in
    (t, rw (inside, stored, granted_all) run, rw enough all)
early (p ∷ pids) (suc k) z got n size total =
    let (z', size', filled) = set-last z got (suc k) p size in
    let inside : ltb (suc k) (length (z ++ got)) ≡ true = ground (arith, length-append z got) in
    let some_left : (suc k == 0) ≡ false = ground arith in
    let (t, run, all) = early pids k z' (p ∷ got) n (omega arith) (omega arith) in
    (t, rw (inside, filled, some_left) run, all ∙ grants-suc (suc k) p got pids)

-- With `n` requests wanted, the parent grants nothing before the `n`th request; then it grants the
-- first `n` in the reverse of their order, and each later one as it comes: none is lost or granted
-- twice, and no access to PENDING is outside it.
pub requests-granted :
    (n : ℕ) (pids : List ℕ)
    → (t : Parent) × (requests pids (start n) ≡ some t)
      × (t.granted ≡ (if ltb (length pids) n then [] else reversed (take n pids) ++ drop n pids))
unfolding start
requests-granted zero pids =
    let (t, run, all) = late pids (start 0) 0 refl in
    let enough : ltb (length pids) 0 ≡ false = ground arith in (t, run, rw enough all)
requests-granted (suc k) pids =
    let (t, run, all) =
      early pids k (replicate (suc k) 0) [] (suc k)
        (omega (arith, length-replicate {A = ℕ} (suc k) 0)) (omega arith) in
    (
      t,
      subst
          (λ xs.
            requests pids
              (record { left_requests = pos (suc k); requests = suc k; pending = xs; granted = [] })
            ≡ some t)
          (append-nil (replicate (suc k) 0)) run,
      all
          ∙ ap (λ xs. if ltb (length pids) (suc k) then [] else xs ++ drop (suc k) pids)
              (append-nil (reversed (take (suc k) pids))),
    )
