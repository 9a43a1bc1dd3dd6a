-- ===== src/Signals/System/Asked.antt =====
-- No child of SysOpy/lab4/src/zad2/zad2.c ends before as many children as there are requests wanted
-- have asked.
use semestr.Prelude.{
  OnSome, OnSome-if, OnSome-bind, ℕ, zero, suc, ◌≤◌, ◌<◌, ◌≡◌, refl, sym, subst, arith, Bool,
  Bool-cases, true, false, ◌&&◌, ◌||◌, Option, none, some, List, [], ◌∷◌, inl, inr, ltb, ◌==◌,
}
use semestr.Prelude.Int.{ℤ, pos, negsuc}
use semestr.Signals.{start}
use semestr.Signals.System.{
  Phase, resting, asking, suspended, late, exited, reaped, State, update, start_system, is_resting,
  is_asking, is_exited, pend, resumed, handle_permission, Event, asks, suspends, resumes, waits,
  parent_handles, step, run,
}
use semestr.Signals.System.Counting.{
  asked, waiting, Enough, has_permission, Inv, asked-update, asked-asks, handle_request-Inv,
}

-- A child's change of phase after its request, to a phase behind a permission only with one.
update-Inv :
    (n m i : ℕ) (p : Phase) (permission : ℕ → Bool) (s : State)
    → is_resting p ≡ is_resting (s.child i)
    → ((j : ℕ)
        → (permission j || has_permission (update i p s.child j)) ≡ true
        → (s.permission j || has_permission (s.child j)) ≡ true)
    → Inv n m s
    → Inv n m (record s { child = update i p s.child; permission = permission })
update-Inv n m i p permission s e h inv =
    let same = asked-update n i s.child p e in
    record { wanted = rw same inv.wanted; early = λ j f. rw same (inv.early j (h j f)) }

Enough-asks :
    (m a i : ℕ) (left : ℤ) (r : Option ℕ)
    → Enough m a (waiting r) left
    → Enough m (suc a) (waiting (pend i r)) left
Enough-asks m a i (pos k) none h = omega arith
Enough-asks m a i (pos k) (some j) h = omega arith
Enough-asks m a i (negsuc k) r h = omega arith

asks-Inv :
    (n m i : ℕ) (s : State)
    → i < n
    → is_resting (s.child i) ≡ true
    → Inv n m s
    → Inv n m (record s { child = update i asking s.child; request = pend i s.request })
asks-Inv n m i s lt e inv =
    let more = asked-asks n i s.child lt e in
    record {
      wanted =
          rw more (Enough-asks m (asked n s.child) i s.parent.left_requests s.request inv.wanted);
      early = λ j f. rw more (elim (Bool-cases (j == i)) [
        | inl same ↦ omega (arith, inv.early j (ground (arith, f, same)))
        | inr other ↦ omega (arith, inv.early j (ground (arith, f, other)))
      ]);
    }

resumed-resting : (p q : Phase) → resumed p ≡ some q → is_resting q ≡ is_resting p
resumed-resting resting q e = let same : resting ≡ q = cc in rw (← same) refl
resumed-resting asking q e = let same : late ≡ q = cc in rw (← same) refl
resumed-resting suspended q e = let same : exited ≡ q = cc in rw (← same) refl
resumed-resting late q e = let same : exited ≡ q = cc in rw (← same) refl
resumed-resting exited q e = cc
resumed-resting reaped q e = cc

resumes-Inv : (n m i : ℕ) (s : State) → Inv n m s → OnSome (Inv n m) (handle_permission i s)
unfolding handle_permission
resumes-Inv n m i s inv = elim (Bool-cases (s.permission i)) [
  | inr off ↦ rw off tt
  | inl on ↦ rw on (
      OnSome-bind (Inv n m) (resumed (s.child i)) _ (λ q f.
        update-Inv n m i q (update i false s.permission) s (resumed-resting (s.child i) q f)
          (λ j h. elim (Bool-cases (j == i)) [
            | inl same ↦ let one : j ≡ i = ground arith in rw (one, on) refl
            | inr other ↦ ground (arith, h, other)
          ])
          inv))
]

asking_lem : (p : Phase) → is_asking p ≡ true → p ≡ asking
asking_lem resting e = cc
asking_lem asking e = refl
asking_lem suspended e = cc
asking_lem late e = cc
asking_lem exited e = cc
asking_lem reaped e = cc

exited_lem : (p : Phase) → is_exited p ≡ true → p ≡ exited
exited_lem resting e = cc
exited_lem asking e = cc
exited_lem suspended e = cc
exited_lem late e = cc
exited_lem exited e = refl
exited_lem reaped e = cc

-- A change of phase that is not a signal's.
move-Inv :
    (n m i : ℕ) (p q : Phase) (s : State)
    → s.child i ≡ p
    → is_resting q ≡ is_resting p
    → has_permission q ≡ has_permission p
    → Inv n m s
    → Inv n m (record s { child = update i q s.child })
move-Inv n m i p q s e rest has inv =
    update-Inv n m i q s.permission s (rw e rest)
      (λ j f. elim (Bool-cases (j == i)) [
        | inl same ↦
            let one : j ≡ i = ground arith in
            let owns : has_permission (s.child j) ≡ has_permission q = rw (one, e) (sym has) in
            ground (arith, owns, f, same)
        | inr other ↦ ground (arith, f, other)
      ])
      inv

step-Inv : (n m : ℕ) (e : Event) (s : State) → Inv n m s → OnSome (Inv n m) (step n e s)
unfolding step
step-Inv n m (asks i) s inv =
    OnSome-if (Inv n m) (ltb i n && is_resting (s.child i)) _
      (λ h. asks-Inv n m i s (ground (arith, h)) (ground (arith, h)) inv)
step-Inv n m (suspends i) s inv =
    OnSome-if (Inv n m) (is_asking (s.child i)) _
      (λ h. move-Inv n m i asking suspended s (asking_lem (s.child i) h) refl refl inv)
step-Inv n m (resumes i) s inv = resumes-Inv n m i s inv
step-Inv n m (waits i) s inv =
    OnSome-if (Inv n m) (is_exited (s.child i)) _
      (λ h. move-Inv n m i exited reaped s (exited_lem (s.child i) h) refl refl inv)
step-Inv n m parent_handles s inv =
    OnSome-bind (Inv n m) s.request _ (λ pid e. handle_request-Inv n m pid s e inv)

run-Inv : (n m : ℕ) (es : List Event) (s : State) → Inv n m s → OnSome (Inv n m) (run n es s)
unfolding run
run-Inv n m [] s inv = inv
run-Inv n m (e ∷ es) s inv =
    OnSome-bind (Inv n m) (step n e s) _
      (λ t f. run-Inv n m es t (subst (OnSome (Inv n m)) f (step-Inv n m e s inv)))

start-asked : (n : ℕ) → asked n (λ i. resting) ≡ 0
start-asked zero = refl
start-asked (suc n) = start-asked n

start-Inv : (n m : ℕ) → Inv n m (start_system m)
unfolding start_system start
start-Inv n m = record { wanted = ground (arith, start-asked n); early = λ i e. cc }

-- In every interleaving of the parent and its `n` children, where `m` requests are wanted: a child that
-- has ended, has been waited for or has had its SIGUSR2 is a proof that `m` children at least have asked
-- by then.
pub has_permission-asked :
    (n m i : ℕ) (es : List Event) (t : State)
    → run n es (start_system m) ≡ some t
    → has_permission (t.child i) ≡ true
    → m ≤ asked n t.child
has_permission-asked n m i es t e h =
    let inv : Inv n m t =
      subst (OnSome (Inv n m)) e (run-Inv n m es (start_system m) (start-Inv n m)) in
    inv.early i (ground (arith, h))
