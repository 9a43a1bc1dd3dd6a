-- ===== src/Toggle/Scripts.antt =====
-- Which scripts run.
use semestr.Prelude.{
  ℕ, ◌≡◌, refl, subst, arith, Bool, Bool-cases, true, false, not, ◌&&◌, inl, inr, List, [], ◌∷◌,
  ◌==◌, if◌then◌else◌,
}
use semestr.Toggle.{
  Place, looping, killing, forking, assigning, State, start, on_sigtstp, go_on, on_sigint, Event,
  sigtstp, goes_on, sigint, step, run,
}

-- The scripts that run, by the parent's place.
abbrev pub RunsAt : State → Place → Type 0
RunsAt s looping = (q : ℕ) → s.scripts q ≡ (q == s.child && not s.stopped)
RunsAt s killing = (s.stopped ≡ true) × ((q : ℕ) → s.scripts q ≡ (q == s.child))
RunsAt s forking = (s.stopped ≡ false) × ((q : ℕ) → s.scripts q ≡ false)
RunsAt s (assigning p) = (s.stopped ≡ false) × ((q : ℕ) → s.scripts q ≡ (q == p))

abbrev Inv : State → Type 0
Inv s = s.alive ≡ true → RunsAt s s.place

on_sigtstp-Inv : (p : Place) (s : State) → s.place ≡ p → RunsAt s p → Inv (on_sigtstp p s)
unfolding on_sigtstp
on_sigtstp-Inv looping s e h = elim (Bool-cases s.stopped) [
  | inl stops ↦ rw stops (λ alive. (refl, λ q. ground (arith, h q, stops)))
  | inr runs ↦ rw runs (λ alive. (refl, λ q. ground (arith, h q, runs)))
]
on_sigtstp-Inv killing s e h = λ alive. rw e h
on_sigtstp-Inv forking s e h = λ alive. rw e h
on_sigtstp-Inv (assigning p) s e h = λ alive. rw e h

go_on-Inv : (p : Place) (s : State) → s.place ≡ p → RunsAt s p → Inv (go_on p s)
unfolding go_on
go_on-Inv looping s e h = λ alive. rw e h
go_on-Inv killing s e h = λ alive q. ground (arith, h.0, h.1 q)
go_on-Inv forking s e h = λ alive. (h.0, λ q. ground (arith, h.1 q))
go_on-Inv (assigning p) s e h = λ alive q. ground (arith, h.0, h.1 q)

Inv-if : (b : Bool) (t s : State) → (b ≡ true → Inv t) → Inv s → Inv (if b then t else s)
Inv-if true t s h inv = h refl
Inv-if false t s h inv = inv

step-Inv : (e : Event) (s : State) → Inv s → Inv (step e s)
unfolding step on_sigint
step-Inv sigtstp s inv =
    Inv-if s.alive (on_sigtstp s.place s) s (λ alive. on_sigtstp-Inv s.place s refl (inv alive)) inv
step-Inv goes_on s inv =
    Inv-if s.alive (go_on s.place s) s (λ alive. go_on-Inv s.place s refl (inv alive)) inv
step-Inv sigint s inv = Inv-if s.alive (on_sigint s) s (λ alive again. absurd cc) inv

run-Inv : (es : List Event) (s : State) → Inv s → Inv (run es s)
unfolding run
run-Inv [] s inv = inv
run-Inv (e ∷ es) s inv = run-Inv es (step e s) (step-Inv e s inv)

start-Inv : Inv start
unfolding start
start-Inv = λ alive q. ground arith

-- After any signals, while the parent lives and is in its loop, the script of CHILD runs if STOPPED is 0,
-- and no other script runs.
pub run-scripts :
    (es : List Event)
    → (run es start).alive ≡ true
    → (run es start).place ≡ looping
    → (q : ℕ) → (run es start).scripts q ≡ (q == (run es start).child && not (run es start).stopped)
run-scripts es alive there =
    let inv : Inv (run es start) = run-Inv es start start-Inv in
    subst (λ p. RunsAt (run es start) p) there (inv alive)
