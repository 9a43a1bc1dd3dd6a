-- ===== src/Counters/Counts.antt =====
-- What the counters of types 1 and 2 say in any order of the steps.
use semestr.Prelude.{
  OnSome, OnSome-if, OnSome-unless, ℕ, zero, suc, ◌+◌, ◌≤◌, ◌<◌, ◌≡◌, refl, subst, arith, none,
  some, Option-cases, inl, inr, Bool-cases, true, false, List, [], ◌∷◌, ltb, ◌==◌, ◌&&◌,
}
use semestr.Counters.{
  State, Phase, sending, before_pause, pausing, real_time, sleeping, waiting, returned, killed,
  licence_to_kill, pend, send_one, parent_runs, woken, is_over, parent_handles, child_handles,
  child_dies, interrupted, Event, parent_step, parent_handler, child_handler, child_usr2_handler,
  interrupt, step, run,
}

-- The signals of a phase: sent and still to be sent.
abbrev pub SentOf : ℕ → ℕ → Phase → Type 0
SentOf n sent (sending k) = sent + k ≡ n
SentOf n sent (before_pause k) = sent + k ≡ n
SentOf n sent (pausing k) = sent + k ≡ n
SentOf n sent (real_time k) = ⊥
SentOf n sent sleeping = ⊥
SentOf n sent waiting = sent ≡ n
SentOf n sent returned = sent ≡ n
SentOf n sent killed = sent ≤ n

pub record Inv (n : ℕ) (s : State) : Type 0 where
  pub low : s.kind < 3
  pub answered : s.received_parent + s.parent_pending ≤ s.received_child
  pub taken : s.received_child + s.child_pending ≤ s.sent
  pub phase : SentOf n s.sent s.parent

start-Inv : (n kind : ℕ) → kind < 3 → Inv n (licence_to_kill n kind)
unfolding licence_to_kill
start-Inv n kind h =
    let small : ltb kind 3 ≡ true = ground arith in
    record { low = h; answered = omega arith; taken = omega arith; phase = rw small (omega arith) }

parent_runs-Inv :
    (n : ℕ) (p : Phase) (s : State) → Inv n s → SentOf n s.sent p → OnSome (Inv n) (parent_runs p s)
unfolding parent_runs send_one
parent_runs-Inv n (sending (suc k)) s inv h = record {
  low = inv.low;
  answered = inv.answered;
  taken = ground (arith, inv.low, inv.taken);
  phase = elim (Bool-cases (s.kind == 2)) [
    | inl two ↦ rw two (omega arith)
    | inr other ↦ rw other (omega arith)
  ];
}
parent_runs-Inv n (sending zero) s inv h = record {
  low = inv.low;
  answered = inv.answered;
  taken = inv.taken;
  phase = omega arith;
}
parent_runs-Inv n (before_pause k) s inv h = record {
  low = inv.low;
  answered = inv.answered;
  taken = inv.taken;
  phase = h;
}
parent_runs-Inv n (pausing k) s inv h = tt
parent_runs-Inv n (real_time k) s inv h = absurd h
parent_runs-Inv n sleeping s inv h = absurd h
parent_runs-Inv n waiting s inv h =
    OnSome-unless (Inv n) s.child_alive (record s { parent = returned })
      (λ dead. record { low = inv.low; answered = inv.answered; taken = inv.taken; phase = h })
parent_runs-Inv n returned s inv h = tt
parent_runs-Inv n killed s inv h = tt

woken-SentOf : (n sent : ℕ) (p : Phase) → SentOf n sent p → SentOf n sent (woken p)
woken-SentOf n sent (sending k) h = h
woken-SentOf n sent (before_pause k) h = h
woken-SentOf n sent (pausing k) h = h
woken-SentOf n sent (real_time k) h = absurd h
woken-SentOf n sent sleeping h = absurd h
woken-SentOf n sent waiting h = h
woken-SentOf n sent returned h = h
woken-SentOf n sent killed h = h

Sent_le : (n sent : ℕ) (p : Phase) → SentOf n sent p → sent ≤ n
Sent_le n sent (sending k) h = omega arith
Sent_le n sent (before_pause k) h = omega arith
Sent_le n sent (pausing k) h = omega arith
Sent_le n sent (real_time k) h = absurd h
Sent_le n sent sleeping h = absurd h
Sent_le n sent waiting h = omega arith
Sent_le n sent returned h = omega arith
Sent_le n sent killed h = h

parent_handles-Inv :
    (n k : ℕ) (s : State) → s.parent_pending ≡ k → Inv n s → OnSome (Inv n) (parent_handles k s)
unfolding parent_handles
parent_handles-Inv n zero s e inv = tt
parent_handles-Inv n (suc k) s e inv =
    OnSome-unless (Inv n) (is_over s.parent)
      (record s {
        parent_pending = k;
        received_parent = s.received_parent + 1;
        parent = woken s.parent;
      })
      (λ on. record {
        low = inv.low;
        answered = omega (arith, inv.answered);
        taken = inv.taken;
        phase = woken-SentOf n s.sent s.parent inv.phase;
      })

child_handles-Inv :
    (n k : ℕ) (s : State) → s.child_pending ≡ k → Inv n s → OnSome (Inv n) (child_handles k s)
unfolding child_handles
child_handles-Inv n zero s e inv = tt
child_handles-Inv n (suc k) s e inv =
    OnSome-if (Inv n) s.child_alive
      (record s {
        child_pending = k;
        received_child = s.received_child + 1;
        parent_pending = pend s.kind s.parent_pending;
      })
      (λ alive. record {
        low = inv.low;
        answered = ground (arith, inv.low, inv.answered);
        taken = omega (arith, inv.taken);
        phase = inv.phase;
      })

step-Inv : (n : ℕ) (e : Event) (s : State) → Inv n s → OnSome (Inv n) (step e s)
unfolding step child_dies interrupted
step-Inv n parent_step s inv = parent_runs-Inv n s.parent s inv inv.phase
step-Inv n parent_handler s inv = parent_handles-Inv n s.parent_pending s refl inv
step-Inv n child_handler s inv = child_handles-Inv n s.child_pending s refl inv
step-Inv n child_usr2_handler s inv =
    OnSome-if (Inv n) (s.child_alive && s.child_usr2)
      (record s { child_alive = false; child_usr2 = false })
      (λ h. record { low = inv.low; answered = inv.answered; taken = inv.taken; phase = inv.phase })
step-Inv n interrupt s inv =
    OnSome-unless (Inv n) (is_over s.parent)
      (record s { child_usr2 = s.child_alive; parent = killed })
      (λ h. record {
        low = inv.low;
        answered = inv.answered;
        taken = inv.taken;
        phase = Sent_le n s.sent s.parent inv.phase;
      })

-- What every step keeps, every run keeps.
pub run-keeps :
    (P : State → Type 0) (es : List Event) (s t : State)
    → ((e : Event) (u : State) → P u → OnSome P (step e u))
    → run es s ≡ some t
    → P s
    → P t
unfolding run
run-keeps P [] s t keeps e h = let same : s ≡ t = cc in subst P same h
run-keeps P (e ∷ es) s t keeps f h = elim (Option-cases (step e s)) [
  | inl none_left ↦ let stuck : run (e ∷ es) s ≡ none = rw (run, none_left) refl in absurd cc
  | inr (u, g) ↦
      let rest : run es u ≡ some t = rw (← f, run, g) refl in
      run-keeps P es u t keeps rest (subst (OnSome P) g (keeps e s h))
]

-- In types 1 and 2 the parent has counted at most what the child has, and the child at most what the
-- parent has sent; when the parent has returned, all signals asked for are sent.
pub counts :
    (n kind : ℕ) (es : List Event) (t : State)
    → kind < 3
    → run es (licence_to_kill n kind) ≡ some t
    → (t.received_parent ≤ t.received_child)
      × (t.received_child ≤ t.sent)
      × (t.sent ≤ n)
      × (t.parent ≡ returned → t.sent ≡ n)
counts n kind es t h e =
    let inv = run-keeps (Inv n) es (licence_to_kill n kind) t (step-Inv n) e (start-Inv n kind h) in
    (
      omega (arith, inv.answered),
      omega (arith, inv.taken),
      Sent_le n t.sent t.parent inv.phase,
      λ over. subst (SentOf n t.sent) over inv.phase,
    )
