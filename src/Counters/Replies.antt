-- ===== src/Counters/Replies.antt =====
-- Type 2, where the parent waits for an answer to each of its signals.
use semestr.Prelude.{
  OnSome, OnSome-if, OnSome-unless, ℕ, zero, suc, ◌+◌, ◌≤◌, ◌≡◌, refl, subst, arith, some, true,
  false, List, ◌==◌, ◌&&◌,
}
use semestr.Counters.{
  State, Phase, sending, before_pause, pausing, real_time, sleeping, waiting, returned, killed,
  licence_to_kill, pend, send_one, parent_runs, woken, is_over, parent_handles, child_handles,
  child_dies, interrupted, Event, parent_step, parent_handler, child_handler, child_usr2_handler,
  interrupt, step, run,
}
use semestr.Counters.Counts.{run-keeps}

-- The signals sent and those on their way, in each phase.
abbrev Balanced : ℕ → ℕ → ℕ → Phase → Type 0
Balanced n sent flying (sending k) = (sent + k ≡ n) × (flying ≡ 0)
Balanced n sent flying (before_pause k) = sent + k ≡ n
Balanced n sent flying (pausing k) = sent + k ≡ n
Balanced n sent flying (real_time k) = ⊥
Balanced n sent flying sleeping = ⊥
Balanced n sent flying waiting = (sent ≡ n) × (flying ≡ 0)
Balanced n sent flying returned = (sent ≡ n) × (flying ≡ 0)
Balanced n sent flying killed = Unit {0}

record Inv (n : ℕ) (s : State) : Type 0 where
  two : s.kind ≡ 2
  taken : s.sent ≡ s.received_child + s.child_pending
  answered : s.received_child ≡ s.received_parent + s.parent_pending
  single : s.child_pending + s.parent_pending ≤ 1
  phase : Balanced n s.sent (s.child_pending + s.parent_pending) s.parent

start-Inv : (n : ℕ) → Inv n (licence_to_kill n 2)
unfolding licence_to_kill
start-Inv n = record {
  two = refl;
  taken = refl;
  answered = refl;
  single = omega arith;
  phase = (omega arith, refl);
}

parent_runs-Inv :
    (n : ℕ) (p : Phase) (s : State)
    → Inv n s
    → Balanced n s.sent (s.child_pending + s.parent_pending) p
    → OnSome (Inv n) (parent_runs p s)
unfolding parent_runs send_one
parent_runs-Inv n (sending (suc k)) s inv h =
    let two : (s.kind == 2) ≡ true = ground (arith, inv.two) in
    let three : (s.kind == 3) ≡ false = ground (arith, inv.two) in
    record {
      two = inv.two;
      taken = rw three (omega (arith, inv.taken, h));
      answered = inv.answered;
      single = rw three (omega (arith, h));
      phase = rw two (omega (arith, h));
    }
parent_runs-Inv n (sending zero) s inv h = record {
  two = inv.two;
  taken = inv.taken;
  answered = inv.answered;
  single = inv.single;
  phase = (omega (arith, h), h.1);
}
parent_runs-Inv n (before_pause k) s inv h = record {
  two = inv.two;
  taken = inv.taken;
  answered = inv.answered;
  single = inv.single;
  phase = h;
}
parent_runs-Inv n (pausing k) s inv h = tt
parent_runs-Inv n (real_time k) s inv h = absurd h
parent_runs-Inv n sleeping s inv h = absurd h
parent_runs-Inv n waiting s inv h =
    OnSome-unless (Inv n) s.child_alive (record s { parent = returned })
      (λ dead. record {
        two = inv.two;
        taken = inv.taken;
        answered = inv.answered;
        single = inv.single;
        phase = h;
      })
parent_runs-Inv n returned s inv h = tt
parent_runs-Inv n killed s inv h = tt

-- A handler of the parent with its signal, the last on its way.
woken-Balanced :
    (n sent k : ℕ) (p : Phase)
    → is_over p ≡ false
    → Balanced n sent (suc k) p
    → k ≡ 0
    → Balanced n sent k (woken p)
woken-Balanced n sent k (sending j) on h last = absurd (omega (arith, h))
woken-Balanced n sent k (before_pause j) on h last = h
woken-Balanced n sent k (pausing j) on h last = (h, last)
woken-Balanced n sent k (real_time j) on h last = absurd h
woken-Balanced n sent k sleeping on h last = absurd h
woken-Balanced n sent k waiting on h last = absurd (omega (arith, h))
woken-Balanced n sent k returned on h last = cc
woken-Balanced n sent k killed on h last = cc

-- A handler of the child, which sends what it takes on.
same-Balanced : (n sent a b : ℕ) (p : Phase) → a ≡ b → Balanced n sent a p → Balanced n sent b p
same-Balanced n sent a b p e h = subst (λ f. Balanced n sent f p) e h

parent_handles-Inv :
    (n k : ℕ) (s : State) → s.parent_pending ≡ k → Inv n s → OnSome (Inv n) (parent_handles k s)
unfolding parent_handles
parent_handles-Inv n zero s e inv = tt
parent_handles-Inv n (suc k) s e inv =
    OnSome-unless (Inv n) (is_over s.parent)
      (record s {
        parent_pending = k;
        received_parent = s.received_parent + 1;
        parent = woken s.parent;
      })
      (λ on. record {
        two = inv.two;
        taken = inv.taken;
        answered = omega (arith, inv.answered);
        single = omega (arith, inv.single);
        phase =
            woken-Balanced n s.sent (s.child_pending + k) s.parent on
              (same-Balanced n s.sent (s.child_pending + s.parent_pending)
                (suc (s.child_pending + k)) s.parent (omega arith) inv.phase)
              (omega (arith, inv.single));
      })

child_handles-Inv :
    (n k : ℕ) (s : State) → s.child_pending ≡ k → Inv n s → OnSome (Inv n) (child_handles k s)
unfolding child_handles
child_handles-Inv n zero s e inv = tt
child_handles-Inv n (suc k) s e inv =
    let three : (s.kind == 3) ≡ false = ground (arith, inv.two) in
    OnSome-if (Inv n) s.child_alive
      (record s {
        child_pending = k;
        received_child = s.received_child + 1;
        parent_pending = pend s.kind s.parent_pending;
      })
      (λ alive. record {
        two = inv.two;
        taken = omega (arith, inv.taken);
        answered = rw three (omega (arith, inv.answered, inv.single));
        single = rw three (omega (arith, inv.single));
        phase = rw three (
            same-Balanced n s.sent (s.child_pending + s.parent_pending) (k + 1) s.parent
              (omega (arith, inv.single)) inv.phase);
      })

step-Inv : (n : ℕ) (e : Event) (s : State) → Inv n s → OnSome (Inv n) (step e s)
unfolding step child_dies interrupted
step-Inv n parent_step s inv = parent_runs-Inv n s.parent s inv inv.phase
step-Inv n parent_handler s inv = parent_handles-Inv n s.parent_pending s refl inv
step-Inv n child_handler s inv = child_handles-Inv n s.child_pending s refl inv
step-Inv n child_usr2_handler s inv =
    OnSome-if (Inv n) (s.child_alive && s.child_usr2)
      (record s { child_alive = false; child_usr2 = false })
      (λ h. record {
        two = inv.two;
        taken = inv.taken;
        answered = inv.answered;
        single = inv.single;
        phase = inv.phase;
      })
step-Inv n interrupt s inv =
    OnSome-unless (Inv n) (is_over s.parent)
      (record s { child_usr2 = s.child_alive; parent = killed })
      (λ h. record {
        two = inv.two;
        taken = inv.taken;
        answered = inv.answered;
        single = inv.single;
        phase = tt;
      })

-- In type 2 no signal is lost: when the parent has returned, it has sent all signals asked for, and the
-- child and the parent have counted each of them.
pub replies :
    (n : ℕ) (es : List Event) (t : State)
    → run es (licence_to_kill n 2) ≡ some t
    → t.parent ≡ returned
    → (t.sent ≡ n) × (t.received_child ≡ n) × (t.received_parent ≡ n)
replies n es t e over =
    let inv = run-keeps (Inv n) es (licence_to_kill n 2) t (step-Inv n) e (start-Inv n) in
    let end : (t.sent ≡ n) × (t.child_pending + t.parent_pending ≡ 0) =
      subst (Balanced n t.sent (t.child_pending + t.parent_pending)) over inv.phase in
    (end.0, omega (arith, inv.taken, end), omega (arith, inv.taken, inv.answered, end))
