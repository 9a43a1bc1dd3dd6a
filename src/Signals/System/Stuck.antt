-- ===== src/Signals/System/Stuck.antt =====
-- The signals of SysOpy/lab4/src/zad2/zad2.c that are lost, each for a parent and two children: a SIGUSR1 that
-- comes in while another is pending, and a SIGUSR2 that comes in before `sigsuspend`.
use semestr.Prelude.{
  ℕ, suc, ◌≡◌, refl, arith, true, false, none, some, List, [], ◌∷◌, replicate, set, replicate,
  length, length-replicate, ltb, ◌==◌,
}
use semestr.Prelude.Int.{pos}
use semestr.Signals.{Parent, start, after_request, signal_handling}
use semestr.Signals.System.{
  resting, asking, suspended, State, update, start_system, handle_request, handle_permission, Event,
  asks, suspends, resumes, waits, parent_handles, step, run,
}

-- No process of `n` children and their parent goes on.
pub IsStuck : ℕ → State → Type 0
IsStuck n s = (e : Event) → step n e s ≡ none

abbrev pub both_ask : List Event
both_ask = asks 0 ∷ asks 1 ∷ parent_handles ∷ suspends 0 ∷ suspends 1 ∷ []

-- The parent with one request that came in.
abbrev one_kept : ℕ → Parent
one_kept k = record {
  left_requests = pos (suc k);
  requests = suc (suc k);
  pending = set (replicate (suc (suc k)) 0) (suc k) 0;
  granted = [];
}

abbrev both_wait : ℕ → State
both_wait k = record {
  parent = one_kept k;
  request = none;
  child =
      update 1 suspended (update 0 suspended (update 1 asking (update 0 asking (λ i. resting))));
  permission = λ i. false;
}

one_kept_lem : (k : ℕ) → signal_handling 0 (start (suc (suc k))) ≡ some (one_kept k)
unfolding signal_handling start after_request
one_kept_lem k =
    let inside : ltb (suc k) (length {A = ℕ} (replicate (suc (suc k)) 0)) ≡ true =
      ground (arith, length-replicate {A = ℕ} k 0) in
    let more : (suc k == 0) ≡ false = ground arith in
    rw (signal_handling, after_request, inside, more) refl

both_ask-lost : (k : ℕ) → run 2 both_ask (start_system (suc (suc k))) ≡ some (both_wait k)
unfolding run step start_system handle_request
both_ask-lost k = rw (handle_request, one_kept_lem k) refl

both_wait-IsStuck : (k : ℕ) → IsStuck 2 (both_wait k)
unfolding IsStuck step handle_permission
both_wait-IsStuck k (asks i) = ground arith
both_wait-IsStuck k (suspends i) = ground arith
both_wait-IsStuck k (resumes i) = refl
both_wait-IsStuck k (waits i) = ground arith
both_wait-IsStuck k parent_handles = refl

-- Two children that ask at the same time, and a parent that waits for two requests or more: it has one,
-- both children wait for a permission for ever, and so does the parent for them.
pub lost_request :
    (k : ℕ) → (t : State) × (run 2 both_ask (start_system (suc (suc k))) ≡ some t) × IsStuck 2 t
lost_request k = (both_wait k, both_ask-lost k, both_wait-IsStuck k)
