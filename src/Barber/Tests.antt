-- ===== src/Barber/Tests.antt =====
-- The barber of SysOpy/lab7/src/zad1 at work.
use semestr.Prelude.{ℕ, ◌≡◌, refl, [], ◌∷◌, arith}
use semestr.Barber.{wakes, sits, open_shop, barber_logic, client_logic}
use semestr.Barber.System.{System, barber_round, client_round, Reach, begin, next}
use semestr.Barber.Invariant.{Inv, Reach-Inv}
use semestr.Barber.Deadlock.{Later, lone, double_seat_deadlock}
use semestr.Barber.Semaphore
use semestr.Barber.Semaphore.{
  Semaphore, system_v_start, posix_start, system_v-exclusive, posix-not-exclusive,
}

record Run : Type 0 where
  last : System
  reach : Reach 2 9 (λ _. 1) last

-- The barber falls asleep, client 5 wakes it, client 6 takes a seat.
abbrev waiting_run : Run
unfolding barber_logic client_logic open_shop
waiting_run = record {
  last = _;
  reach =
      next (next (next begin barber_round) (client_round 5 (omega arith) (omega arith)))
        (client_round 6 (omega arith) (omega arith));
}

waiting_run_result : (waiting_run.last.shop.status ≡ wakes) × (waiting_run.last.shop.queue ≡ 6 ∷ [])
unfolding barber_logic client_logic open_shop
waiting_run_result = (refl, refl)

Reach-Inv_example : Inv 2 9 waiting_run.last.shop
Reach-Inv_example = Reach-Inv waiting_run.reach

double_seat_deadlock_example :
    (s : System) × Reach 3 9 (lone 5) s
    × (s.shop.status ≡ sits)
    × (s.shop.client_pid ≡ 5)
    × ((s.process 5).shaves ≡ 0)
    × ((t : System) → Later 9 s t → t.shop ≡ s.shop)
double_seat_deadlock_example = double_seat_deadlock 3 9 5 (omega arith) (omega arith)

record Guarded (start : ℕ) : Type 0 where
  last : Semaphore
  reach : Semaphore.Reach start last

abbrev one_inside : Guarded system_v_start
unfolding system_v_start
one_inside = record {
  last = _;
  reach = Semaphore.next Semaphore.begin (Semaphore.wait 4 refl (omega arith));
}
