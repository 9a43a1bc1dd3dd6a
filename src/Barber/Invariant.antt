-- ===== src/Barber/Invariant.antt =====
-- What holds of the shop of SysOpy/lab7/src/zad1 in every reachable state.
use semestr.Prelude.{
  ℕ, ◌+◌, ◌≤◌, ◌≡◌, ◌≢◌, Bool, true, false, List, [], ◌∷◌, ◌++◌, length, length-append, arith,
}
use semestr.Barber.{Status, sleep, sits, invites, Shop, open_shop, barber_logic, client_logic}
use semestr.Barber.System.{System, Step, barber_round, client_round, Reach, begin, next}

-- The invited client has left the queue, and still counts as waiting until it sits.
abbrev pub on_the_way : Status → ℕ
on_the_way sits = 1
on_the_way _ = 0

-- Nobody is being served.
abbrev pub idle : Status → Bool
idle sleep = true
idle invites = true
idle _ = false

-- A pid of a process is not 0.
abbrev pub AllReal : List ℕ → Type 0
AllReal [] = Unit {0}
AllReal (p ∷ ps) = (p ≢ 0) × AllReal ps

pub AllReal-snoc : (ps : List ℕ) (p : ℕ) → AllReal ps → p ≢ 0 → AllReal (ps ++ p ∷ [])
AllReal-snoc [] p h k = (k, tt)
AllReal-snoc (q ∷ ps) p h k = (h.0, AllReal-snoc ps p h.1 k)

pub record Inv (queue_length barber : ℕ) (s : Shop) : Type 0 where
  pub count : s.waiting_clients ≡ length s.queue + on_the_way s.status
  pub room : s.waiting_clients ≤ queue_length
  pub limit : s.queue_length ≡ queue_length
  pub owner : s.barber_pid ≡ barber
  pub served : (idle s.status ≡ true → s.client_pid ≡ 0) × (s.client_pid ≡ 0 → idle s.status ≡ true)
  pub asleep : s.status ≡ sleep → s.waiting_clients ≡ 0
  pub real : AllReal s.queue

module _ {queue_length barber : ℕ} where
  open_shop-Inv : Inv queue_length barber (open_shop queue_length barber)
  unfolding open_shop
  open_shop-Inv = ground arith

  barber-Inv :
      (msg : ℕ) {s : Shop}
      → Inv queue_length barber s
      → Inv queue_length barber (barber_logic barber msg s).1
  unfolding barber_logic
  barber-Inv msg {s} v = ground arith

  client-Inv :
      (me client : ℕ) {s : Shop}
      → me ≢ 0
      → Inv queue_length barber s
      → Inv queue_length barber (client_logic me client s).shop
  unfolding client_logic
  client-Inv me client {s} real v =
      ground (arith, length-append s.queue (me ∷ []), AllReal-snoc s.queue me)

  Step-Inv :
      {s t : System}
      → Step barber s t
      → Inv queue_length barber s.shop
      → Inv queue_length barber t.shop
  Step-Inv {s} barber_round v = barber-Inv s.msg v
  Step-Inv {s} (client_round pid real _) v = client-Inv pid (s.process pid).client real v

-- In every reachable state: the waiting room is not overfull; the messages in the queue and the
-- invited client that is on its way to the chair are as many as `waitingClients` says; a client
-- is being served exactly when the barber neither sleeps nor invites; and the barber sleeps only
-- when nobody waits.
pub Reach-Inv :
    {queue_length barber : ℕ} {shaves : ℕ → ℕ} {s : System}
    → Reach queue_length barber shaves s
    → Inv queue_length barber s.shop
Reach-Inv begin = open_shop-Inv
Reach-Inv (next r st) = Step-Inv st (Reach-Inv r)
