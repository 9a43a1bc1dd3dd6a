-- ===== src/PosixBarber/Rounds.antt =====
-- What the rounds of SysOpy/lab7/src/zad2 do to the shop.
use semestr.Prelude.{ℕ, arith}
use semestr.Barber.{Shop}
use semestr.Barber.Invariant.{Inv}
use semestr.PosixBarber.{open_shop, barber_logic}

module _ {queue_length barber : ℕ} where
  -- The record that `main` of barber.c writes is well-formed.
  pub open_shop-Inv : Inv queue_length barber (open_shop queue_length barber)
  unfolding open_shop
  open_shop-Inv = ground arith

  -- A round of the barber that no other process interrupts keeps the shop well-formed: the room is
  -- not overfull, `waitingClients` counts the queued clients and the invited one, a client is
  -- served exactly when the barber neither sleeps nor invites, and it sleeps only when nobody waits.
  pub barber_logic-Inv :
      (msg : ℕ) (s : Shop)
      → Inv queue_length barber s
      → Inv queue_length barber (barber_logic barber msg s).1
  unfolding barber_logic
  barber_logic-Inv msg s v = ground arith
