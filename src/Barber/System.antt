-- ===== src/Barber/System.antt =====
-- The processes of SysOpy/lab7/src/zad1: one barber and clients that each want some shaves, their
-- rounds in any order.
use semestr.Prelude.{ℕ, ◌-◌, ◌≢◌, ◌==◌, if◌then◌else◌}
use semestr.Barber.{Shop, Turn, open_shop, barber_logic, client_logic}

-- The global `client` of a client process, and the rounds of its `for` loop that are left; with
-- none left the process has exited.
pub record Process : Type 0 where
  pub client : ℕ
  pub shaves : ℕ

-- The client processes by their pids.
pub record System : Type 0 where
  pub shop : Shop
  pub msg : ℕ
  pub process : ℕ → Process

abbrev pub after_turn : System → ℕ → Turn → System
after_turn s pid t = record s {
  shop = t.shop;
  process = λ p.
      if pid == p
      then record {
        client = t.client;
        shaves = if t.over then (s.process pid).shaves - 1 else (s.process pid).shaves;
      }
      else s.process p;
}

abbrev pub after_barber : System → ℕ × Shop → System
after_barber s (msg, shop) = record s { shop = shop; msg = msg }

pub data Step (barber : ℕ) (s : System) : System → Type 0 where
  barber_round : Step barber s (after_barber s (barber_logic barber s.msg s.shop))
  client_round :
      (pid : ℕ)
      → pid ≢ 0
      → (s.process pid).shaves ≢ 0
      → Step barber s (after_turn s pid (client_logic pid (s.process pid).client s.shop))

-- The barber has opened; process `p` is about to ask for `shaves p` shaves.
abbrev pub opened : ℕ → ℕ → (ℕ → ℕ) → System
opened queue_length barber shaves = record {
  shop = open_shop queue_length barber;
  msg = 0;
  process = λ p. record { client = 0; shaves = shaves p };
}

pub data Reach (queue_length barber : ℕ) (shaves : ℕ → ℕ) : System → Type 0 where
  begin : Reach queue_length barber shaves (opened queue_length barber shaves)
  next :
      {s t : System}
      → Reach queue_length barber shaves s
      → Step barber s t
      → Reach queue_length barber shaves t
