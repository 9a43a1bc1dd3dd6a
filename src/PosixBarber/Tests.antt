-- ===== src/PosixBarber/Tests.antt =====
-- A round of SysOpy/lab7/src/zad2: client 5 takes a seat in the shop that barber 9 opened with two chairs
-- and where client 4 is shaved.
use semestr.Prelude.{◌≡◌, refl, [], ◌∷◌}
use semestr.Barber.{Shop, ends}
use semestr.PosixBarber.{open_shop, client_logic}

abbrev busy : Shop
busy = record (open_shop 2 9) { status = ends; client_pid = 4 }

seat_test : (client_logic 5 0 busy).shop.queue ≡ 5 ∷ []
unfolding client_logic open_shop
seat_test = refl
