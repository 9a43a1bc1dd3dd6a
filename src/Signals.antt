-- ===== src/Signals.antt =====
-- SysOpy/lab4/src/zad2/zad2.c: a parent that counts the requests (SIGUSR1) of its children. It keeps
-- the first ones pending, grants them all (SIGUSR2) when the last of that number comes in, and
-- grants each later one at once. The handler runs with all signals but SIGINT blocked, so a request is
-- one step. `none` is an access outside PENDING.
pub mod Grants
pub mod Options
pub mod System
mod Tests
use semestr.Prelude.{
  ℕ, zero, suc, ◌+◌, Bool, true, false, Option, none, some, List, [], ◌∷◌, ◌++◌, get_elem?, set,
  replicate, length, ltb, ◌==◌, if◌then◌else◌, ◌>>=◌,
}
use semestr.Prelude.Int.{ℤ, pos, negsuc}

-- The globals LEFTREQUESTS, REQUESTS and PENDING, with the pids that were sent SIGUSR2, oldest first.
pub record Parent : Type 0 where
  pub left_requests : ℤ
  pub requests : ℕ
  pub pending : List ℕ
  pub granted : List ℕ

-- `parse`: the globals before the children are started.
unfoldable pub start : ℕ → Parent
start n = record { left_requests = pos n; requests = n; pending = replicate n 0; granted = [] }

-- `LEFTREQUESTS--`
abbrev pub decrement : ℤ → ℤ
decrement (pos zero) = negsuc 0
decrement (pos (suc n)) = pos n
decrement (negsuc n) = negsuc (n + 1)

-- The loop over PENDING from `i` on, with the rounds that are left.
unfoldable pub grant_pending : List ℕ → ℕ → ℕ → List ℕ → Option (List ℕ)
grant_pending pending zero i granted = some granted
grant_pending pending (suc n) i granted = do
  pid ← get_elem? pending i
  grant_pending pending n (i + 1) (granted ++ pid ∷ [])

-- The test of `LEFTREQUESTS` after a request, and what it leads to.
unfoldable pub after_request : ℕ → ℤ → Parent → Option Parent
unfolding grant_pending
after_request pid (negsuc n) s =
    some (record s { left_requests = negsuc n; granted = s.granted ++ pid ∷ [] })
after_request pid (pos k) s =
    let pending = set s.pending k pid in
    let wait = record s { left_requests = pos k; pending = pending } in
    let all = (do
      granted ← grant_pending pending s.requests 0 s.granted
      some (record s { left_requests = pos k; pending = pending; granted = granted })) in
    if ltb k (length s.pending) then (if k == 0 then all else some wait) else none

-- The case SIGUSR1 of `signalHandling`.
unfoldable pub signal_handling : ℕ → Parent → Option Parent
unfolding after_request
signal_handling pid s = after_request pid (decrement s.left_requests) s

-- The requests in the order of their signals.
unfoldable pub requests : List ℕ → Parent → Option Parent
requests [] s = some s
requests (pid ∷ pids) s = do t ← signal_handling pid s; requests pids t
