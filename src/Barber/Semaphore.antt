-- ===== src/Barber/Semaphore.antt =====
-- The semaphore of SysOpy/lab7: every round of `barberLogic` and `clientLogic` stands between a
-- wait and a post. zad1 counts from a System V semaphore, which the kernel creates at 0 and `main`
-- raises once; zad2 opens a POSIX semaphore at 1, and `main` posts to it as well.
use semestr.Prelude.{
  ℕ, ◌+◌, ◌-◌, ◌≤◌, ◌<◌, ◌≡◌, ◌≢◌, refl, Bool, true, false, ◌==◌, if◌then◌else◌, arith,
}

-- The semaphore's value after `main` of zad1/barber.c (`semget`, then `semop` by 1).
unfoldable pub system_v_start : ℕ
system_v_start = 0 + 1

-- The semaphore's value after `main` of zad2/barber.c (`sem_open` at 1, then `sem_post`).
unfoldable pub posix_start : ℕ
posix_start = 1 + 1

-- The value, and which processes stand between their wait and their post.
pub record Semaphore : Type 0 where
  pub value : ℕ
  pub inside : ℕ → Bool

abbrev pub mark : (ℕ → Bool) → ℕ → Bool → ℕ → Bool
mark inside i b j = if i == j then b else inside j

-- A wait passes only at a positive value.
pub data Step (s : Semaphore) : Semaphore → Type 0 where
  wait :
      (i : ℕ)
      → s.inside i ≡ false
      → 0 < s.value
      → Step s (record { value = s.value - 1; inside = mark s.inside i true })
  post :
      (i : ℕ)
      → s.inside i ≡ true
      → Step s (record { value = s.value + 1; inside = mark s.inside i false })

abbrev pub fresh : ℕ → Semaphore
fresh v = record { value = v; inside = λ _. false }

pub data Reach (start : ℕ) : Semaphore → Type 0 where
  begin : Reach start (fresh start)
  next : {s t : Semaphore} → Reach start s → Step s t → Reach start t

-- With one unit in all: a positive value means that nobody is inside, and two never are.
record Inv (s : Semaphore) : Type 0 where
  small : s.value ≤ 1
  free : (i : ℕ) → s.inside i ≡ true → s.value ≡ 0
  alone : (i j : ℕ) → s.inside i ≡ true → s.inside j ≡ true → i ≡ j

Step-Inv : {s t : Semaphore} → Step s t → Inv s → Inv t
Step-Inv (wait i out up) v = record {
  small = omega (arith, v.small);
  free = λ j e. omega (arith, v.small);
  alone = λ j k e f. ground (arith, v.free j, v.free k);
}
Step-Inv (post i e) v = record {
  small = omega (arith, v.free i e);
  free = λ j f. ground (arith, v.alone i j);
  alone = λ j k f g. ground (arith, v.alone i j, v.alone i k);
}

Reach-Inv : {s : Semaphore} → Reach system_v_start s → Inv s
unfolding system_v_start
Reach-Inv begin = record { small = omega arith; free = λ i e. cc; alone = λ i j e f. cc }
Reach-Inv (next r st) = Step-Inv st (Reach-Inv r)

-- In zad1 two processes are never between their wait and their post together.
pub system_v-exclusive :
    {s : Semaphore}
    → Reach system_v_start s
    → (i j : ℕ) → s.inside i ≡ true
    → s.inside j ≡ true
    → i ≡ j
system_v-exclusive r = (Reach-Inv r).alone

-- In zad2 any two processes can be: the semaphore starts at 2.
pub posix-not-exclusive :
    (i j : ℕ)
    → i ≢ j
    → (s : Semaphore) × Reach posix_start s × (s.inside i ≡ true) × (s.inside j ≡ true)
unfolding posix_start
posix-not-exclusive i j ne = (
  _,
  next (next begin (wait i refl (omega arith))) (wait j (ground arith) (omega arith)),
  ground arith,
  ground arith,
)
