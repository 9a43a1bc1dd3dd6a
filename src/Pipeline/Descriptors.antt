-- ===== src/Pipeline/Descriptors.antt =====
-- Which processes of a pipeline can write to which pipe.
use semestr.Prelude.{
  ℕ, zero, suc, ◌+◌, ◌-◌, ◌<◌, ◌≡◌, refl, arith, true, not, ◌&&◌, ◌||◌, List, [], ◌∷◌, ltb, ◌==◌,
  Bool-cases, inl, inr,
}
use semestr.Pipeline.{
  End, terminal, reads, writes, same_end, Fds, make_pipes, close_end, parent_fds, take_input,
  give_output, child_fds, is_open, holds_write,
}

is_open-close_end :
    (j : ℕ) (f : End) (fs : List End)
    → is_open (writes j) (close_end f fs) ≡ (is_open (writes j) fs && not (same_end (writes j) f))
unfolding close_end
is_open-close_end j f [] = refl
is_open-close_end j terminal (terminal ∷ gs) = is_open-close_end j terminal gs
is_open-close_end j terminal (reads i ∷ gs) = is_open-close_end j terminal gs
is_open-close_end j terminal (writes i ∷ gs) = ground (arith, is_open-close_end j terminal gs)
is_open-close_end j (reads k) (terminal ∷ gs) = is_open-close_end j (reads k) gs
is_open-close_end j (reads k) (reads i ∷ gs) = ground (arith, is_open-close_end j (reads k) gs)
is_open-close_end j (reads k) (writes i ∷ gs) = ground (arith, is_open-close_end j (reads k) gs)
is_open-close_end j (writes k) (terminal ∷ gs) = is_open-close_end j (writes k) gs
is_open-close_end j (writes k) (reads i ∷ gs) = is_open-close_end j (writes k) gs
is_open-close_end j (writes k) (writes i ∷ gs) = ground (arith, is_open-close_end j (writes k) gs)

is_open-make_pipes : (j n : ℕ) → is_open (writes j) (make_pipes n) ≡ ltb j n
unfolding make_pipes
is_open-make_pipes j zero = ground arith
is_open-make_pipes j (suc n) = ground (arith, is_open-make_pipes j n)

is_open-close_both :
    (i j : ℕ) (fs : List End)
    → is_open (writes j) (close_end (writes i) (close_end (reads i) fs))
      ≡ (is_open (writes j) fs && not (j == i))
is_open-close_both i j fs =
    rw (is_open-close_end j (writes i) (close_end (reads i) fs), is_open-close_end j (reads i) fs)
      (ground arith)

take_input-is_open :
    (i j : ℕ) (fds : Fds)
    → is_open (writes j) (take_input i fds).others
      ≡ (is_open (writes j) fds.others && not (j + 1 == i))
unfolding take_input
take_input-is_open i j fds = elim (Bool-cases (i == 0)) [
  | inl first ↦ rw first (ground arith)
  | inr later ↦ rw (later, is_open-close_both (i - 1) j fds.others) (ground arith)
]

take_input-output : (i : ℕ) (fds : Fds) → (take_input i fds).output ≡ fds.output
unfolding take_input
take_input-output i fds = ground arith

give_output-holds_write :
    (n i j : ℕ) (fds : Fds)
    → fds.output ≡ terminal
    → j < n - 1
    → holds_write (give_output n i fds) j ≡ (i == j || is_open (writes j) fds.others)
unfolding holds_write give_output
give_output-holds_write n i j fds e h = elim (Bool-cases (i == n - 1)) [
  | inl last ↦ rw (last, e) (ground arith)
  | inr other ↦ rw (other, is_open-close_both i j fds.others) (ground arith)
]

-- The parent can write to every pipe, and so can each child but to the one it reads.
pub child_fds-holds_write :
    (n i j : ℕ)
    → i < n
    → j + 1 < n
    → (holds_write (parent_fds n) j ≡ true) × (holds_write (child_fds n i) j ≡ not (j + 1 == i))
unfolding holds_write child_fds parent_fds
child_fds-holds_write n i j h k = (
  ground (arith, is_open-make_pipes j (n - 1)),
  rw
      (
        child_fds,
        give_output-holds_write n i j (take_input i (parent_fds n))
            (take_input-output i (parent_fds n)) (omega arith),
        take_input-is_open i j (parent_fds n),
        is_open-make_pipes j (n - 1),
      )
      (ground arith),
)
