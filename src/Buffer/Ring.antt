-- ===== src/Buffer/Ring.antt =====
-- The occupied slots of the buffer of SysOpy/lab9/src/zad1/main.c hold a queue of lines.
use semestr.Prelude.{
  ℕ, zero, suc, ◌+◌, ◌≤◌, ◌<◌, ◌≡◌, ◌≢◌, ◌⊎◌, ◌∙◌, sym, refl, Option, none, some, List, [], ◌∷◌,
  ◌++◌, arith, length, get_elem?, set, get_elem?-set_self, get_elem?-set_ne,
}
use semestr.Buffer.{Line, advance}

module _ (len : ℕ) where
  pub advance-lt : (pos : ℕ) → pos < len → advance len pos < len
  unfolding advance
  advance-lt pos h = ground arith

  -- The slot `n` places after `pos`, going round at `len`.
  abbrev pub slot_after : ℕ → ℕ → ℕ
  slot_after zero pos = pos
  slot_after (suc n) pos = slot_after n (advance len pos)

  pub slot_after_lem :
      (n pos : ℕ)
      → pos < len
      → n ≤ len
      → ((pos + n < len) × (slot_after n pos ≡ pos + n))
        ⊎ ((len ≤ pos + n) × (slot_after n pos + len ≡ pos + n))
  unfolding advance
  slot_after_lem zero pos h k = ground arith
  slot_after_lem (suc n) pos h k = ground (arith, slot_after_lem n (advance len pos))

  slot_after-ne : (n pos : ℕ) → pos < len → suc n < len → slot_after (suc n) pos ≢ pos
  slot_after-ne n pos h k = omega (arith, slot_after_lem (suc n) pos h)

  pub advance-slot_after :
      (n pos : ℕ) → slot_after n (advance len pos) ≡ advance len (slot_after n pos)
  advance-slot_after zero pos = refl
  advance-slot_after (suc n) pos = advance-slot_after n (advance len pos)

  -- The slots from `pos` on hold the lines of the queue, oldest first.
  abbrev pub Holds : List (Option Line) → ℕ → List Line → Type 0
  Holds buf pos [] = Unit {0}
  Holds buf pos (l ∷ q) = (get_elem? buf pos ≡ some (some l)) × Holds buf (advance len pos) q

  -- A write to another slot keeps what the slots hold.
  Holds-set :
      (buf : List (Option Line)) (t : ℕ) (v : Option Line) (q : List Line) (pos : ℕ)
      → ((k : ℕ) → k < length q → slot_after k pos ≢ t)
      → Holds buf pos q
      → Holds (set buf t v) pos q
  Holds-set buf t v [] pos away h = tt
  Holds-set buf t v (l ∷ q) pos away h = (
    get_elem?-set_ne buf v (λ e. away 0 (omega arith) (sym e)) ∙ h.0,
    Holds-set buf t v q (advance len pos) (λ k lt. away (suc k) (omega arith)) h.1,
  )

  Holds-snoc :
      (buf : List (Option Line)) (l : Line) (q : List Line) (pos : ℕ)
      → Holds buf pos q
      → get_elem? buf (slot_after (length q) pos) ≡ some (some l)
      → Holds buf pos (q ++ l ∷ [])
  Holds-snoc buf l [] pos h e = (e, tt)
  Holds-snoc buf l (x ∷ q) pos h e = (h.0, Holds-snoc buf l q (advance len pos) h.1 e)

  -- `BUFFER[producerPos] = line` adds the line at the end of the queue.
  pub Holds-push :
      (buf : List (Option Line)) (l : Line) (q : List Line) (pos : ℕ)
      → length buf ≡ len
      → pos < len
      → length q < len
      → Holds buf pos q
      → Holds (set buf (slot_after (length q) pos) (some l)) pos (q ++ l ∷ [])
  Holds-push buf l q pos size h room held =
      Holds-snoc _ l q pos (Holds-set buf _ (some l) q pos away held)
        (get_elem?-set_self buf _ (some l) (omega (arith, slot_after_lem (length q) pos h)))
    where
      away : (k : ℕ) → k < length q → slot_after k pos ≢ slot_after (length q) pos
      away k lt = omega (arith, slot_after_lem (length q) pos h, slot_after_lem k pos h)

  -- Freeing the slot of the oldest line leaves the rest of the queue.
  pub Holds-pop :
      (buf : List (Option Line)) (l : Line) (q : List Line) (pos : ℕ)
      → pos < len
      → length q < len
      → Holds buf pos (l ∷ q)
      → Holds (set buf pos none) (advance len pos) q
  Holds-pop buf l q pos h room held =
      Holds-set buf pos none q (advance len pos) (λ k lt. slot_after-ne k pos h (omega arith))
        held.1
