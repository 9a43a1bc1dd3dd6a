-- ===== src/Prelude/Partial.antt =====
-- Predicates on the result of a step that may not be possible.
use mathlib.Core.Path.{◌≡◌, refl}
use mathlib.Core.Bool.{Bool, true, false}
use mathlib.Core.Option.{Option, none, some}
use semestr.Prelude.Tests.{if◌then◌else◌}

module _ {ℓ} {A : Type ℓ} where
  -- The result has the property, where there is one.
  abbrev pub OnSome : (A → Type 0) → Option A → Type 0
  OnSome P none = Unit {0}
  OnSome P (some a) = P a

  pub OnSome-if :
      (P : A → Type 0) (b : Bool) (a : A) → (b ≡ true → P a) → OnSome P (if b then some a else none)
  OnSome-if P true a h = h refl
  OnSome-if P false a h = tt

  pub OnSome-unless :
      (P : A → Type 0) (b : Bool) (a : A)
      → (b ≡ false → P a)
      → OnSome P (if b then none else some a)
  OnSome-unless P true a h = tt
  OnSome-unless P false a h = h refl
