-- ===== src/Common/Vec.antt =====
-- Operations of `Vec` with an index: the first position that passes a test, a change in place, and
-- `swap_remove`.
use Prim.Native.Nat.{ℕ, zero, suc}
use mathlib.Core.Bool.{Bool}
use mathlib.Core.List.{List, [], ◌∷◌}
use mathlib.Core.Option.{Option, none, some}
use rust_rcs_client.Common.Tests.{if◌then◌else◌}

abbrev pub next_index : Option ℕ → Option ℕ
next_index none = none
next_index (some i) = some (suc i)

module _ {ℓ} {A : Type ℓ} where
  -- the counter at which a loop over the vector finds its first hit
  unfoldable pub index_of : (A → Bool) → List A → Option ℕ
  index_of p [] = none
  index_of p (x ∷ xs) = if p x then some 0 else next_index (index_of p xs)

  -- The element at `i`, if there is one, becomes `f` of it.
  unfoldable pub modify : (A → A) → ℕ → List A → List A
  modify f i [] = []
  modify f zero (x ∷ xs) = f x ∷ xs
  modify f (suc i) (x ∷ xs) = x ∷ modify f i xs

  abbrev pub insert_second : A → List A → List A
  insert_second x [] = x ∷ []
  insert_second x (l ∷ rest) = l ∷ x ∷ rest

  -- `x ∷ xs` with its last element moved to the front
  unfoldable pub last_to_front : A → List A → List A
  last_to_front x [] = x ∷ []
  last_to_front x (y ∷ ys) = insert_second x (last_to_front y ys)

  -- The last element takes the place of the one removed.
  unfoldable pub swap_remove : ℕ → List A → List A
  swap_remove i [] = []
  swap_remove zero (x ∷ []) = []
  swap_remove zero (x ∷ y ∷ ys) = last_to_front y ys
  swap_remove (suc i) (x ∷ xs) = x ∷ swap_remove i xs
