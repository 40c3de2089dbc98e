-- ===== src/Common/Keys.antt =====
-- Vectors whose elements carry a key that occurs once: which keys occur, and what `swap_remove`
-- leaves.
use mathlib.Core.Bool.{Bool, true, false, not, ◌&&◌, ◌||◌}
use mathlib.Core.List.{List, [], ◌∷◌}
use mathlib.Core.Logic.{inl, inr}
use mathlib.Core.Option.{none, some}
use mathlib.Core.Path.{◌≡◌, refl, sym, ap, ◌∙◌, subst}
use native.Mathlib.Omega.{arith}
use rust_rcs_client.Common.Tests.{Bool-cases, Option-cases}
use rust_rcs_client.Common.Text.{Bytes, bytes_eq, bytes_eq_iff}
use rust_rcs_client.Common.Vec.{index_of, last_to_front, insert_second, swap_remove}

abbrev pub any {ℓ} : {A : Type ℓ} → (A → Bool) → List A → Bool
any p [] = false
any p (x ∷ xs) = p x || any p xs

abbrev pub has_key {ℓ} : {A : Type ℓ} → (A → Bytes) → Bytes → List A → Bool
has_key key k [] = false
has_key key k (x ∷ xs) = bytes_eq (key x) k || has_key key k xs

-- No key occurs twice.
abbrev pub Distinct {ℓ} : {A : Type ℓ} → (A → Bytes) → List A → Type 0
Distinct key [] = Unit
Distinct key (x ∷ xs) = (has_key key (key x) xs ≡ false) × Distinct key xs

-- A loop that removes, by `swap_remove` at its counter, the first element with the key.
unfoldable pub remove_key {ℓ} : {A : Type ℓ} → (A → Bytes) → Bytes → List A → List A
unfolding index_of swap_remove
remove_key key k xs = elim (index_of (λ x. bytes_eq (key x) k) xs) [
  | none ↦ xs
  | some i ↦ swap_remove i xs
]

module _ {ℓ} {A : Type ℓ} (p : A → Bool) where
  any-insert_second : (x : A) (xs : List A) → any p (insert_second x xs) ≡ (p x || any p xs)
  any-insert_second x [] = refl
  any-insert_second x (y ∷ ys) = ground arith

  -- Moving the last element to the front changes no test of the elements.
  pub any-last_to_front : (x : A) (xs : List A) → any p (last_to_front x xs) ≡ (p x || any p xs)
  unfolding last_to_front
  any-last_to_front x [] = refl
  any-last_to_front x (y ∷ ys) =
      any-insert_second x (last_to_front y ys) ∙ ap (λ b. p x || b) (any-last_to_front y ys)

module _ {ℓ} {A : Type ℓ} (key : A → Bytes) where
  has_key-any : (k : Bytes) (xs : List A) → has_key key k xs ≡ any (λ x. bytes_eq (key x) k) xs
  has_key-any k [] = refl
  has_key-any k (x ∷ xs) = ap (λ b. bytes_eq (key x) k || b) (has_key-any k xs)

  pub has_key-last_to_front :
      (k : Bytes) (x : A) (xs : List A)
      → has_key key k (last_to_front x xs) ≡ (bytes_eq (key x) k || has_key key k xs)
  has_key-last_to_front k x xs =
      has_key-any k (last_to_front x xs)
      ∙ any-last_to_front (λ y. bytes_eq (key y) k) x xs
      ∙ ap (λ b. bytes_eq (key x) k || b) (sym (has_key-any k xs))

  Distinct-insert_second :
      (x : A) (xs : List A)
      → has_key key (key x) xs ≡ false
      → Distinct key xs
      → Distinct key (insert_second x xs)
  Distinct-insert_second x [] h d = (refl, tt)
  Distinct-insert_second x (y ∷ ys) h d = (
    ground (arith, bytes_eq_iff (key x) (key y), bytes_eq_iff (key y) (key x)),
    (ground arith, d.1),
  )

  pub Distinct-last_to_front :
      (x : A) (xs : List A)
      → has_key key (key x) xs ≡ false
      → Distinct key xs
      → Distinct key (last_to_front x xs)
  unfolding last_to_front
  Distinct-last_to_front x [] h d = (refl, tt)
  Distinct-last_to_front x (y ∷ ys) h d =
      Distinct-insert_second x (last_to_front y ys) (has_key-last_to_front (key x) y ys ∙ h)
        (Distinct-last_to_front y ys d.0 d.1)

  -- the two ways of a step of the removing loop
  remove_key-later :
      (k : Bytes) (x : A) (xs : List A)
      → bytes_eq (key x) k ≡ false
      → remove_key key k (x ∷ xs) ≡ x ∷ remove_key key k xs
  unfolding remove_key
  remove_key-later k x xs h = elim (Option-cases (index_of (λ y. bytes_eq (key y) k) xs)) [
    | inl e ↦ ground arith
    | inr (i, e) ↦ ground arith
  ]

  remove_key-here :
      (k : Bytes) (x y : A) (ys : List A)
      → bytes_eq (key x) k ≡ true
      → remove_key key k (x ∷ y ∷ ys) ≡ last_to_front y ys
  unfolding remove_key
  remove_key-here k x y ys h = ground arith

  remove_key-last : (k : Bytes) (x : A) → bytes_eq (key x) k ≡ true → remove_key key k (x ∷ []) ≡ []
  unfolding remove_key
  remove_key-last k x h = ground arith

  removed :
      (r k : Bytes) (x : A) (xs : List A)
      → has_key key (key x) xs ≡ false
      → bytes_eq (key x) r ≡ true
      → has_key key k (remove_key key r (x ∷ xs)) ≡ (has_key key k (x ∷ xs) && not (bytes_eq r k))
  removed r k x [] h here =
      rw (remove_key-last r x here)
        (ground (arith, bytes_eq_iff r k, bytes_eq_iff (key x) k, bytes_eq_iff (key x) r))
  removed r k x (y ∷ ys) h here =
      rw (remove_key-here r x y ys here, has_key-last_to_front k y ys)
        (elim (Bool-cases (bytes_eq r k)) [
          | inl same ↦
              let e : key x ≡ k = (bytes_eq_iff (key x) r).0 here ∙ (bytes_eq_iff r k).0 same in
              let gone = subst (λ j. has_key key j (y ∷ ys) ≡ false) e h in ground arith
          | inr apart ↦
              ground (arith, bytes_eq_iff r k, bytes_eq_iff (key x) k, bytes_eq_iff (key x) r)
        ])

  Distinct-removed :
      (r : Bytes) (x : A) (xs : List A)
      → Distinct key (x ∷ xs)
      → bytes_eq (key x) r ≡ true
      → Distinct key (remove_key key r (x ∷ xs))
  Distinct-removed r x [] d here = rw (remove_key-last r x here) tt
  Distinct-removed r x (y ∷ ys) d here =
      rw (remove_key-here r x y ys here) (Distinct-last_to_front y ys d.1.0 d.1.1)

  -- A key that occurs once is gone, and every other key stays.
  pub has_key-remove_key :
      (r k : Bytes) (xs : List A)
      → Distinct key xs
      → has_key key k (remove_key key r xs) ≡ (has_key key k xs && not (bytes_eq r k))
  has_key-remove_key r k [] d = unfold remove_key in refl
  has_key-remove_key r k (x ∷ xs) d = elim (Bool-cases (bytes_eq (key x) r)) [
    | inl here ↦ removed r k x xs d.0 here
    | inr later ↦ rw (remove_key-later r x xs later) (
        ground (
          arith,
          has_key-remove_key r k xs d.1,
          bytes_eq_iff r k,
          bytes_eq_iff (key x) k,
          bytes_eq_iff (key x) r,
        ))
  ]

  pub Distinct-remove_key :
      (r : Bytes) (xs : List A) → Distinct key xs → Distinct key (remove_key key r xs)
  Distinct-remove_key r [] d = unfold remove_key in tt
  Distinct-remove_key r (x ∷ xs) d = elim (Bool-cases (bytes_eq (key x) r)) [
    | inl here ↦ Distinct-removed r x xs d here
    | inr later ↦
        rw (remove_key-later r x xs later)
          (ground (arith, has_key-remove_key r (key x) xs d.1), Distinct-remove_key r xs d.1)
  ]
