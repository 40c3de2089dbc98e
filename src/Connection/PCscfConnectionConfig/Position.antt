-- ===== src/Connection/PCscfConnectionConfig/Position.antt =====
-- The position that `get_next` looks at, and the address there.
use rust_rcs_client.Common.{
  ℕ, zero, suc, ◌<◌, List, [], ◌∷◌, ◌++◌, some, ◌≡◌, refl, ap, ◌∙◌, inl, inr, arith, Bytes, ltb,
  length, get_elem?, length-append, All, Bool-cases, subst,
}
use native.Mathlib.Nat.{mod-lt, mod-eq_of_lt, mod_self}
use rust_rcs_client.Connection.PCscfConnectionConfig.{PCscfConnectionConfig, position}

pub position-lt :
    (p : ℕ) (addresses : List (Bytes × Bytes))
    → 0 < length addresses
    → position p addresses < length addresses
unfolding position
position-lt p addresses h = elim (Bool-cases (ltb 1 (length addresses))) [
  | inl several ↦ rw several (mod-lt p h)
  | inr one ↦ rw one h
]

-- a position in the list is kept, and the one at its end is the first
pub position_in :
    (p : ℕ) (addresses : List (Bytes × Bytes)) → p < length addresses → position p addresses ≡ p
unfolding position
position_in p addresses h = elim (Bool-cases (ltb 1 (length addresses))) [
  | inl several ↦ rw several (mod-eq_of_lt h)
  | inr one ↦ rw one (ground arith)
]

pub position_at_end : (addresses : List (Bytes × Bytes)) → position (length addresses) addresses ≡ 0
unfolding position
position_at_end addresses = elim (Bool-cases (ltb 1 (length addresses))) [
  | inl several ↦ rw several (mod_self (length addresses))
  | inr one ↦ rw one refl
]

pub position_zero : (addresses : List (Bytes × Bytes)) → position 0 addresses ≡ 0
position_zero [] = unfold position in refl
position_zero (x ∷ xs) = position_in 0 (x ∷ xs) (omega arith)

module _ {ℓ} {A : Type ℓ} where
  pub get_elem-middle :
      (pre : List A) (x : A) (post : List A) → get_elem? (pre ++ x ∷ post) (length pre) ≡ some x
  get_elem-middle [] x post = refl
  get_elem-middle (y ∷ pre) x post = get_elem-middle pre x post

  pub get_elem-lt : (xs : List A) (i : ℕ) → i < length xs → (x : A) × (get_elem? xs i ≡ some x)
  get_elem-lt [] i h = absurd (omega arith)
  get_elem-lt (x ∷ xs) zero h = (x, refl)
  get_elem-lt (x ∷ xs) (suc i) h = get_elem-lt xs i (omega arith)

  pub All-get_elem :
      (P : A → Type 0) (xs : List A) (i : ℕ) (x : A) → All P xs → get_elem? xs i ≡ some x → P x
  All-get_elem P [] i x ps e = ground (arith, e)
  All-get_elem P (y ∷ ys) zero x ps e = subst P (ground (arith, e)) ps.0
  All-get_elem P (y ∷ ys) (suc i) x ps e = All-get_elem P ys i x ps.1 e

-- the address that the list has at the end of `pre`
pub look_up :
    (c : PCscfConnectionConfig) (pre : List (Bytes × Bytes)) (x : Bytes × Bytes)
    (xs : List (Bytes × Bytes))
    → c.p_cscf_addresses ≡ pre ++ x ∷ xs
    → position c.p c.p_cscf_addresses ≡ length pre
    → get_elem? c.p_cscf_addresses (position c.p c.p_cscf_addresses) ≡ some x
look_up c pre x xs e at =
    ap (get_elem? c.p_cscf_addresses) at
    ∙ ap (λ (addresses : List (Bytes × Bytes)). get_elem? addresses (length pre)) e
    ∙ get_elem-middle pre x xs

-- the position behind it, where that is in the list
pub moved_on :
    (c : PCscfConnectionConfig) (pre : List (Bytes × Bytes)) (x y : Bytes × Bytes)
    (ys : List (Bytes × Bytes))
    → c.p_cscf_addresses ≡ pre ++ x ∷ y ∷ ys
    → position c.p c.p_cscf_addresses ≡ length pre
    → position (suc (position c.p c.p_cscf_addresses)) c.p_cscf_addresses ≡ length (pre ++ x ∷ [])
moved_on c pre x y ys e at =
    let whole = ap length e ∙ length-append pre (x ∷ y ∷ ys) in
    position_in (suc (position c.p c.p_cscf_addresses)) c.p_cscf_addresses (omega arith)
    ∙ omega (arith, length-append pre (x ∷ []))
