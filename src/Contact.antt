-- ===== src/Contact.antt =====
-- contact/mod.rs: the identities by which a contact is known.
use rust_rcs_client.Common.{
  Bool, true, false, ◌||◌, List, [], ◌∷◌, ◌++◌, ◌≡◌, arith, Bytes, eq_ignore_ascii_case,
  if◌then◌else◌,
}

pub record ContactKnownIdentities : Type 0 where
  pub inner : List Bytes

unfoldable pub new : ContactKnownIdentities
new = record { inner = [] }

unfoldable pub add_identity : ContactKnownIdentities → Bytes → ContactKnownIdentities
add_identity known identity = record { inner = known.inner ++ identity ∷ [] }

-- the loop of `eq`
unfoldable pub is_among : List Bytes → Bytes → Bool
unfolding eq_ignore_ascii_case
is_among [] other = false
is_among (identity ∷ identities) other =
    if eq_ignore_ascii_case identity other then true else is_among identities other

-- `PartialEq<str>`
unfoldable pub eq : ContactKnownIdentities → Bytes → Bool
unfolding is_among
eq known other = is_among known.inner other

is_among-append :
    (xs : List Bytes) (x other : Bytes)
    → is_among (xs ++ x ∷ []) other ≡ (is_among xs other || eq_ignore_ascii_case x other)
unfolding is_among
is_among-append [] x other = ground arith
is_among-append (y ∷ ys) x other = ground (arith, is_among-append ys x other)

-- What equals a contact to which an identity was added: what equalled it before, and that identity
-- in any case of its letters.
pub eq-add_identity :
    (known : ContactKnownIdentities) (identity other : Bytes)
    → eq (add_identity known identity) other
      ≡ (eq known other || eq_ignore_ascii_case identity other)
unfolding eq add_identity
eq-add_identity known identity other = is_among-append known.inner identity other
