-- ===== src/Common/Text.antt =====
-- A Rust `String`, `&str` or `Vec<u8>` is the list of its bytes. `String` and slice operations of
-- the standard library that the program calls.
use Prim.Native.Char.{code}
use Prim.Native.Nat.{ℕ, ◌+◌}
use Prim.Native.String.{String}
use mathlib.Core.Path.{◌≡◌, refl}
use mathlib.Core.Logic.{◌↔◌}
use mathlib.Core.Bool.{Bool, true, false, ◌&&◌, ◌||◌}
use mathlib.Core.List.{List, [], ◌∷◌, ◌++◌}
use mathlib.Core.Option.{Option, none, some}
use native.Mathlib.Omega.{arith}
use rust_rcs_client.Common.Tests.{leb, ◌==◌, if◌then◌else◌}

abbrev pub Bytes : Type 0
Bytes = List ℕ

-- A literal. Every literal of the program that stands in this development is ASCII.
abbrev pub codes : String → Bytes
codes String.[] = []
codes (String.◌∷◌ c s) = code c ∷ codes s

-- `==` on strings and slices
unfoldable pub bytes_eq : Bytes → Bytes → Bool
bytes_eq [] [] = true
bytes_eq (x ∷ xs) (y ∷ ys) = x == y && bytes_eq xs ys
bytes_eq _ _ = false

pub bytes_eq_iff : (a b : Bytes) → (bytes_eq a b ≡ true) ↔ (a ≡ b)
unfolding bytes_eq
bytes_eq_iff (x ∷ a) (y ∷ b) = ground (arith, bytes_eq_iff a b)
bytes_eq_iff _ _ = ground arith

pub bytes_eq_refl : (a : Bytes) → bytes_eq a a ≡ true
bytes_eq_refl a = (bytes_eq_iff a a).1 refl

unfoldable pub to_ascii_lowercase : ℕ → ℕ
to_ascii_lowercase c = if leb b'A' c && leb c b'Z' then c + 32 else c

unfoldable pub eq_ignore_ascii_case : Bytes → Bytes → Bool
unfolding to_ascii_lowercase
eq_ignore_ascii_case [] [] = true
eq_ignore_ascii_case (x ∷ xs) (y ∷ ys) =
    to_ascii_lowercase x == to_ascii_lowercase y && eq_ignore_ascii_case xs ys
eq_ignore_ascii_case _ _ = false

pub eq_ignore_ascii_case_refl : (a : Bytes) → eq_ignore_ascii_case a a ≡ true
unfolding eq_ignore_ascii_case
eq_ignore_ascii_case_refl [] = refl
eq_ignore_ascii_case_refl (x ∷ a) = ground (arith, eq_ignore_ascii_case_refl a)

-- `s.find(c)` with `&s[..idx]` and `&s[idx + 1..]`: the parts before and behind the first `c`
unfoldable pub split_at : ℕ → Bytes → Option (Bytes × Bytes)
split_at c [] = none
split_at c (x ∷ xs) =
    if x == c
    then some ([], xs)
    else elim (split_at c xs) [ none ↦ none | some (a, b) ↦ some (x ∷ a, b) ]

abbrev pub has_byte : ℕ → Bytes → Bool
has_byte c [] = false
has_byte c (x ∷ xs) = x == c || has_byte c xs

-- The text up to the first `c` is what stands before it.
pub split_at-append :
    (c : ℕ) (a b : Bytes) → has_byte c a ≡ false → split_at c (a ++ c ∷ b) ≡ some (a, b)
unfolding split_at
split_at-append c [] b h = ground arith
split_at-append c (x ∷ a) b h = ground (arith, split_at-append c a b)

-- Without a `c` there is nothing to split.
pub split_at-none : (c : ℕ) (s : Bytes) → (split_at c s ≡ none) ↔ (has_byte c s ≡ false)
unfolding split_at
split_at-none c [] = ground arith
split_at-none c (x ∷ s) = ground (arith, split_at-none c s)

-- `if s.starts_with(prefix) { &s[prefix.len()..] } else { &s[..] }`
unfoldable pub without_prefix : Bytes → Bytes → Bytes
unfolding bytes_eq
without_prefix prefix s = elim (rest_behind prefix s) [ some rest ↦ rest | none ↦ s ]
  where
    rest_behind : Bytes → Bytes → Option Bytes
    rest_behind [] s = some s
    rest_behind (p ∷ ps) [] = none
    rest_behind (p ∷ ps) (x ∷ s) = if p == x then rest_behind ps s else none
