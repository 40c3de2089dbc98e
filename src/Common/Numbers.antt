-- ===== src/Common/Numbers.antt =====
-- `str::parse` of the standard library for unsigned and signed integers of a given range.
use Prim.Native.Nat.{ℕ, zero, suc, ◌+◌, ◌-◌, ◌*◌, ◌/◌, ◌%◌, ◌^◌, ◌<◌}
use mathlib.Core.Path.{◌≡◌}
use mathlib.Core.Bool.{Bool, false, ◌&&◌}
use mathlib.Core.List.{[], ◌∷◌}
use mathlib.Core.Option.{Option, none, some}
use native.Mathlib.Omega.{arith}
use rust_rcs_client.Common.Text.{Bytes}
use mathlib.Core.Logic.{inl, inr}
use rust_rcs_client.Common.Tests.{leb, ltb, ◌==◌, if◌then◌else◌, Bool-cases}

-- `negsuc n` is -(n + 1)
pub data ℤ : Type 0 where
  pos : ℕ → ℤ
  negsuc : ℕ → ℤ

unfoldable pub is_digit : ℕ → Bool
is_digit c = leb b'0' c && leb c b'9'

-- The digits behind `acc`. A value of `limit` or more is an overflow, at whatever digit it shows.
parse_digits : ℕ → ℕ → Bytes → Option ℕ
unfolding is_digit
parse_digits limit acc [] = some acc
parse_digits limit acc (c ∷ cs) =
    let next = acc * 10 + (c - b'0') in
    if is_digit c && ltb next limit then parse_digits limit next cs else none

-- at least one digit
unfoldable pub parse_magnitude : ℕ → Bytes → Option ℕ
unfolding parse_digits
parse_magnitude limit [] = none
parse_magnitude limit (c ∷ cs) = parse_digits limit 0 (c ∷ cs)

-- `parse::<uN>()` and `uN::from_str_radix(_, 10)`, for N bits: a leading `+` is allowed
unfoldable pub parse_unsigned : ℕ → Bytes → Option ℕ
unfolding parse_magnitude
parse_unsigned bits [] = none
parse_unsigned bits (c ∷ cs) =
    if c == b'+' then parse_magnitude (2 ^ bits) cs else parse_magnitude (2 ^ bits) (c ∷ cs)

negate : ℕ → ℤ
negate zero = pos zero
negate (suc n) = negsuc n

-- `parse::<iN>()`: the magnitude goes up to `limit - 1`, below zero up to `limit`
unfoldable pub parse_signed : ℕ → Bytes → Option ℤ
unfolding negate
parse_signed limit [] = none
parse_signed limit (c ∷ cs) =
    if c == b'-'
    then elim (parse_magnitude (limit + 1) cs) [ none ↦ none | some n ↦ some (negate n) ]
    else if c == b'+'
    then elim (parse_magnitude limit cs) [ none ↦ none | some n ↦ some (pos n) ]
    else elim (parse_magnitude limit (c ∷ cs)) [ none ↦ none | some n ↦ some (pos n) ]

-- `parse::<i64>()`
abbrev pub parse_i64 : Bytes → Option ℤ
parse_i64 = parse_signed (2 ^ 63)

-- `parse::<i32>()`
abbrev pub parse_i32 : Bytes → Option ℤ
parse_i32 = parse_signed (2 ^ 31)

-- `format!("{}", n)`: the digits of `n` before `behind`, on fuel
decimal : ℕ → ℕ → Bytes → Bytes
decimal zero n behind = behind
decimal (suc f) n behind =
    let here = (b'0' + n % 10) ∷ behind in
    let more = decimal f (n / 10) here in if n / 10 == 0 then here else more

unfoldable pub print_ℕ : ℕ → Bytes
unfolding decimal
print_ℕ n = decimal (suc n) n []

-- `format!("{}", v)` for an `i64`
unfoldable pub print_i64 : ℤ → Bytes
print_i64 (pos n) = print_ℕ n
print_i64 (negsuc n) = b'-' ∷ print_ℕ (n + 1)

abbrev pub IsSigned : ℕ → ℤ → Type 0
IsSigned limit (pos n) = n < limit
IsSigned limit (negsuc n) = n < limit

abbrev pub IsI64 : ℤ → Type 0
IsI64 = IsSigned (2 ^ 63)

-- `v > 0`
abbrev pub is_positive : ℤ → Bool
is_positive (pos n) = ltb 0 n
is_positive (negsuc n) = false

parse_digits-decimal :
    (limit f n : ℕ) (behind : Bytes)
    → n < f
    → n < limit
    → parse_digits limit 0 (decimal f n behind) ≡ parse_digits limit n behind
unfolding parse_digits decimal
parse_digits-decimal limit zero n behind h k = absurd (omega arith)
parse_digits-decimal limit (suc f) n behind h k = elim (Bool-cases (n / 10 == 0)) [
  | inl last ↦ ground arith
  | inr more ↦
      let higher = parse_digits-decimal limit f (n / 10) ((b'0' + n % 10) ∷ behind) in
      ground (arith, higher (ground arith) (omega arith))
]

-- A printed number begins with a digit.
decimal-cons :
    (f n : ℕ) (behind : Bytes)
    → (d : ℕ) × (s : Bytes) × (decimal (suc f) n behind ≡ (b'0' + d) ∷ s) × (d < 10)
unfolding decimal
decimal-cons zero n behind = (n % 10, behind, ground arith, omega arith)
decimal-cons (suc f) n behind = elim (Bool-cases (n / 10 == 0)) [
  | inl last ↦ (n % 10, behind, rw last, omega arith)
  | inr more ↦ rw more (decimal-cons f (n / 10) ((b'0' + n % 10) ∷ behind))
]

parse_magnitude-print_ℕ : (limit n : ℕ) → n < limit → parse_magnitude limit (print_ℕ n) ≡ some n
unfolding parse_magnitude print_ℕ
parse_magnitude-print_ℕ limit n h =
    let (d, s, e, small) = decimal-cons n n [] in
    let read = parse_digits-decimal limit (suc n) n [] (omega arith) h in rw e (rw e at read)

print_ℕ-cons : (n : ℕ) → (d : ℕ) × (s : Bytes) × (print_ℕ n ≡ (b'0' + d) ∷ s) × (d < 10)
unfolding print_ℕ
print_ℕ-cons n = decimal-cons n n []

-- A number within its range is read back from its text.
pub parse_i64-print_i64 : (v : ℤ) → IsI64 v → parse_i64 (print_i64 v) ≡ some v
unfolding parse_signed print_i64
parse_i64-print_i64 (pos n) h =
    let (d, s, e, small) = print_ℕ-cons n in
    let read = parse_magnitude-print_ℕ (2 ^ 63) n h in rw e (ground (arith, rw e at read))
parse_i64-print_i64 (negsuc n) h =
    let read = parse_magnitude-print_ℕ (2 ^ 63 + 1) (n + 1) (omega arith) in
    let next : n + 1 ≡ suc n = omega arith in rw read (rw next)

pub parse_unsigned-print_ℕ : (bits n : ℕ) → n < 2 ^ bits → parse_unsigned bits (print_ℕ n) ≡ some n
unfolding parse_unsigned
parse_unsigned-print_ℕ bits n h =
    let (d, s, e, small) = print_ℕ-cons n in
    let read = parse_magnitude-print_ℕ (2 ^ bits) n h in rw e (ground (arith, rw e at read))
