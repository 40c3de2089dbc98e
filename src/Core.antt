-- ===== src/Core.antt =====
-- What the program takes from rust_rcs_core, a library of its own that is not in this repository:
-- each operation is an argument of the definitions that call it.
use rust_rcs_client.Common.{Bool, true, ◌≡◌, Bytes, eq_ignore_ascii_case}

-- `StrEq::equals_bytes(&self, bytes, ignore_case)`
abbrev pub EqualsBytes : Type 0
EqualsBytes = Bytes → Bytes → Bool → Bool

-- With its flag set the comparison ignores the case of ASCII letters.
abbrev pub IgnoresCase : EqualsBytes → Type 0
IgnoresCase equals_bytes = (a b : Bytes) → equals_bytes a b true ≡ eq_ignore_ascii_case a b
