-- ===== src/Floats.antt =====
-- Python's floats as an interface. The program computes with IEEE doubles; the development takes
-- the type and its operations as a parameter; a proof that needs a fact on them has it as a
-- hypothesis. `Floats/Fixed.antt` is an instance, on which the tests run.
pub mod Fixed
use can_sentinental.Prelude.{Option, ℕ, ◌≡◌, Bool, true, false, not, if◌then◌else◌}
use can_sentinental.Prelude.Int.{ℤ, pos}
use can_sentinental.Prelude.Text.{Text}

pub record FloatOps (F : Type 0) : Type 0 where
  -- The literal m · 10⁻ᵏ: 2.75 is `lit 275 2`.
  pub lit : ℕ → ℕ → F
  -- float(n)
  pub of_int : ℤ → F
  pub add : F → F → F
  pub sub : F → F → F
  pub mul : F → F → F
  -- By a divisor that is not zero; the callers test for zero where Python would raise.
  pub div : F → F → F
  -- x % y
  pub mod_float : F → F → F
  -- x < y and x <= y, false where an operand is a NaN
  pub lt : F → F → Bool
  pub le : F → F → Bool
  -- int(x), of a finite float
  pub trunc : F → ℤ
  pub log2 : F → F
  pub sin : F → F
  pub pi : F
  -- round(x, n)
  pub round : ℕ → F → F
  -- f"{x:.nf}"
  pub fixed : ℕ → F → Text
  -- str(x)
  pub str : F → Text
  -- float(s); none is its ValueError
  pub of_text : Text → Option F

module _ {F : Type 0} ⦃fl : FloatOps F⦄ where
  open fl use {lit, of_int, lt, le}

  abbrev pub zero_float : F
  zero_float = lit 0 0

  abbrev pub of_nat : ℕ → F
  of_nat n = of_int (pos n)

  -- max(a, b): the first argument unless the second is greater.
  abbrev pub max_float : F → F → F
  max_float a b = if lt a b then b else a
