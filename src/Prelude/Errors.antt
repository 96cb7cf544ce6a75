-- ===== src/Prelude/Errors.antt =====
-- Python's exceptions as values, and methods that mutate an object and may raise: what was
-- written before a raise stays written, so the state comes back beside the error too.
use mathlib.Core.Path.{◌≡◌, refl, ap}
use mathlib.Core.Logic.{◌⊎◌, inl, inr}
use native.Mathlib.Omega.{arith}

pub data Error : Type 0 where
  runtime_error value_error struct_error key_error index_error zero_division_error
        file_not_found_error type_error :
      Error

-- What a call ends with: its return value, or what it raises.
pub data Result {ℓ} (A : Type ℓ) : Type ℓ where
  ok : A → Result A
  raise : Error → Result A

module _ {ℓ κ} {A : Type ℓ} {B : Type κ} where
  infixl 5 ◌>>=◌
  -- A statement after another, which a raise skips.
  abbrev pub ◌>>=◌ : Result A → (A → Result B) → Result B
  raise error >>= rest = raise error
  ok value >>= rest = rest value

pub Result-cases {ℓ} :
    {A : Type ℓ} (call : Result A) → ((a : A) × (call ≡ ok a)) ⊎ ((e : Error) × (call ≡ raise e))
Result-cases (raise error) = inr (error, refl)
Result-cases (ok value) = inl (value, refl)

-- The two calls of a chain that returns have returned.
pub bind-ok :
    {A B : Type 0} (first : Result A) (rest : A → Result B) {end : B}
    → (first >>= rest) ≡ ok end
    → (middle : A) × (rest middle ≡ ok end) × (first ≡ ok middle)
bind-ok (ok value) rest h = (value, h, refl)
bind-ok (raise error) rest h = absurd (ground arith)

-- The value of a call that returned.
pub ok-injective : {A : Type 0} {a b : A} → ok a ≡ ok b → a ≡ b
ok-injective {A} {a} h =
    ap (λ (r : Result A). elim r as (λ _. A) [ ok value ↦ value | raise err ↦ a ]) h
