-- ===== src/Prelude/Text.antt =====
-- Texts as lists of code points, and the parts of Python's f-strings that the program uses.
use Prim.Native.Nat.{ℕ, zero, suc, ◌+◌, ◌-◌, ◌/◌, ◌%◌}
use Prim.Native.Char.{code}
use Prim.Native.String.{String}
use mathlib.Core.Path.{◌≡◌, refl}
use mathlib.Core.Bool.{Bool, true, false, ◌&&◌}
use native.Mathlib.Omega.{arith}
use mathlib.Core.List.{List, [], ◌∷◌, ◌++◌}
use can_sentinental.Prelude.Int.{ℤ, pos, negsuc}
use can_sentinental.Prelude.Tests.{ltb, ◌==◌, if◌then◌else◌}
use can_sentinental.Prelude.Lists.{length, replicate}

abbrev pub Text : Type 0
Text = List ℕ

abbrev pub codes : String → Text
codes String.[] = []
codes (String.◌∷◌ c s) = code c ∷ codes s

-- One digit, 0-9 and A-F.
abbrev pub digit : ℕ → ℕ
digit d = if ltb d 10 then 48 + d else 55 + d

-- The digits of a number to a base, most significant first; the fuel is above the number.
unfoldable pub digits_of : ℕ → ℕ → ℕ → Text
digits_of zero base n = []
digits_of (suc fuel) base n =
    let rest = digits_of fuel base (n / base) ++ digit (n % base) ∷ [] in
    if ltb n base then digit n ∷ [] else rest

-- str(n)
unfoldable pub decimal : ℕ → Text
unfolding digits_of
decimal n = digits_of (suc n) 10 n

-- f"{n:0wX}"
unfoldable pub hex : ℕ → ℕ → Text
unfolding digits_of
hex w n = let t = digits_of (suc n) 16 n in replicate (w - length t) 48 ++ t

-- f"{n:0wd}"
unfoldable pub zero_padded : ℕ → ℕ → Text
unfolding decimal
zero_padded w n = let t = decimal n in replicate (w - length t) 48 ++ t

hex_test : hex 3 0xA0 ≡ codes "0A0"
unfolding hex
hex_test = refl

decimal_test : decimal 1234 ≡ codes "1234"
unfolding decimal
decimal_test = refl

-- sep.join(parts)
unfoldable pub join : Text → List Text → Text
join sep [] = []
join sep (t ∷ []) = t
join sep (t ∷ u ∷ ts) = t ++ sep ++ join sep (u ∷ ts)

-- str(n) of an integer
unfoldable pub show_ℤ : ℤ → Text
unfolding decimal
show_ℤ (pos n) = decimal n
show_ℤ (negsuc n) = 45 ∷ decimal (suc n)

-- s == t
abbrev pub text_eq : Text → Text → Bool
text_eq [] [] = true
text_eq [] (d ∷ ds) = false
text_eq (c ∷ cs) [] = false
text_eq (c ∷ cs) (d ∷ ds) = c == d && text_eq cs ds

pub text_eq-eq : (s t : Text) → text_eq s t ≡ true → s ≡ t
text_eq-eq [] [] h = refl
text_eq-eq [] (d ∷ ds) h = cc
text_eq-eq (c ∷ cs) [] h = cc
text_eq-eq (c ∷ cs) (d ∷ ds) h = ground (arith, text_eq-eq cs ds)

pub text_eq_refl : (s : Text) → text_eq s s ≡ true
text_eq_refl [] = refl
text_eq_refl (c ∷ cs) = ground (arith, text_eq_refl cs)
