-- ===== src/Floats/Fixed.antt =====
-- Fixed-point numbers with six decimals as an instance of the float interface, for the tests and
-- the examples: a value x stands for x · 10⁻⁶.
use can_sentinental.Prelude.{
  some, [], ◌==◌, ℕ, zero, suc, ◌+◌, ◌-◌, ◌*◌, ◌/◌, ◌%◌, ◌^◌, not, ◌++◌, ◌∷◌, ltb, if◌then◌else◌,
}
use can_sentinental.Prelude.Int.{ℤ, pos, negsuc, pos_part, neg_part, sub_ℕ, ◌+ℤ◌, ◌-ℤ◌, ◌*ℤ◌, ltb_ℤ}
use can_sentinental.Prelude.Text.{Text, decimal, zero_padded}
use can_sentinental.Floats.{FloatOps}

-- Division and truncation go towards zero.
abbrev div_ℕ : ℤ → ℕ → ℤ
div_ℕ (pos n) d = pos (n / d)
div_ℕ (negsuc n) d = sub_ℕ 0 (suc n / d)

abbrev div_ℤ : ℤ → ℤ → ℤ
div_ℤ a (pos d) = div_ℕ a d
div_ℤ a (negsuc d) = div_ℕ (pos 0 -ℤ a) (suc d)

-- log2 of x · 10⁻⁶ by its whole part: the number of halvings that bring it below 2.
unfoldable pub halvings : ℕ → ℕ → ℕ
halvings zero n = 0
halvings (suc fuel) n = let rest = suc (halvings fuel (n / 2)) in if ltb n 2000000 then 0 else rest

abbrev round_to : ℕ → ℤ → ℤ
round_to k a = div_ℕ a (10 ^ (6 - k)) *ℤ pos (10 ^ (6 - k))

abbrev pub show_fixed : ℕ → ℤ → Text
show_fixed k a =
    let m = pos_part a + neg_part a in
    decimal (m / 1000000) ++ 46 ∷ zero_padded k (m % 1000000 / 10 ^ (6 - k))

-- The digits of a text with six decimals, its point passed over.
abbrev pub digits_value : ℕ → Text → ℕ
digits_value n [] = n
digits_value n (c ∷ cs) = digits_value (if c == 46 then n else n * 10 + (c - 48)) cs

instance abbrev pub micro : FloatOps ℤ
micro = record {
  lit = λ m k. pos (m * 10 ^ (6 - k));
  of_int = λ n. n *ℤ pos 1000000;
  add = ◌+ℤ◌;
  sub = ◌-ℤ◌;
  mul = λ a b. div_ℕ (a *ℤ b) 1000000;
  div = λ a b. div_ℤ (a *ℤ pos 1000000) b;
  mod_float = λ a b. pos (pos_part a % pos_part b);
  lt = ltb_ℤ;
  le = λ a b. not (ltb_ℤ b a);
  trunc = λ a. div_ℕ a 1000000;
  log2 = λ a. pos (halvings 64 (pos_part a) * 1000000);
  sin = λ a. pos 0;
  pi = pos 3141593;
  round = round_to;
  fixed = show_fixed;
  str = show_fixed 6;
  of_text = λ t. some (pos (digits_value 0 t));
}
