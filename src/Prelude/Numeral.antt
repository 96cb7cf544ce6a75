-- ===== src/Prelude/Numeral.antt =====
-- Numbers read back from texts: int(s) of digits, and bytes.fromhex(s).
use mathlib.Core.Path.{◌≡◌, refl, sym, ◌∙◌}
use mathlib.Core.List.{append-nil}
use can_sentinental.Prelude.{
  ℕ, zero, suc, ◌+◌, ◌-◌, ◌*◌, ◌/◌, ◌%◌, ◌≤◌, ◌<◌, Bool, true, false, List, [], ◌∷◌, ◌++◌, Option,
  none, some, ◌&&◌, ◌||◌, leb, ltb, ◌==◌, if◌then◌else◌, is_empty, map, Result, ok, raise,
  value_error, ◌>>=◌, arith, Bool-cases, inl, inr, All,
}
use can_sentinental.Prelude.Text.{Text, text_eq, text_eq-eq, digit, digits_of, decimal, hex, join}

abbrev pub is_digit : ℕ → Bool
is_digit c = leb 48 c && leb c 57

abbrev pub read_digits : ℕ → Text → Result ℕ
read_digits n [] = ok n
read_digits n (c ∷ cs) =
    if is_digit c then read_digits (n * 10 + (c - 48)) cs else raise value_error

-- int(s), where s is no more than digits; a sign, an underscore or a blank is refused here.
unfoldable pub read_nat : Text → Result ℕ
read_nat t = if is_empty t then raise value_error else read_digits 0 t

abbrev pub hex_value : ℕ → Option ℕ
hex_value c =
    if is_digit c
    then some (c - 48)
    else if leb 65 c && leb c 70
    then some (c - 55)
    else if leb 97 c && leb c 102
    then some (c - 87)
    else none

abbrev pub is_space : ℕ → Bool
is_space c = c == 32 || (leb 9 c && leb c 13)

-- One byte before the bytes of the rest.
abbrev byte_of : Option ℕ → Option ℕ → Result (List ℕ) → Result (List ℕ)
byte_of (some hi) (some lo) rest = do bytes ← rest; ok ((hi * 16 + lo) ∷ bytes)
byte_of (some hi) none rest = raise value_error
byte_of none lo rest = raise value_error

-- bytes.fromhex(s): pairs of digits, with blanks between the pairs.
unfoldable pub from_hex : Text → Result (List ℕ)
from_hex [] = ok []
from_hex (c ∷ []) = if is_space c then ok [] else raise value_error
from_hex (c ∷ d ∷ cs) = elim (is_space c) [
  | true ↦ from_hex (d ∷ cs)
  | false ↦ byte_of (hex_value c) (hex_value d) (from_hex cs)
]

read_digits-append :
    (n m d : ℕ) (cs : Text)
    → d < 10
    → read_digits n cs ≡ ok m
    → read_digits n (cs ++ digit d ∷ []) ≡ ok (m * 10 + d)
read_digits-append n m d [] h e = ground arith
read_digits-append n m d (c ∷ cs) h e =
    ground (arith, read_digits-append (n * 10 + (c - 48)) m d cs h)

read_digits-digits_of : (fuel n : ℕ) → n < fuel → read_digits 0 (digits_of fuel 10 n) ≡ ok n
unfolding digits_of
read_digits-digits_of zero n h = absurd (omega arith)
read_digits-digits_of (suc fuel) n h = elim (Bool-cases (ltb n 10)) [
  | inl e ↦ rw e (ground arith)
  | inr e ↦
      let more : 10 ≤ n = ground arith in
      let whole : n / 10 * 10 + n % 10 ≡ n = omega arith in
      rw e (
        read_digits-append 0 (n / 10) (n % 10) (digits_of fuel 10 (n / 10)) (omega arith)
          (read_digits-digits_of fuel (n / 10) (omega arith))
        ∙ (λ i. ok (whole i)))
]

is_empty-append_one : {A : Type 0} (xs : List A) (x : A) → is_empty (xs ++ x ∷ []) ≡ false
is_empty-append_one [] x = refl
is_empty-append_one (y ∷ xs) x = refl

is_empty-digits_of : (fuel n : ℕ) → is_empty (digits_of (suc fuel) 10 n) ≡ false
unfolding digits_of
is_empty-digits_of fuel n = elim (Bool-cases (ltb n 10)) [
  | inl e ↦ rw e refl
  | inr e ↦ rw e (is_empty-append_one (digits_of fuel 10 (n / 10)) (digit (n % 10)))
]

-- A number is read back from its decimal text.
pub read_nat-decimal : (n : ℕ) → read_nat (decimal n) ≡ ok n
unfolding read_nat decimal
read_nat-decimal n = rw (is_empty-digits_of n n) (read_digits-digits_of (suc n) n (omega arith))

two_digits : ℕ → Text
two_digits b = digit (b / 16) ∷ digit (b % 16) ∷ []

-- Printing a byte gives its two digits, tried on the bytes up to the number.
hex_tried : ℕ → Bool
unfolding two_digits
hex_tried zero = true
hex_tried (suc b) = if text_eq (hex 2 b) (two_digits b) then hex_tried b else false

hex_tried-two_digits :
    (limit b : ℕ) → b < limit → hex_tried limit ≡ true → text_eq (hex 2 b) (two_digits b) ≡ true
unfolding hex_tried
hex_tried-two_digits zero b below tried = absurd (omega arith)
hex_tried-two_digits (suc limit) b below tried = ground (arith, hex_tried-two_digits limit b)

hex_tried-bytes : hex_tried 256 ≡ true
unfolding hex_tried hex
hex_tried-bytes = refl

hex_two : (b : ℕ) → b < 256 → hex 2 b ≡ digit (b / 16) ∷ digit (b % 16) ∷ []
unfolding two_digits
hex_two b h = text_eq-eq (hex 2 b) (two_digits b) (hex_tried-two_digits 256 b h hex_tried-bytes)

hex_value-digit : (d : ℕ) → d < 16 → hex_value (digit d) ≡ some d
hex_value-digit d h = ground arith

is_space-digit : (d : ℕ) → d < 16 → is_space (digit d) ≡ false
is_space-digit d h = ground arith

from_hex-pair :
    (c d : ℕ) (cs : Text)
    → is_space c ≡ false
    → from_hex (c ∷ d ∷ cs) ≡ byte_of (hex_value c) (hex_value d) (from_hex cs)
unfolding from_hex
from_hex-pair c d cs h = rw (h, from_hex)

from_hex-byte :
    (b : ℕ) (rest : Text) (bytes : List ℕ)
    → b < 256
    → from_hex rest ≡ ok bytes
    → from_hex (hex 2 b ++ rest) ≡ ok (b ∷ bytes)
from_hex-byte b rest bytes h e =
    let whole : b / 16 * 16 + b % 16 ≡ b = omega arith in
    rw (hex_two b h) (
      from_hex-pair (digit (b / 16)) (digit (b % 16)) rest (is_space-digit (b / 16) (omega arith))
      ∙ rw (hex_value-digit (b / 16) (omega arith), hex_value-digit (b % 16) (omega arith), e)
          (λ i. ok (whole i ∷ bytes)))

join-cons : (t : Text) (ts : List Text) → join [] (t ∷ ts) ≡ t ++ join [] ts
unfolding join
join-cons t [] = sym (append-nil t)
join-cons t (u ∷ ts) = rw append-nil

-- Bytes are read back from their hexadecimal text.
pub from_hex-join :
    (bytes : List ℕ) → All (λ b. b < 256) bytes → from_hex (join [] (map (hex 2) bytes)) ≡ ok bytes
from_hex-join [] h = unfold from_hex join in refl
from_hex-join (b ∷ bytes) h =
    rw (join-cons (hex 2 b) (map (hex 2) bytes))
      (from_hex-byte b (join [] (map (hex 2) bytes)) bytes h.0 (from_hex-join bytes h.1))
