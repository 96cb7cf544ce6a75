-- ===== src/Struct/Laws.antt =====
-- What is packed is unpacked again.
use mathlib.Core.List.{reverse_aux, reverse-reverse}
use native.Mathlib.Nat.{pow-suc}
use can_sentinental.Prelude.{
  ℕ, zero, suc, ◌+◌, ◌/◌, ◌^◌, ◌<◌, ◌≡◌, refl, ◌∙◌, List, ◌∷◌, [], ◌++◌, length, arith, take, drop,
  length-append, take-append, take-of-le, drop-append, drop-of-le,
}
use can_sentinental.Struct.{
  le_value, le_bytes, value, bytes_of, ByteOrder, big, little, IsBytes, Bytes, Code, size,
  unpack_field, unpack_fields, Fields, calcsize,
}

pub le_value-le_bytes : (w n : ℕ) → n < 256 ^ w → le_value (le_bytes w n) ≡ n
le_value-le_bytes zero n h = omega arith
le_value-le_bytes (suc w) n h =
    rw (le_value-le_bytes w (n / 256) (omega (arith, pow-suc 256 w))) (omega arith)

pub length-le_bytes : (w n : ℕ) → length (le_bytes w n) ≡ w
length-le_bytes zero n = refl
length-le_bytes (suc w) n = omega (arith, length-le_bytes w (n / 256))

pub le_bytes-IsBytes : (w n : ℕ) → IsBytes (le_bytes w n)
le_bytes-IsBytes zero n = tt
le_bytes-IsBytes (suc w) n = (omega arith, le_bytes-IsBytes w (n / 256))

pub value-bytes_of : (o : ByteOrder) (w n : ℕ) → n < 256 ^ w → value o (bytes_of o w n) ≡ n
value-bytes_of little w n h = le_value-le_bytes w n h
value-bytes_of big w n h = rw reverse-reverse (le_value-le_bytes w n h)

pub take-length-append {ℓ} :
    {A : Type ℓ} (n : ℕ) (xs ys : List A) → length xs ≡ n → take n (xs ++ ys) ≡ xs
take-length-append n xs ys h = take-append n xs ys (omega arith) ∙ take-of-le n xs (omega arith)

pub drop-length-append {ℓ} :
    {A : Type ℓ} (n : ℕ) (xs ys : List A) → length xs ≡ n → drop n (xs ++ ys) ≡ ys
drop-length-append n xs ys h = rw (drop-append n xs ys (omega arith), drop-of-le n xs (omega arith))

-- Bytes laid out by the codes of a format: the bytes of each field, one after the other.
abbrev pub Segments : List Code → Type 0
Segments [] = Unit
Segments (c ∷ cs) = Bytes × Segments cs

abbrev pub layout : (fmt : List Code) → Segments fmt → Bytes
layout [] segments = []
layout (c ∷ cs) (xs, segments) = xs ++ layout cs segments

-- Each field has its size.
abbrev pub Fits : (fmt : List Code) → Segments fmt → Type 0
Fits [] segments = Unit
Fits (c ∷ cs) (xs, segments) = (length xs ≡ size c) × Fits cs segments

abbrev pub read : ByteOrder → (fmt : List Code) → Segments fmt → Fields fmt
read o [] segments = tt
read o (c ∷ cs) (xs, segments) = (unpack_field o c xs, read o cs segments)

pub unpack_fields-layout :
    (o : ByteOrder) (fmt : List Code) (segments : Segments fmt)
    → Fits fmt segments
    → unpack_fields o fmt (layout fmt segments) ≡ read o fmt segments
unpack_fields-layout o [] segments h = refl
unpack_fields-layout o (c ∷ cs) (xs, segments) h =
    rw
      (
        take-length-append (size c) xs (layout cs segments) h.0,
        drop-length-append (size c) xs (layout cs segments) h.0,
      )
      (λ i. (unpack_field o c xs, unpack_fields-layout o cs segments h.1 i))

pub length-layout :
    (fmt : List Code) (segments : Segments fmt)
    → Fits fmt segments
    → length (layout fmt segments) ≡ calcsize fmt
length-layout [] segments h = refl
length-layout (c ∷ cs) (xs, segments) h =
    omega (arith, length-append xs (layout cs segments), length-layout cs segments h.1, h.0)

length-reverse_aux : (xs ys : Bytes) → length (reverse_aux xs ys) ≡ length xs + length ys
length-reverse_aux [] ys = omega arith
length-reverse_aux (x ∷ xs) ys = omega (arith, length-reverse_aux xs (x ∷ ys))

pub length-bytes_of : (o : ByteOrder) (w n : ℕ) → length (bytes_of o w n) ≡ w
length-bytes_of little w n = length-le_bytes w n
length-bytes_of big w n = omega (arith, length-reverse_aux (le_bytes w n) [], length-le_bytes w n)

pub value-one : (o : ByteOrder) (b : ℕ) → value o (b ∷ []) ≡ b
value-one little b = omega arith
value-one big b = omega arith
