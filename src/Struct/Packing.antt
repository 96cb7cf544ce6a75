-- ===== src/Struct/Packing.antt =====
-- What `struct` packs without an exception has a length, and is unpacked again.
use mathlib.Core.Path.{ap₂}
use can_sentinental.Prelude.{
  ℕ, suc, ◌+◌, ◌^◌, ◌≡◌, refl, sym, ap, ◌∙◌, List, [], ◌∷◌, ◌++◌, length, take, ltb, ok, bind-ok,
  arith, Bool-cases, inl, inr, length-append, ltb→lt, ==_refl, length-take,
}
use can_sentinental.Prelude.Int.{ℤ, pos, negsuc, pos_part}
use can_sentinental.Struct.{
  Bytes, ByteOrder, Code, uint, calcsize, Fields, value, bytes_of, pack_uint, pack, unpack,
  unpack_fields,
}
use can_sentinental.Struct.Laws.{
  length-bytes_of, value-bytes_of, take-length-append, drop-length-append,
}

abbrev pub widths : List (ℕ × ℤ) → ℕ
widths [] = 0
widths ((w, n) ∷ fields) = w + widths fields

length-pack_uint :
    (o : ByteOrder) (w : ℕ) (n : ℤ) {bytes : Bytes} → pack_uint o w n ≡ ok bytes → length bytes ≡ w
length-pack_uint o w (pos n) {bytes} h = elim (Bool-cases (ltb n (256 ^ w))) [
  | inl e ↦
      let same : bytes_of o w n ≡ bytes = ground arith in
      ap length (sym same) ∙ length-bytes_of o w n
  | inr e ↦ absurd (ground arith)
]
length-pack_uint o w (negsuc n) h = absurd (ground arith)

pub length-pack :
    (o : ByteOrder) (fields : List (ℕ × ℤ)) {bytes : Bytes}
    → pack o fields ≡ ok bytes
    → length bytes ≡ widths fields
length-pack o [] h = ground arith
length-pack o ((w, n) ∷ fields) {bytes} h =
    let (a, h1, ea) = bind-ok (pack_uint o w n) _ h in
    let (b, h2, eb) = bind-ok (pack o fields) _ h1 in
    let joined : a ++ b ≡ bytes = ground arith in
    omega (
      arith,
      ap length joined,
      length-append a b,
      length-pack_uint o w n ea,
      length-pack o fields eb,
    )

-- The codes of a format by its fields, and what is read back of these.
abbrev pub codes_of : List (ℕ × ℤ) → List Code
codes_of [] = []
codes_of ((w, n) ∷ fields) = uint w ∷ codes_of fields

abbrev pub values : (fields : List (ℕ × ℤ)) → Fields (codes_of fields)
values [] = tt
values ((w, n) ∷ fields) = (pos_part n, values fields)

-- No field is negative.
abbrev pub AreUnsigned : List (ℕ × ℤ) → Type 0
AreUnsigned [] = Unit
AreUnsigned ((w, n) ∷ fields) = (pos (pos_part n) ≡ n) × AreUnsigned fields

pack_uint-value :
    (o : ByteOrder) (w : ℕ) (n : ℤ) {bytes : Bytes}
    → pack_uint o w n ≡ ok bytes
    → (pos (pos_part n) ≡ n) × (value o bytes ≡ pos_part n)
pack_uint-value o w (pos n) {bytes} h = elim (Bool-cases (ltb n (256 ^ w))) [
  | inl e ↦
      let same : bytes_of o w n ≡ bytes = ground arith in
      (refl, ap (value o) (sym same) ∙ value-bytes_of o w n (ltb→lt n (256 ^ w) e))
  | inr e ↦ absurd (ground arith)
]
pack_uint-value o w (negsuc n) h = absurd (ground arith)

pub pack-AreUnsigned :
    (o : ByteOrder) (fields : List (ℕ × ℤ)) {bytes : Bytes}
    → pack o fields ≡ ok bytes
    → AreUnsigned fields
pack-AreUnsigned o [] h = tt
pack-AreUnsigned o ((w, n) ∷ fields) h =
    let (a, h1, ea) = bind-ok (pack_uint o w n) _ h in
    let (b, h2, eb) = bind-ok (pack o fields) _ h1 in
    ((pack_uint-value o w n ea).0, pack-AreUnsigned o fields eb)

take-add-append : (k : ℕ) (a b : Bytes) → take (length a + k) (a ++ b) ≡ a ++ take k b
take-add-append k [] b = ap (λ n. take n b) (omega arith)
take-add-append k (x ∷ a) b =
    let longer : length (x ∷ a) + k ≡ suc (length a + k) = omega arith in
    rw longer (ap (λ bs. x ∷ bs) (take-add-append k a b))

-- The first fields are read back from the bytes of all.
unpack_fields-pack :
    (o : ByteOrder) (fields more : List (ℕ × ℤ)) {bytes : Bytes}
    → pack o (fields ++ more) ≡ ok bytes
    → unpack_fields o (codes_of fields) (take (widths fields) bytes) ≡ values fields
unpack_fields-pack o [] more h = refl
unpack_fields-pack o ((w, n) ∷ fields) more {bytes} h =
    let (a, h1, ea) = bind-ok (pack_uint o w n) _ h in
    let (b, h2, eb) = bind-ok (pack o (fields ++ more)) _ h1 in
    let joined : a ++ b ≡ bytes = ground arith in
    let size : length a ≡ w = length-pack_uint o w n ea in
    let front : take (w + widths fields) bytes ≡ a ++ take (widths fields) b =
      ap₂ (λ m bs. take (m + widths fields) bs) (sym size) (sym joined)
      ∙ take-add-append (widths fields) a b in
    let later = take (widths fields) b in
    rw front (
      ap₂ {C = ℕ × Fields (codes_of fields)} (λ v vs. (v, vs))
        (ap (value o) (take-length-append w a later size) ∙ (pack_uint-value o w n ea).1)
        (ap (unpack_fields o (codes_of fields)) (drop-length-append w a later size)
          ∙ unpack_fields-pack o fields more eb))

calcsize-codes_of : (fields : List (ℕ × ℤ)) → calcsize (codes_of fields) ≡ widths fields
calcsize-codes_of [] = refl
calcsize-codes_of ((w, n) ∷ fields) = omega (arith, calcsize-codes_of fields)

widths-append : (xs ys : List (ℕ × ℤ)) → widths (xs ++ ys) ≡ widths xs + widths ys
widths-append [] ys = omega arith
widths-append ((w, n) ∷ xs) ys = omega (arith, widths-append xs ys)

-- Packing fields and unpacking a front of the bytes by the codes of the first fields gives these.
pub unpack-pack :
    (o : ByteOrder) (fields more : List (ℕ × ℤ)) {bytes : Bytes}
    → pack o (fields ++ more) ≡ ok bytes
    → unpack o (codes_of fields) (take (widths fields) bytes) ≡ ok (values fields)
unpack-pack o fields more {bytes} h =
    let sized : length (take (widths fields) bytes) ≡ calcsize (codes_of fields) = omega (
      arith,
      length-take (widths fields) bytes,
      length-pack o (fields ++ more) h,
      widths-append fields more,
      calcsize-codes_of fields,
    ) in
    rw sized
      (rw (==_refl (calcsize (codes_of fields))) (ap ok (unpack_fields-pack o fields more h)))
