-- ===== src/Struct.antt =====
-- Python's struct module, as far as the program uses it: formats without padding, over bytes.
pub mod Laws
pub mod Packing
use mathlib.Core.List.{reverse}
use can_sentinental.Prelude.{
  ℕ, zero, suc, ◌+◌, ◌*◌, ◌/◌, ◌%◌, ◌^◌, ◌<◌, List, [], ◌∷◌, ◌++◌, length, take, drop, ltb, ◌==◌,
  if◌then◌else◌, All, Result, ok, raise, struct_error, ◌>>=◌,
}
use can_sentinental.Prelude.Int.{ℤ, pos, negsuc}

abbrev pub Bytes : Type 0
Bytes = List ℕ

-- Every element of a byte string is a byte.
abbrev pub IsBytes : Bytes → Type 0
IsBytes = All (λ b. b < 256)

-- The prefixes `>` and, by the platform, `=`.
pub data ByteOrder : Type 0 where
  big little : ByteOrder

-- The codes B, H, I, Q (unsigned, of 1, 2, 4 and 8 bytes) and ns.
pub data Code : Type 0 where
  uint : ℕ → Code
  chars : ℕ → Code

abbrev pub size : Code → ℕ
size (uint w) = w
size (chars n) = n

-- struct.calcsize
abbrev pub calcsize : List Code → ℕ
calcsize [] = 0
calcsize (c ∷ cs) = size c + calcsize cs

-- What unpacking a code returns, and the tuple for a format.
abbrev pub Unpacked : Code → Type 0
Unpacked (uint w) = ℕ
Unpacked (chars n) = Bytes

abbrev pub Fields : List Code → Type 0
Fields [] = Unit
Fields (c ∷ cs) = Unpacked c × Fields cs

-- The number that bytes stand for, least significant first.
abbrev pub le_value : Bytes → ℕ
le_value [] = 0
le_value (b ∷ bs) = b + 256 * le_value bs

abbrev pub value : ByteOrder → Bytes → ℕ
value little bs = le_value bs
value big bs = le_value (reverse bs)

abbrev pub unpack_field : ByteOrder → (c : Code) → Bytes → Unpacked c
unpack_field o (uint w) bs = value o bs
unpack_field o (chars n) bs = bs

abbrev pub unpack_fields : ByteOrder → (fmt : List Code) → Bytes → Fields fmt
unpack_fields o [] bs = tt
unpack_fields o (c ∷ cs) bs =
    (unpack_field o c (take (size c) bs), unpack_fields o cs (drop (size c) bs))

-- struct.unpack: the buffer must have exactly the size of the format.
abbrev pub unpack : ByteOrder → (fmt : List Code) → Bytes → Result (Fields fmt)
unpack o fmt bs =
    if length bs == calcsize fmt then ok (unpack_fields o fmt bs) else raise struct_error

-- The bytes of a number, least significant first.
abbrev pub le_bytes : ℕ → ℕ → Bytes
le_bytes zero n = []
le_bytes (suc w) n = n % 256 ∷ le_bytes w (n / 256)

abbrev pub bytes_of : ByteOrder → ℕ → ℕ → Bytes
bytes_of little w n = le_bytes w n
bytes_of big w n = reverse (le_bytes w n)

-- struct.pack of unsigned codes: a number out of range raises.
abbrev pub pack_uint : ByteOrder → ℕ → ℤ → Result Bytes
pack_uint o w (pos n) = if ltb n (256 ^ w) then ok (bytes_of o w n) else raise struct_error
pack_uint o w (negsuc n) = raise struct_error

abbrev pub pack : ByteOrder → List (ℕ × ℤ) → Result Bytes
pack o [] = ok []
pack o ((w, n) ∷ rest) = do a ← pack_uint o w n; b ← pack o rest; ok (a ++ b)
