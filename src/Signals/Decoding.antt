-- ===== src/Signals/Decoding.antt =====
-- src/parser/telemetry_parser.py: on which frames `decode_signals` returns.
use can_sentinental.Prelude.{
  ℕ, ◌≤◌, ◌<◌, ◌≡◌, refl, Bool, true, false, List, [], ◌∷◌, length, take, ◌==◌, leb, ◌&&◌,
  if◌then◌else◌, Result, ok, raise, ◌>>=◌, struct_error, arith, length-take,
}
use can_sentinental.Struct.{Bytes, Code, unpack, unpack_fields, calcsize, big}
use can_sentinental.Floats.{FloatOps}
use can_sentinental.Ids.{
  can_id_brake_override, can_id_engine_rpm, can_id_vehicle_speed, can_id_engine_temp,
  can_id_transmission, can_id_body_doors, can_id_body_climate, can_id_lighting,
}
use can_sentinental.Signals.{
  u8, u16, decode_engine, decode_speed, decode_temp, decode_transmission, decode_brake,
  decode_doors, decode_climate, decode_lighting, decode_signals,
}

-- A prefix of the format's size is unpacked.
pub unpack-take :
    (fmt : List Code) (bytes : Bytes)
    → calcsize fmt ≤ length bytes
    → unpack big fmt (take (calcsize fmt) bytes)
      ≡ ok (unpack_fields big fmt (take (calcsize fmt) bytes))
unpack-take fmt bytes h = ground (arith, length-take (calcsize fmt) bytes)

abbrev pub Returns : {A : Type 0} → Result A → Type 0
Returns {A} r = (a : A) × (r ≡ ok a)

Returns-bind :
    {A B : Type 0} (m : Result A) (f : A → B) {a : A} → m ≡ ok a → Returns (m >>= (λ x. ok (f x)))
Returns-bind m f {a} e = (f a, rw e)

Returns-if :
    {A : Type 0} (t : Bool) (m n : Result A)
    → (t ≡ true → Returns m)
    → (t ≡ false → Returns n)
    → Returns (if t then m else n)
Returns-if true m n km kn = km refl
Returns-if false m n km kn = kn refl

-- The two halves of a test on the identifier and the length.
long_enough : (a b n k : ℕ) → ((a == b) && leb k n) ≡ true → (a ≡ b) × (k ≤ n)
long_enough a b n k h = ground arith

module _ {F : Type 0} ⦃fl : FloatOps F⦄ (bytes : Bytes) where
  engine-Returns : 4 ≤ length bytes → Returns (decode_engine {F = F} bytes)
  unfolding decode_engine
  engine-Returns h =
      Returns-bind (unpack big (u16 ∷ u8 ∷ u8 ∷ []) (take 4 bytes)) _
        (unpack-take (u16 ∷ u8 ∷ u8 ∷ []) bytes h)

  -- Four bytes are not the five of ">BHBB".
  transmission_raises : 4 ≤ length bytes → decode_transmission {F = F} bytes ≡ raise struct_error
  unfolding decode_transmission
  transmission_raises h =
      let size : (length (take 4 bytes) == 5) ≡ false = ground (arith, length-take 4 bytes) in
      rw size

  speed-Returns : 2 ≤ length bytes → Returns (decode_speed {F = F} bytes)
  unfolding decode_speed
  speed-Returns h =
      Returns-bind (unpack big (u16 ∷ []) (take 2 bytes)) _ (unpack-take (u16 ∷ []) bytes h)

  temp-Returns : 3 ≤ length bytes → Returns (decode_temp {F = F} bytes)
  unfolding decode_temp
  temp-Returns h =
      Returns-bind (unpack big (u8 ∷ u8 ∷ u8 ∷ []) (take 3 bytes)) _
        (unpack-take (u8 ∷ u8 ∷ u8 ∷ []) bytes h)

  brake-Returns : 6 ≤ length bytes → Returns (decode_brake {F = F} bytes)
  unfolding decode_brake
  brake-Returns h =
      Returns-bind (unpack big (u8 ∷ u8 ∷ u8 ∷ u8 ∷ u8 ∷ u8 ∷ []) (take 6 bytes)) _
        (unpack-take (u8 ∷ u8 ∷ u8 ∷ u8 ∷ u8 ∷ u8 ∷ []) bytes h)

  doors-Returns : 3 ≤ length bytes → Returns (decode_doors {F = F} bytes)
  unfolding decode_doors
  doors-Returns h =
      Returns-bind (unpack big (u8 ∷ u8 ∷ u8 ∷ []) (take 3 bytes)) _
        (unpack-take (u8 ∷ u8 ∷ u8 ∷ []) bytes h)

  climate-Returns : 4 ≤ length bytes → Returns (decode_climate {F = F} bytes)
  unfolding decode_climate
  climate-Returns h =
      Returns-bind (unpack big (u8 ∷ u8 ∷ u8 ∷ u8 ∷ []) (take 4 bytes)) _
        (unpack-take (u8 ∷ u8 ∷ u8 ∷ u8 ∷ []) bytes h)

  lighting-Returns : 2 ≤ length bytes → Returns (decode_lighting {F = F} bytes)
  unfolding decode_lighting
  lighting-Returns h =
      Returns-bind (unpack big (u8 ∷ u8 ∷ []) (take 2 bytes)) _ (unpack-take (u8 ∷ u8 ∷ []) bytes h)

transmission_short :
    {can_id n : ℕ}
    → (can_id ≡ can_id_transmission → n < 4)
    → ((can_id == can_id_transmission) && leb 4 n) ≡ true
    → ⊥
transmission_short {can_id} {n} h t =
    let both = long_enough can_id can_id_transmission n 4 t in
    let short = h both.0 in omega (arith, both.1)

module _ {F : Type 0} ⦃fl : FloatOps F⦄ (can_id : ℕ) (bytes : Bytes) where
  -- Decoding raises exactly on the transmission's frames of four bytes or more, where five bytes'
  -- worth of fields are read from four bytes; on any other identifier or payload it returns.
  pub decode_signals_raises :
      (can_id ≡ can_id_transmission
        → 4 ≤ length bytes
        → decode_signals {F = F} can_id bytes ≡ raise struct_error)
      × ((can_id ≡ can_id_transmission → length bytes < 4)
          → Returns (decode_signals {F = F} can_id bytes))
  unfolding decode_signals
  decode_signals_raises = (
    λ e h.
        let long : leb 4 (length bytes) ≡ true = ground arith in
        rw (e, long) (transmission_raises bytes h),
    λ h.
        let n = length bytes in
        Returns-if (can_id == can_id_engine_rpm && leb 4 n) (decode_engine bytes) _
          (λ t. engine-Returns bytes (long_enough can_id can_id_engine_rpm n 4 t).1)
          λ _.
            Returns-if (can_id == can_id_vehicle_speed && leb 2 n) (decode_speed bytes) _
              (λ t. speed-Returns bytes (long_enough can_id can_id_vehicle_speed n 2 t).1)
              λ _.
                Returns-if (can_id == can_id_engine_temp && leb 3 n) (decode_temp bytes) _
                  (λ t. temp-Returns bytes (long_enough can_id can_id_engine_temp n 3 t).1)
                  λ _.
                    Returns-if (can_id == can_id_transmission && leb 4 n)
                      (decode_transmission bytes) _ (λ t. absurd (transmission_short h t))
                      λ _.
                        Returns-if (can_id == can_id_brake_override && leb 6 n) (decode_brake bytes)
                          _
                          (λ t.
                            brake-Returns bytes (long_enough can_id can_id_brake_override n 6 t).1)
                          λ _.
                            Returns-if (can_id == can_id_body_doors && leb 3 n) (decode_doors bytes)
                              _
                              (λ t.
                                doors-Returns bytes (long_enough can_id can_id_body_doors n 3 t).1)
                              λ _.
                                Returns-if (can_id == can_id_body_climate && leb 4 n)
                                  (decode_climate bytes) _
                                  (λ t.
                                    climate-Returns bytes
                                      (long_enough can_id can_id_body_climate n 4 t).1)
                                  λ _.
                                    Returns-if (can_id == can_id_lighting && leb 2 n)
                                      (decode_lighting bytes) _
                                      (λ t.
                                        lighting-Returns bytes
                                          (long_enough can_id can_id_lighting n 2 t).1)
                                      λ _. ([], refl),
  )
