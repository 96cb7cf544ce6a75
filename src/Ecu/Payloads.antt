-- ===== src/Ecu/Payloads.antt =====
-- src/sim/ecu_generator.py and src/parser/telemetry_parser.py: what the parser reads from the
-- payload of each identifier, by the numbers that were packed.
use can_sentinental.Prelude.{
  ℕ, ◌≡◌, refl, ap, Bool, true, false, not, List, [], ◌∷◌, ◌++◌, length, take, if◌then◌else◌, ◌==◌,
  ok, raise, struct_error, arith, length-take,
}
use can_sentinental.Prelude.Int.{ℤ, pos, pos_part, sub_ℕ, ◌+ℤ◌}
use can_sentinental.Prelude.Text.{codes, decimal}
use can_sentinental.Struct.{Bytes, big, pack}
use can_sentinental.Struct.Packing.{length-pack, unpack-pack, pack-AreUnsigned}
use can_sentinental.Floats.{FloatOps, of_nat}
use can_sentinental.Ids.{
  can_id_brake_override, can_id_engine_rpm, can_id_vehicle_speed, can_id_engine_temp,
  can_id_transmission, can_id_body_doors, can_id_body_climate, can_id_lighting,
}
use can_sentinental.Signals.{
  Signals, int, float, text, bool, decode_signals, decode_engine, decode_speed, decode_temp,
  decode_transmission, decode_brake, decode_doors, decode_climate, decode_lighting,
}

-- A flag that is packed as one of two numbers is told by its test.
abs_test : (t : Bool) → (if (if t then 1 else 0) == 0 then false else true) ≡ t
abs_test true = refl
abs_test false = refl

locked_test : (t : Bool) → ((if t then 0 else 0xFF) == 0xFF) ≡ not t
locked_test true = refl
locked_test false = refl

lit_test : (t : Bool) → ((if t then 0 else 1) == 1) ≡ not t
lit_test true = refl
lit_test false = refl

-- The parser takes off the 40 degrees that were added.
minus_forty :
    (t : ℤ) → pos (pos_part (t +ℤ pos 40)) ≡ t +ℤ pos 40 → sub_ℕ (pos_part (t +ℤ pos 40)) 40 ≡ t
minus_forty t h = ground arith

-- The fields of each payload.
abbrev pub engine_fields : ℤ → ℤ → List (ℕ × ℤ)
engine_fields rpm throttle = (2, rpm) ∷ (1, throttle) ∷ (1, pos 1) ∷ []

abbrev pub speed_fields : ℤ → List (ℕ × ℤ)
speed_fields raw = (2, raw) ∷ (1, pos 0) ∷ (1, pos 0x4A) ∷ []

abbrev pub temp_fields : ℤ → List (ℕ × ℤ)
temp_fields temp = (1, temp +ℤ pos 40) ∷ (1, pos 0x42) ∷ (1, pos 0) ∷ []

abbrev pub gear_fields : ℤ → ℤ → ℤ → List (ℕ × ℤ)
gear_fields gear torque clutch = (1, gear) ∷ (2, torque) ∷ (1, clutch) ∷ (1, pos 0) ∷ []

abbrev pub brake_fields : ℤ → Bool → ℤ → ℤ → List (ℕ × ℤ)
brake_fields brake abs_active front rear =
    (1, brake)
    ∷ (1, pos (if abs_active then 1 else 0))
    ∷ (1, front)
    ∷ (1, front)
    ∷ (1, rear)
    ∷ (1, rear)
    ∷ []

abbrev pub doors_fields : Bool → List (ℕ × ℤ)
doors_fields open_doors =
    (1, pos (if open_doors then 0 else 0xFF)) ∷ (1, pos 0) ∷ (1, pos 1) ∷ (1, pos 0) ∷ []

abbrev pub climate_fields : List (ℕ × ℤ)
climate_fields = (1, pos 22) ∷ (1, pos 21) ∷ (1, pos 3) ∷ (1, pos 1) ∷ []

abbrev pub lighting_fields : Bool → List (ℕ × ℤ)
lighting_fields dark = (1, pos (if dark then 0 else 1)) ∷ (1, pos 0) ∷ []

module _ {F : Type 0} ⦃fl : FloatOps F⦄ where
  abbrev pub engine_reading : ℤ → ℤ → Signals F
  engine_reading rpm throttle =
      ("rpm", int rpm)
      ∷ ("throttle_pct", int throttle)
      ∷ ("engine_status", text (codes "RUNNING"))
      ∷ []

  pub decode-engine :
      (rpm throttle : ℤ) {bytes : Bytes}
      → pack big (engine_fields rpm throttle) ≡ ok bytes
      → decode_signals {F = F} can_id_engine_rpm bytes ≡ ok (engine_reading rpm throttle)
  unfolding decode_signals decode_engine
  decode-engine rpm throttle {bytes} packed =
      let fields = engine_fields rpm throttle in
      let sized : length bytes ≡ 4 = length-pack big fields packed in
      let (r, (t, _)) = pack-AreUnsigned big fields packed in
      rw (sized, unpack-pack big fields [] packed) (λ i. ok (engine_reading (r i) (t i)))

  abbrev pub speed_reading : ℤ → Signals F
  speed_reading raw = ("speed_kmh", float (fl.round 2 (fl.div (fl.of_int raw) (fl.lit 100 0)))) ∷ []

  pub decode-speed :
      (raw : ℤ) {bytes : Bytes}
      → pack big (speed_fields raw) ≡ ok bytes
      → decode_signals {F = F} can_id_vehicle_speed bytes ≡ ok (speed_reading raw)
  unfolding decode_signals decode_speed
  decode-speed raw {bytes} packed =
      let fields = speed_fields raw in
      let sized : length bytes ≡ 4 = length-pack big fields packed in
      let (r, _) = pack-AreUnsigned big fields packed in
      rw (sized, unpack-pack big ((2, raw) ∷ []) ((1, pos 0) ∷ (1, pos 0x4A) ∷ []) packed)
        (λ i. ok (speed_reading (r i)))

  abbrev pub temp_reading : ℤ → Signals F
  temp_reading temp =
      ("coolant_temp_c", int temp)
      ∷ ("oil_pressure_bar", float (fl.round 1 (fl.div (of_nat 0x42) (fl.lit 10 0))))
      ∷ []

  pub decode-temp :
      (temp : ℤ) {bytes : Bytes}
      → pack big (temp_fields temp) ≡ ok bytes
      → decode_signals {F = F} can_id_engine_temp bytes ≡ ok (temp_reading temp)
  unfolding decode_signals decode_temp
  decode-temp temp {bytes} packed =
      let fields = temp_fields temp in
      let sized : length bytes ≡ 3 = length-pack big fields packed in
      let (unsigned, _) = pack-AreUnsigned big fields packed in
      rw (sized, unpack-pack big fields [] packed)
        (ap (λ t. ok (temp_reading t)) (minus_forty temp unsigned))

  pub decode-transmission :
      (gear torque clutch : ℤ) {bytes : Bytes}
      → pack big (gear_fields gear torque clutch) ≡ ok bytes
      → decode_signals {F = F} can_id_transmission bytes ≡ raise struct_error
  unfolding decode_signals decode_transmission
  decode-transmission gear torque clutch {bytes} packed =
      let fields = gear_fields gear torque clutch in
      let sized : length bytes ≡ 5 = length-pack big fields packed in
      let short : length (take 4 bytes) ≡ 4 = omega (arith, length-take 4 bytes, sized) in
      rw (sized, short) refl

  abbrev pub brake_reading : ℤ → Bool → ℤ → ℤ → Signals F
  brake_reading brake abs_active front rear =
      ("brake_pct", int brake)
      ∷ ("abs_active", bool abs_active)
      ∷ (
        "wheel_speeds",
        text (
            codes "["
            ++ decimal (pos_part front)
            ++ codes ","
            ++ decimal (pos_part front)
            ++ codes ","
            ++ decimal (pos_part rear)
            ++ codes ","
            ++ decimal (pos_part rear)
            ++ codes "]"),
      )
      ∷ []

  pub decode-brake :
      (brake : ℤ) (abs_active : Bool) (front rear : ℤ) {bytes : Bytes}
      → pack big (brake_fields brake abs_active front rear) ≡ ok bytes
      → decode_signals {F = F} can_id_brake_override bytes
        ≡ ok (brake_reading brake abs_active front rear)
  unfolding decode_signals decode_brake
  decode-brake brake abs_active front rear {bytes} packed =
      let fields = brake_fields brake abs_active front rear in
      let sized : length bytes ≡ 6 = length-pack big fields packed in
      let (b, _) = pack-AreUnsigned big fields packed in
      rw (sized, unpack-pack big fields [] packed)
        (λ i. ok (brake_reading (b i) (abs_test abs_active i) front rear))

  abbrev pub doors_reading : Bool → Signals F
  doors_reading locked = ("doors_locked", bool locked) ∷ ("driver_seatbelt", bool true) ∷ []

  pub decode-doors :
      (open_doors : Bool) {bytes : Bytes}
      → pack big (doors_fields open_doors) ≡ ok bytes
      → decode_signals {F = F} can_id_body_doors bytes ≡ ok (doors_reading (not open_doors))
  unfolding decode_signals decode_doors
  decode-doors open_doors {bytes} packed =
      let fields : List (ℕ × ℤ) =
        (1, pos (if open_doors then 0 else 0xFF)) ∷ (1, pos 0) ∷ (1, pos 1) ∷ [] in
      let sized : length bytes ≡ 4 = length-pack big (fields ++ (1, pos 0) ∷ []) packed in
      rw (sized, unpack-pack big fields ((1, pos 0) ∷ []) packed)
        (ap (λ t. ok (doors_reading t)) (locked_test open_doors))

  abbrev pub climate_reading : Signals F
  climate_reading =
      ("target_temp_c", int (pos 22))
      ∷ ("ambient_temp_c", int (pos 21))
      ∷ ("fan_speed", int (pos 3))
      ∷ ("ac_on", bool true)
      ∷ []

  pub decode-climate :
      {bytes : Bytes}
      → pack big climate_fields ≡ ok bytes
      → decode_signals {F = F} can_id_body_climate bytes ≡ ok climate_reading
  unfolding decode_signals decode_climate
  decode-climate {bytes} packed =
      let fields = climate_fields in
      let sized : length bytes ≡ 4 = length-pack big fields packed in
      rw (sized, unpack-pack big fields [] packed) refl

  abbrev pub lighting_reading : Bool → Signals F
  lighting_reading lit =
      ("headlights", text (if lit then codes "ON" else codes "OFF"))
      ∷ ("turn_signal", text (codes "NONE"))
      ∷ []

  pub decode-lighting :
      (dark : Bool) {bytes : Bytes}
      → pack big (lighting_fields dark) ≡ ok bytes
      → decode_signals {F = F} can_id_lighting bytes ≡ ok (lighting_reading (not dark))
  unfolding decode_signals decode_lighting
  decode-lighting dark {bytes} packed =
      let fields = lighting_fields dark in
      let sized : length bytes ≡ 2 = length-pack big fields packed in
      rw (sized, unpack-pack big fields [] packed)
        (ap (λ t. ok (lighting_reading t)) (lit_test dark))
