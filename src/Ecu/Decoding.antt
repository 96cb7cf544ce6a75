-- ===== src/Ecu/Decoding.antt =====
-- src/sim/ecu_generator.py and src/parser/telemetry_parser.py: what the parser reads from the frames
-- of an ECU's round is what the ECU holds.
use mathlib.Core.List.{flatten, map-append}
use mathlib.Core.Path.{ap₂}
use can_sentinental.Prelude.{
  ℕ, ◌%◌, ◌≡◌, refl, sym, ap, ◌∙◌, not, List, [], ◌∷◌, ◌++◌, take, map, min, if◌then◌else◌, ltb,
  ◌==◌, ◌&&◌, Result, ok, raise, struct_error, arith, take-of-le, bind-ok, ok-injective, ◌>>=◌,
  Bool-cases, inl, inr,
}
use can_sentinental.Prelude.Int.{ℤ, pos, max_zero, ltb_ℤ, ◌-ℤ◌}
use can_sentinental.Struct.{Bytes, big, pack}
use can_sentinental.Struct.Packing.{length-pack, widths}
use can_sentinental.Floats.{FloatOps}
use can_sentinental.Frame.{CanFrame, valid_bytes}
use can_sentinental.Signals.{Signals, decode_signals}
use can_sentinental.Sim.{sequence, every, frame_at, transmission_fields}
use can_sentinental.Ids.{
  can_id_brake_override, can_id_engine_rpm, can_id_vehicle_speed, can_id_engine_temp,
  can_id_transmission, can_id_body_doors, can_id_body_climate, can_id_lighting,
}
use can_sentinental.Ecu.{
  VehicleEcuSimulator, Ecu, engine, transmission, brake, body, calls, engine_ecu, transmission_ecu,
  brake_ecu, body_ecu,
}
use can_sentinental.Ecu.Payloads.{
  engine_fields, speed_fields, temp_fields, brake_fields, doors_fields, climate_fields,
  lighting_fields, engine_reading, speed_reading, temp_reading, brake_reading, doors_reading,
  climate_reading, lighting_reading, decode-engine, decode-speed, decode-temp, decode-transmission,
  decode-brake, decode-doors, decode-climate, decode-lighting,
}

-- A condition that holds in every round with a number divisible by the period.
abbrev pub every_round : {A : Type 0} → ℕ → ℕ → A → List A
every_round period tick a = if tick % period == 0 then a ∷ [] else []

-- What each statement's frames are mapped to.
abbrev AreMapped : {A B : Type 0} → (A → B) → List (Result (List A)) → List (List B) → Type 0
AreMapped g [] [] = Unit
AreMapped g [] (bs ∷ bss) = ⊥
AreMapped g (r ∷ rs) [] = ⊥
AreMapped {A} g (r ∷ rs) (bs ∷ bss) =
    ((as' : List A) → r ≡ ok as' → map g as' ≡ bs) × AreMapped g rs bss

map-sequence :
    {A B : Type 0} (g : A → B) (rs : List (Result (List A))) (bss : List (List B)) {all : List A}
    → AreMapped g rs bss
    → sequence rs ≡ ok all
    → map g all ≡ flatten bss
unfolding flatten
map-sequence g [] [] m h = ap (map g) (sym (ok-injective h))
map-sequence g [] (bs ∷ bss) m h = absurd m
map-sequence g (r ∷ rs) [] m h = absurd m
map-sequence g (r ∷ rs) (bs ∷ bss) (m, ms) h =
    let (xs, h1, first) = bind-ok r _ h in
    let (ys, h2, others) = bind-ok (sequence rs) _ h1 in
    ap (map g) (sym (ok-injective h2))
    ∙ map-append g xs ys
    ∙ ap₂ (λ bs cs. bs ++ cs) (m xs first) (map-sequence g rs bss ms others)

module _ {F : Type 0} ⦃fl : FloatOps F⦄ where
  -- What the parser makes of a frame.
  abbrev pub reading_of : CanFrame F → Result (Signals F)
  reading_of f = decode_signals f.can_id (valid_bytes f)

  map-every :
      (period tick : ℕ) (now : F) (can_id dlc : ℕ) (fields : List (ℕ × ℤ))
      {reading : Result (Signals F)}
      → widths fields ≡ min dlc 8
      → ((bytes : Bytes) → pack big fields ≡ ok bytes → decode_signals can_id bytes ≡ reading)
      → (fs : List (CanFrame F)) → every period tick now can_id dlc fields ≡ ok fs
      → map reading_of fs ≡ every_round period tick reading
  unfolding every
  map-every period tick now can_id dlc fields {reading} sized decoded fs h =
      elim (Bool-cases (tick % period == 0)) [
        | inl e ↦
            let taken : (pack big fields >>= λ bytes. ok (frame_at now can_id dlc bytes ∷ []))
                ≡ ok fs =
              rw e at h in
            let (bytes, one, packed) = bind-ok (pack big fields) _ taken in
            let whole : take (min dlc 8) bytes ≡ bytes =
              take-of-le (min dlc 8) bytes (omega (arith, length-pack big fields packed, sized)) in
            rw e (
              ap (map reading_of) (sym (ok-injective one))
              ∙ ap (λ bs. decode_signals can_id bs ∷ []) whole
              ∙ ap (λ r. r ∷ []) (decoded bytes packed))
        | inr e ↦
            let none_sent : ◌≡◌ {A = Result (List (CanFrame F))} (ok []) (ok fs) = rw e at h in
            rw e (ap (map reading_of) (sym (ok-injective none_sent)))
      ]

every_one : {A : Type 0} (tick : ℕ) (a : A) → every_round 1 tick a ≡ a ∷ []
every_one tick a = let one : tick % 1 ≡ 0 = omega arith in rw one refl

module _ {W F : Type 0} ⦃fl : FloatOps F⦄ where
  -- What the parser should read from a round's frames, by the state.
  unfoldable pub readings : Ecu → ℕ → VehicleEcuSimulator W F → List (List (Result (Signals F)))
  readings engine tick e =
      (ok (engine_reading (fl.trunc e.vehicle.rpm) (fl.trunc e.vehicle.throttle)) ∷ [])
      ∷ every_round 2 tick (ok (speed_reading (fl.trunc (fl.mul e.vehicle.speed (fl.lit 100 0)))))
      ∷ every_round 5 tick (ok (temp_reading (fl.trunc e.vehicle.temp)))
      ∷ []
  readings transmission tick e = (raise struct_error ∷ []) ∷ []
  readings brake tick e =
      let brake_val = fl.trunc e.vehicle.brake in
      let speed_base = fl.trunc e.vehicle.speed in
      (ok (
          brake_reading brake_val (ltb_ℤ (pos 70) brake_val && ltb_ℤ (pos 40) speed_base) speed_base
            (max_zero (speed_base -ℤ pos 1)))
        ∷ [])
      ∷ []
  readings body tick e =
      (ok (doors_reading (not (e.doors_locked == 0))) ∷ [])
      ∷ every_round 2 tick (ok climate_reading)
      ∷ (ok (lighting_reading (not (e.headlights == 0))) ∷ [])
      ∷ []

  calls-readings :
      (ecu : Ecu) (tick : ℕ) (now : F) (e : VehicleEcuSimulator W F)
      → AreMapped (reading_of {F = F}) (calls ecu tick now e) (readings ecu tick e)
  unfolding calls engine_ecu transmission_ecu brake_ecu body_ecu readings
  calls-readings engine tick now e =
      let v = e.vehicle in
      (
        λ fs h.
            map-every 1 tick now can_id_engine_rpm 4
              (engine_fields (fl.trunc v.rpm) (fl.trunc v.throttle)) refl
              (λ bytes packed. decode-engine (fl.trunc v.rpm) (fl.trunc v.throttle) packed) fs h
            ∙ every_one tick _,
        (
          λ fs h.
              map-every 2 tick now can_id_vehicle_speed 4
                (speed_fields (fl.trunc (fl.mul v.speed (fl.lit 100 0)))) refl
                (λ bytes packed. decode-speed (fl.trunc (fl.mul v.speed (fl.lit 100 0))) packed) fs
                h,
          (
            λ fs h.
                map-every 5 tick now can_id_engine_temp 3 (temp_fields (fl.trunc v.temp)) refl
                  (λ bytes packed. decode-temp (fl.trunc v.temp) packed) fs h,
            tt,
          ),
        ),
      )
  calls-readings transmission tick now e = (
    λ fs h.
        map-every 1 tick now can_id_transmission 5 (transmission_fields e.vehicle) refl
          (λ bytes packed.
            decode-transmission (pos e.vehicle.gear)
              (fl.trunc (fl.mul e.vehicle.throttle (fl.lit 35 1)))
              (pos (if ltb 0 e.vehicle.gear then 1 else 0)) packed)
          fs h
        ∙ every_one tick _,
    tt,
  )
  calls-readings brake tick now e =
      let brake_val = fl.trunc e.vehicle.brake in
      let speed_base = fl.trunc e.vehicle.speed in
      (
        λ fs h.
            map-every 1 tick now can_id_brake_override 6
              (brake_fields brake_val (ltb_ℤ (pos 70) brake_val && ltb_ℤ (pos 40) speed_base)
                speed_base (max_zero (speed_base -ℤ pos 1)))
              refl
              (λ bytes packed.
                decode-brake brake_val (ltb_ℤ (pos 70) brake_val && ltb_ℤ (pos 40) speed_base)
                  speed_base (max_zero (speed_base -ℤ pos 1)) packed)
              fs h
            ∙ every_one tick _,
        tt,
      )
  calls-readings body tick now e = (
    λ fs h.
        map-every 1 tick now can_id_body_doors 4 (doors_fields (e.doors_locked == 0)) refl
          (λ bytes packed. decode-doors (e.doors_locked == 0) packed) fs h
        ∙ every_one tick _,
    (
      λ fs h.
          map-every 2 tick now can_id_body_climate 4 climate_fields refl
            (λ bytes packed. decode-climate packed) fs h,
      (
        λ fs h.
            map-every 1 tick now can_id_lighting 2 (lighting_fields (e.headlights == 0)) refl
              (λ bytes packed. decode-lighting (e.headlights == 0) packed) fs h
            ∙ every_one tick _,
        tt,
      ),
    ),
  )

  -- Where the data of a round's frames can be packed, the parser reads from them, in their order,
  -- what the ECU holds: the engine's speed and throttle, in every second round the vehicle's speed
  -- and in every fifth the coolant's temperature; the brake, the ABS flag and the wheels' speeds;
  -- the doors, the lights, and in every second round the climate. From the frame of the
  -- transmission it reads nothing: decoding raises.
  pub decode_signals-calls :
      (ecu : Ecu) (tick : ℕ) (now : F) (e : VehicleEcuSimulator W F) {frames : List (CanFrame F)}
      → sequence (calls ecu tick now e) ≡ ok frames
      → map (λ f. decode_signals {F = F} f.can_id (valid_bytes f)) frames
        ≡ flatten (readings ecu tick e)
  decode_signals-calls ecu tick now e packed =
      map-sequence reading_of (calls ecu tick now e) (readings ecu tick e)
        (calls-readings ecu tick now e) packed
