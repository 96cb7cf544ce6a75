-- ===== src/Sim.antt =====
-- src/sim/ecu_generator.py: `generate_batch` of `VehicleECUSimulator`, and with it
-- `generate_baseline_dataset` of src/logger/csv_logger.py.
pub mod Baseline
mod Tests
use can_sentinental.Prelude.{
  ℕ, zero, suc, ◌+◌, ◌%◌, ◌==◌, ltb, ◌&&◌, Bool, true, false, List, [], ◌∷◌, ◌++◌, some,
  if◌then◌else◌, Result, ok, raise, ◌>>=◌,
}
use can_sentinental.Prelude.Int.{ℤ, pos, pos_part, max_zero, ◌-ℤ◌, ◌+ℤ◌}
use can_sentinental.Struct.{Bytes, big, pack}
use can_sentinental.Floats.{FloatOps, zero_float, of_nat, max_float}
use can_sentinental.Frame.{CanFrame, new_frame}
use can_sentinental.Ids.{
  can_id_brake_override, can_id_engine_rpm, can_id_vehicle_speed, can_id_engine_temp,
  can_id_transmission, can_id_body_doors, can_id_body_climate, can_id_lighting,
}
use can_sentinental.Logger.{Line, write_baseline}

-- The local variables of `generate_batch` that describe the vehicle.
pub record Vehicle (F : Type 0) : Type 0 where
  pub rpm : F
  pub speed : F
  pub gear : ℕ
  pub temp : F
  pub throttle : F
  pub brake : F

-- Statements one after the other, each with the frames that it appends.
abbrev pub sequence : {A : Type 0} → List (Result (List A)) → Result (List A)
sequence [] = ok []
sequence (r ∷ rs) = do xs ← r; ys ← sequence rs; ok (xs ++ ys)

module _ {F : Type 0} ⦃fl : FloatOps F⦄ where
  abbrev pub initial : Vehicle F
  initial = record {
    rpm = fl.lit 800 0;
    speed = zero_float;
    gear = 0;
    temp = fl.lit 45 0;
    throttle = zero_float;
    brake = zero_float;
  }

  -- a + b * sin(x)
  abbrev pub wave : F → F → F → F
  wave a b x = fl.add a (fl.mul b (fl.sin x))

  unfoldable pub accelerate : F → Vehicle F → Vehicle F
  accelerate cycle_t v =
      let p = fl.div cycle_t (fl.lit 15 0) in
      let throttle = wave (fl.lit 40 0) (fl.lit 20 0) (fl.mul p fl.pi) in
      let speed = fl.mul p (fl.lit 75 0) in
      record v {
        throttle = throttle;
        brake = zero_float;
        speed = speed;
        gear =
            if fl.lt speed (fl.lit 15 0)
            then 1
            else if fl.lt speed (fl.lit 35 0)
            then 2
            else if fl.lt speed (fl.lit 55 0)
            then 3
            else 4;
        rpm =
            fl.add (fl.add (fl.lit 1200 0) (fl.mul throttle (fl.lit 45 0)))
              (fl.mul speed (fl.lit 20 0));
      }

  unfoldable pub cruise : F → Vehicle F → Vehicle F
  cruise cycle_t v = record v {
    throttle = wave (fl.lit 20 0) (fl.lit 5 0) cycle_t;
    brake = zero_float;
    speed = wave (fl.lit 75 0) (fl.lit 3 0) (fl.mul cycle_t (fl.lit 5 1));
    gear = 4;
    rpm = wave (fl.lit 2100 0) (fl.lit 100 0) cycle_t;
  }

  unfoldable pub decelerate : F → Vehicle F → Vehicle F
  decelerate cycle_t v =
      let bt = fl.div (fl.sub cycle_t (fl.lit 35 0)) (fl.lit 13 0) in
      let left = fl.sub (fl.lit 1 0) bt in
      let speed = max_float zero_float (fl.mul (fl.lit 75 0) left) in
      record v {
        throttle = zero_float;
        brake = wave (fl.lit 35 0) (fl.lit 15 0) (fl.mul bt fl.pi);
        speed = speed;
        rpm = max_float (fl.lit 800 0) (fl.mul (fl.lit 2100 0) left);
        gear = if fl.lt speed (fl.lit 10 0) then 1 else if fl.lt speed (fl.lit 30 0) then 2 else 3;
      }

  unfoldable pub idle : F → Vehicle F → Vehicle F
  idle cycle_t v = record v {
    throttle = zero_float;
    brake = fl.lit 50 0;
    speed = zero_float;
    gear = 0;
    rpm = wave (fl.lit 790 0) (fl.lit 15 0) cycle_t;
  }

  unfoldable pub warm_up : Vehicle F → Vehicle F
  warm_up v =
      if fl.lt v.temp (fl.lit 90 0) then record v { temp = fl.add v.temp (fl.lit 5 3) } else v

  unfoldable pub physics : F → Vehicle F → Vehicle F
  unfolding accelerate cruise decelerate idle warm_up
  physics t v =
      let cycle_t = fl.mod_float t (fl.lit 60 0) in
      warm_up (
        if fl.lt cycle_t (fl.lit 15 0)
        then accelerate cycle_t v
        else if fl.lt cycle_t (fl.lit 35 0)
        then cruise cycle_t v
        else if fl.lt cycle_t (fl.lit 48 0)
        then decelerate cycle_t v
        else idle cycle_t v)

  -- CANFrame(can_id, data, dlc=dlc, timestamp=t)
  abbrev pub frame_at : F → ℕ → ℕ → Bytes → CanFrame F
  frame_at t can_id dlc bytes = new_frame t can_id bytes (record {
    given_dlc = some dlc;
    extended = false;
    error = false;
    rtr = false;
    given_timestamp = some t;
  })

  -- if step % period == 0: pack the data and append the frame.
  unfoldable pub every : ℕ → ℕ → F → ℕ → ℕ → List (ℕ × ℤ) → Result (List (CanFrame F))
  unfolding new_frame
  every period step t can_id dlc fields =
      if step % period == 0
      then (do bytes ← pack big fields; ok (frame_at t can_id dlc bytes ∷ []))
      else ok []

  abbrev pub brake_fields : Vehicle F → List (ℕ × ℤ)
  brake_fields v =
      let speed = fl.trunc v.speed in
      let rear = max_zero (speed -ℤ pos 1) in
      let abs_act = if fl.lt (fl.lit 70 0) v.brake && fl.lt (fl.lit 40 0) v.speed then 1 else 0 in
      (1, fl.trunc v.brake)
      ∷ (1, pos abs_act)
      ∷ (1, speed)
      ∷ (1, speed)
      ∷ (1, rear)
      ∷ (1, rear)
      ∷ []

  abbrev pub transmission_fields : Vehicle F → List (ℕ × ℤ)
  transmission_fields v =
      (1, pos v.gear)
      ∷ (2, fl.trunc (fl.mul v.throttle (fl.lit 35 1)))
      ∷ (1, pos (if ltb 0 v.gear then 1 else 0))
      ∷ (1, pos 0)
      ∷ []

  -- The statements of one step, at its time.
  abbrev pub step_calls : ℕ → F → Vehicle F → List (Result (List (CanFrame F)))
  step_calls step t v =
      every 2 step t can_id_brake_override 6 (brake_fields v)
      ∷ every 4 step t can_id_engine_rpm 4
          ((2, fl.trunc v.rpm) ∷ (1, fl.trunc v.throttle) ∷ (1, pos 1) ∷ [])
      ∷ every 10 step t can_id_vehicle_speed 4
          ((2, fl.trunc (fl.mul v.speed (fl.lit 100 0))) ∷ (1, pos 0) ∷ (1, pos 0x4A) ∷ [])
      ∷ every 10 step t can_id_transmission 5 (transmission_fields v)
      ∷ every 20 step t can_id_engine_temp 3
          ((1, fl.trunc v.temp +ℤ pos 40) ∷ (1, pos 0x42) ∷ (1, pos 0) ∷ [])
      ∷ every 20 step t can_id_body_doors 4
          ((1, pos 0xFF) ∷ (1, pos 0) ∷ (1, pos 1) ∷ (1, pos 0) ∷ [])
      ∷ every 20 step t can_id_lighting 2 ((1, pos 1) ∷ (1, pos 0) ∷ [])
      ∷ every 40 step t can_id_body_climate 4
          ((1, pos 22) ∷ (1, pos 21) ∷ (1, pos 3) ∷ (1, pos 1) ∷ [])
      ∷ []

  unfoldable pub step_frames : ℕ → F → Vehicle F → Result (List (CanFrame F))
  step_frames step t v = sequence (step_calls step t v)

  -- The loop over the steps: those left, the next step's number, and the vehicle before it.
  unfoldable pub run_steps : ℕ → ℕ → Vehicle F → Result (List (CanFrame F))
  unfolding physics step_frames
  run_steps zero step v = ok []
  run_steps (suc n) step v = do
    let t = fl.mul (of_nat step) (fl.lit 5 3)
    let v' = physics t v
    fs ← step_frames step (fl.add (fl.lit 1000000 0) t) v'
    rest ← run_steps n (suc step) v'
    ok (fs ++ rest)

  abbrev pub total_steps : F → ℕ
  total_steps duration_sec = pos_part (fl.trunc (fl.div duration_sec (fl.lit 5 3)))

  unfoldable pub generate_batch : F → Result (List (CanFrame F))
  unfolding run_steps
  generate_batch duration_sec = run_steps (total_steps duration_sec) 0 initial

  -- `generate_baseline_dataset`, on what the output file holds already.
  unfoldable pub generate_baseline_dataset : F → List Line → Result ℕ
  unfolding write_baseline
  generate_baseline_dataset duration_sec file = do
    frames ← generate_batch duration_sec
    (write_baseline frames file).0
