-- ===== src/Ecu.antt =====
-- src/sim/ecu_generator.py: `_broadcast` and the ECUs that `start` runs in threads, as the body of
-- each loop. The lock makes the reading of the state one step; the loops' pauses change nothing.
pub mod Ticks
pub mod Payloads
pub mod Decoding
mod Tests
use can_sentinental.Prelude.{
  ℕ, ltb, ◌&&◌, Bool, true, false, List, [], ◌∷◌, ◌++◌, ◌==◌, if◌then◌else◌, Result, ok, raise,
}
use can_sentinental.Prelude.Int.{ℤ, pos, max_zero, ltb_ℤ, ◌-ℤ◌, ◌+ℤ◌}
use can_sentinental.Floats.{FloatOps}
use can_sentinental.Frame.{CanFrame}
use can_sentinental.Callbacks.{Callback, dispatch}
use can_sentinental.Bus.{VirtualCanBus, send}
use can_sentinental.Ids.{
  can_id_brake_override, can_id_engine_rpm, can_id_vehicle_speed, can_id_engine_temp,
  can_id_transmission, can_id_body_doors, can_id_body_climate, can_id_lighting,
}
use can_sentinental.Sim.{Vehicle, every, transmission_fields}

-- What the threads that send share; the threads themselves are not part of it.
pub record VehicleEcuSimulator (W F : Type 0) : Type 0 where
  pub bus : VirtualCanBus (CanFrame F)
  pub callbacks : List (Callback W (CanFrame F))
  pub world : W
  pub vehicle : Vehicle F
  pub doors_locked : ℕ
  pub headlights : ℕ

module _ {W F : Type 0} where
  unfoldable pub add_frame_callback :
      Callback W (CanFrame F) → VehicleEcuSimulator W F → VehicleEcuSimulator W F
  add_frame_callback cb e = record e { callbacks = e.callbacks ++ cb ∷ [] }

  -- From the result of sending on: the callbacks, whose exceptions are dropped.
  unfoldable pub after_bus :
      Result (VirtualCanBus (CanFrame F))
      → CanFrame F
      → VehicleEcuSimulator W F
      → Result (Unit {0}) × VehicleEcuSimulator W F
  after_bus (raise err) frame e = (raise err, e)
  after_bus (ok bus) frame e =
      (ok tt, record e { bus = bus; world = (dispatch e.callbacks frame e.world).world })

  unfoldable pub broadcast :
      CanFrame F → VehicleEcuSimulator W F → Result (Unit {0}) × VehicleEcuSimulator W F
  unfolding after_bus
  broadcast frame e = after_bus (send frame e.bus) frame e

  -- A statement after another, which a raise skips.
  abbrev pub next_call :
      Result (Unit {0}) × VehicleEcuSimulator W F
      → (VehicleEcuSimulator W F → Result (Unit {0}) × VehicleEcuSimulator W F)
      → Result (Unit {0}) × VehicleEcuSimulator W F
  next_call (raise err, e) rest = (raise err, e)
  next_call (ok _, e) rest = rest e

  unfoldable pub broadcast_all :
      List (CanFrame F) → VehicleEcuSimulator W F → Result (Unit {0}) × VehicleEcuSimulator W F
  unfolding broadcast
  broadcast_all [] e = (ok tt, e)
  broadcast_all (frame ∷ frames) e = next_call (broadcast frame e) (broadcast_all frames)

  -- Statements that each pack the data of a frame and broadcast it, or have nothing to send.
  unfoldable pub emit :
      List (Result (List (CanFrame F)))
      → VehicleEcuSimulator W F
      → Result (Unit {0}) × VehicleEcuSimulator W F
  unfolding broadcast_all
  emit [] e = (ok tt, e)
  emit (raise err ∷ calls) e = (raise err, e)
  emit (ok frames ∷ calls) e = next_call (broadcast_all frames e) (emit calls)

module _ {F : Type 0} ⦃fl : FloatOps F⦄ where
  unfoldable pub engine_ecu : ℕ → F → Vehicle F → List (Result (List (CanFrame F)))
  unfolding every
  engine_ecu tick now v =
      every 1 tick now can_id_engine_rpm 4
        ((2, fl.trunc v.rpm) ∷ (1, fl.trunc v.throttle) ∷ (1, pos 1) ∷ [])
      ∷ every 2 tick now can_id_vehicle_speed 4
          ((2, fl.trunc (fl.mul v.speed (fl.lit 100 0))) ∷ (1, pos 0) ∷ (1, pos 0x4A) ∷ [])
      ∷ every 5 tick now can_id_engine_temp 3
          ((1, fl.trunc v.temp +ℤ pos 40) ∷ (1, pos 0x42) ∷ (1, pos 0) ∷ [])
      ∷ []

  unfoldable pub transmission_ecu : ℕ → F → Vehicle F → List (Result (List (CanFrame F)))
  unfolding every
  transmission_ecu tick now v = every 1 tick now can_id_transmission 5 (transmission_fields v) ∷ []

  unfoldable pub brake_ecu : ℕ → F → Vehicle F → List (Result (List (CanFrame F)))
  unfolding every
  brake_ecu tick now v =
      let brake_val = fl.trunc v.brake in
      let speed_base = fl.trunc v.speed in
      let wheel_rl = max_zero (speed_base -ℤ pos 1) in
      let abs_active = if ltb_ℤ (pos 70) brake_val && ltb_ℤ (pos 40) speed_base then 1 else 0 in
      every 1 tick now can_id_brake_override 6 (
        (1, brake_val)
        ∷ (1, pos abs_active)
        ∷ (1, speed_base)
        ∷ (1, speed_base)
        ∷ (1, wheel_rl)
        ∷ (1, wheel_rl)
        ∷ [])
      ∷ []

  unfoldable pub body_ecu : ℕ → ℕ → ℕ → F → List (Result (List (CanFrame F)))
  unfolding every
  body_ecu doors lights tick now =
      every 1 tick now can_id_body_doors 4
        ((1, pos (if doors == 0 then 0x00 else 0xFF)) ∷ (1, pos 0) ∷ (1, pos 1) ∷ (1, pos 0) ∷ [])
      ∷ every 2 tick now can_id_body_climate 4
          ((1, pos 22) ∷ (1, pos 21) ∷ (1, pos 3) ∷ (1, pos 1) ∷ [])
      ∷ every 1 tick now can_id_lighting 2
          ((1, pos (if lights == 0 then 0 else 1)) ∷ (1, pos 0) ∷ [])
      ∷ []

-- The ECUs that send, each in a thread.
pub data Ecu : Type 0 where
  engine transmission brake body : Ecu

module _ {W F : Type 0} ⦃fl : FloatOps F⦄ where
  unfoldable pub calls : Ecu → ℕ → F → VehicleEcuSimulator W F → List (Result (List (CanFrame F)))
  unfolding engine_ecu transmission_ecu brake_ecu body_ecu
  calls engine tick now e = engine_ecu tick now e.vehicle
  calls transmission tick now e = transmission_ecu tick now e.vehicle
  calls brake tick now e = brake_ecu tick now e.vehicle
  calls body tick now e = body_ecu e.doors_locked e.headlights tick now

  -- The body of an ECU's loop, where `tick` counts its rounds and `now` is the clock.
  unfoldable pub tick_ecu :
      Ecu → ℕ → F → VehicleEcuSimulator W F → Result (Unit {0}) × VehicleEcuSimulator W F
  unfolding calls emit
  tick_ecu ecu tick now e = emit (calls ecu tick now e) e
