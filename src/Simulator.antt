-- ===== src/Simulator.antt =====
-- src/sim/ecu_generator.py: the threads of `VehicleECUSimulator`, with `start` and `stop`. A
-- schedule names the calls and which thread goes on. A thread takes one step for what it does under
-- the lock, and one for each frame; the clock's reading is part of the schedule, and the pauses
-- change nothing.
pub mod Stopping
mod Tests
use can_sentinental.Prelude.{
  ℕ, zero, suc, ◌+◌, Bool, true, false, List, [], ◌∷◌, ◌++◌, if◌then◌else◌, Result, ok, raise,
}
use can_sentinental.Prelude.Slots.{slot, set_slot}
use can_sentinental.Floats.{FloatOps, zero_float, max_float}
use can_sentinental.Frame.{CanFrame}
use can_sentinental.Bus.{VirtualCanBus}
use can_sentinental.Sim.{Vehicle, initial, wave, accelerate, cruise, idle}
use can_sentinental.Ecu.{VehicleEcuSimulator, Ecu, engine, transmission, brake, body, calls, emit}

module _ {F : Type 0} ⦃fl : FloatOps F⦄ where
  -- Braking, where a gear that no test sets stays as it is.
  unfoldable pub slow_down : F → Vehicle F → Vehicle F
  slow_down cycle_t v =
      let brake_t = fl.div (fl.sub cycle_t (fl.lit 35 0)) (fl.lit 13 0) in
      let left = fl.sub (fl.lit 1 0) brake_t in
      let speed = max_float zero_float (fl.mul (fl.lit 75 0) left) in
      record v {
        throttle = zero_float;
        brake = wave (fl.lit 35 0) (fl.lit 15 0) (fl.mul brake_t fl.pi);
        speed = speed;
        rpm = max_float (fl.lit 800 0) (fl.mul (fl.lit 2100 0) left);
        gear =
            if fl.lt speed (fl.lit 10 0)
            then 1
            else if fl.lt speed (fl.lit 30 0)
            then 2
            else v.gear;
      }

  unfoldable pub heat_up : Vehicle F → Vehicle F
  heat_up v =
      if fl.lt v.temp (fl.lit 90 0) then record v { temp = fl.add v.temp (fl.lit 5 2) } else v

  -- What a round of the physics does under the lock.
  unfoldable pub drive : F → Vehicle F → Vehicle F
  unfolding slow_down heat_up accelerate cruise idle
  drive time_sec v =
      let cycle_t = fl.mod_float time_sec (fl.lit 60 0) in
      heat_up (
        if fl.lt cycle_t (fl.lit 15 0)
        then accelerate cycle_t v
        else if fl.lt cycle_t (fl.lit 35 0)
        then cruise cycle_t v
        else if fl.lt cycle_t (fl.lit 48 0)
        then slow_down cycle_t v
        else idle cycle_t v)

-- Where a thread stands: before the test of its loop, with its loop's variable; before the frames
-- that its round still has to send; or past its loop, by the test or by an exception.
pub data Thread (F : Type 0) : Type 0 where
  physics_top : F → Thread F
  ecu_top : Ecu → ℕ → Thread F
  sending : Ecu → ℕ → List (Result (List (CanFrame F))) → Thread F
  ended : Thread F

pub record Simulator (W F : Type 0) : Type 0 where
  pub running : Bool
  pub shared : VehicleEcuSimulator W F
  -- The threads that `start` has made, the first ones first.
  pub threads : List (Thread F)

-- The phase of a thread; one that was never made has nothing to do.
abbrev pub thread_at : {F : Type 0} → ℕ → List (Thread F) → Thread F
thread_at i ts = slot ended i ts

abbrev pub set_thread : {F : Type 0} → ℕ → Thread F → List (Thread F) → List (Thread F)
set_thread i t ts = set_slot i t ts

pub data Action (F : Type 0) : Type 0 where
  call_start call_stop : Action F
  go_on : ℕ → F → Action F

module _ {W F : Type 0} ⦃fl : FloatOps F⦄ where
  -- `__init__` on a bus.
  unfoldable pub new_simulator : VirtualCanBus (CanFrame F) → W → Simulator W F
  new_simulator bus w = record {
    running = false;
    shared = record {
      bus = bus;
      callbacks = [];
      world = w;
      vehicle = initial;
      doors_locked = 1;
      headlights = 1;
    };
    threads = [];
  }

  unfoldable pub start : Simulator W F → Simulator W F
  start s = if s.running then s else record s {
    running = true;
    threads =
        s.threads
        ++ (physics_top zero_float
            ∷ ecu_top engine 0
            ∷ ecu_top transmission 0
            ∷ ecu_top brake 0
            ∷ ecu_top body 0
            ∷ []);
  }

  -- The threads are joined for a second, and forgotten; those that are not past their loop go on.
  unfoldable pub stop : Simulator W F → Simulator W F
  stop s = record s { running = false }

  -- From the result of a broadcast on.
  unfoldable pub after_emit :
      Ecu
      → ℕ
      → List (Result (List (CanFrame F)))
      → Result (Unit {0}) × VehicleEcuSimulator W F
      → Thread F × VehicleEcuSimulator W F
  after_emit ecu tick rest (raise e, shared) = (ended, shared)
  after_emit ecu tick rest (ok _, shared) = (sending ecu tick rest, shared)

  -- A step of a thread, where the flag is what its loop tests.
  unfoldable pub step_thread :
      Bool → F → Thread F → VehicleEcuSimulator W F → Thread F × VehicleEcuSimulator W F
  unfolding drive after_emit
  step_thread false now (physics_top time_sec) e = (ended, e)
  step_thread true now (physics_top time_sec) e =
      (physics_top (fl.add time_sec (fl.lit 5 2)), record e { vehicle = drive time_sec e.vehicle })
  step_thread false now (ecu_top ecu tick) e = (ended, e)
  step_thread true now (ecu_top ecu tick) e = (sending ecu tick (calls ecu tick now e), e)
  step_thread running now (sending ecu tick []) e = (ecu_top ecu (tick + 1), e)
  step_thread running now (sending ecu tick (c ∷ cs)) e = after_emit ecu tick cs (emit (c ∷ []) e)
  step_thread running now ended e = (ended, e)

  unfoldable pub perform : Action F → Simulator W F → Simulator W F
  unfolding start stop step_thread
  perform call_start s = start s
  perform call_stop s = stop s
  perform (go_on i now) s =
      let (t, shared) = step_thread s.running now (thread_at i s.threads) s.shared in
      record s { shared = shared; threads = set_thread i t s.threads }

  unfoldable pub run : List (Action F) → Simulator W F → Simulator W F
  unfolding perform
  run [] s = s
  run (a ∷ as') s = run as' (perform a s)
