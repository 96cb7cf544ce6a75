-- ===== src/Ecu/Tests.antt =====
-- A round of the body's ECU.
use mathlib.Core.Option
use can_sentinental.Prelude.{
  ℕ, ◌+◌, ◌≡◌, refl, true, map, List, [], ◌∷◌, ok, raise, value_error, if◌then◌else◌,
}
use can_sentinental.Prelude.Int.{ℤ, pos}
use can_sentinental.Prelude.Dict.{Dict, lookup}
use can_sentinental.Floats.Fixed.{micro}
use can_sentinental.Frame.{CanFrame, valid_bytes}
use can_sentinental.Callbacks.{Callback}
use can_sentinental.Bus.{Queue, contains_id}
use can_sentinental.Bus.Delivery.{kept}
use can_sentinental.Sim.{sequence, initial}
use can_sentinental.Ecu.{VehicleEcuSimulator, body, calls, tick_ecu}
use mathlib.Core.List.{flatten}
use can_sentinental.Signals.{decode_signals}
use can_sentinental.Ecu.Decoding.{readings, decode_signals-calls}
use can_sentinental.Ecu.Ticks.{told, tick_ecu-delivers}

-- A callback that counts and then raises.
abbrev counts : Callback ℕ (CanFrame ℤ)
counts f w = (raise value_error, w + 1)

-- One listener with room for two frames.
abbrev simulator : VehicleEcuSimulator ℕ ℤ
simulator = record {
  bus = record {
    subscribers = 0 ∷ [];
    is_open = true;
    queues = (0, record { maxsize = 2; items = [] }) ∷ [];
    next = 1;
  };
  callbacks = counts ∷ [];
  world = 0;
  vehicle = initial;
  doors_locked = 1;
  headlights = 1;
}

body_packed : (frames : List (CanFrame ℤ)) × (sequence (calls body 0 (pos 5) simulator) ≡ ok frames)
unfolding calls
body_packed = (_, refl)

tick_ecu-delivers_example :
    (queues : Dict (Queue (CanFrame ℤ))) × (tick_ecu body 0 (pos 5) simulator ≡ (
      ok tt,
      record simulator {
        bus = record simulator.bus { queues = queues };
        world = told (counts ∷ []) body_packed.0 0;
      },
    ))
    × ((j : ℕ)
        → lookup j queues ≡ (
            if contains_id j (0 ∷ [])
            then Option.map (kept body_packed.0) (lookup j simulator.bus.queues)
            else lookup j simulator.bus.queues))
tick_ecu-delivers_example = tick_ecu-delivers body 0 (pos 5) simulator body_packed.1 refl (refl, tt)

decode_signals-calls_example :
    map (λ f. decode_signals {F = ℤ} f.can_id (valid_bytes f)) body_packed.0
    ≡ flatten (readings body 0 simulator)
decode_signals-calls_example = decode_signals-calls body 0 (pos 5) simulator body_packed.1
