-- ===== src/Simulator/Tests.antt =====
-- Schedules of the simulator.
use can_sentinental.Prelude.{
  ℕ, ◌≤◌, ◌≡◌, refl, true, false, List, [], ◌∷◌, length, arith, All, count_if,
}
use can_sentinental.Prelude.Int.{ℤ, pos}
use can_sentinental.Floats.Fixed.{micro}
use can_sentinental.Frame.{CanFrame}
use can_sentinental.Bus.{VirtualCanBus}
use can_sentinental.Sim.{initial}
use can_sentinental.Ecu.{calls}
use can_sentinental.Simulator.{
  Simulator, ended, Action, call_start, call_stop, go_on, thread_at, new_simulator, stop, run,
  drive,
}
use can_sentinental.Simulator.Stopping.{steps_left, IsBetween, is_start, is_step_of, stop_quiets}

abbrev bus : VirtualCanBus (CanFrame ℤ)
bus = record { subscribers = []; is_open = true; queues = []; next = 0 }

abbrev simulator : Simulator ℕ ℤ
simulator = run (call_start ∷ go_on 4 (pos 0) ∷ []) (new_simulator bus 0)

five_threads : length simulator.threads ≡ 5
unfolding run new_simulator
five_threads = refl

-- After 41 seconds the vehicle brakes at 40 km/h, and the gear is still the one of cruising.
fourth_gear : (drive {F = ℤ} (pos 41000000) (record initial { gear = 4 })).gear ≡ 4
unfolding drive
fourth_gear = refl

abbrev rounds : List (Action ℤ)
rounds =
    go_on 4 (pos 1)
    ∷ go_on 4 (pos 1)
    ∷ go_on 0 (pos 1)
    ∷ call_stop
    ∷ go_on 4 (pos 1)
    ∷ go_on 4 (pos 1)
    ∷ go_on 4 (pos 1)
    ∷ []

no_starts : All (λ a. is_start a ≡ false) rounds
no_starts = (refl, (refl, (refl, (refl, (refl, (refl, (refl, tt)))))))

stop_quiets_example :
    ((i : ℕ)
      → steps_left (thread_at i simulator.threads) ≤ count_if (is_step_of i) rounds
      → thread_at i (run rounds (stop simulator)).threads ≡ ended)
    × (All IsBetween simulator.threads → (run rounds (stop simulator)).shared ≡ simulator.shared)
stop_quiets_example = stop_quiets rounds simulator no_starts

body_ends : thread_at 4 (run rounds (stop simulator)).threads ≡ ended
unfolding run new_simulator calls
body_ends = (stop_quiets rounds simulator no_starts).0 4 (omega arith)
