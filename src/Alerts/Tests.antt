-- ===== src/Alerts/Tests.antt =====
-- The theorems on the alert engine at concrete inputs.
use can_sentinental.Prelude.{◌≡◌, refl, true, false, [], ◌∷◌, length, ℕ, ok, ◌⊎◌}
use can_sentinental.Prelude.Dict.{contains}
use can_sentinental.Prelude.Int.{ℤ, pos}
use can_sentinental.Prelude.Text.{Text}
use can_sentinental.Floats.Fixed.{micro}
use can_sentinental.Frame.{CanFrame}
use can_sentinental.Ids.{can_id_body_climate, can_id_lighting}
use can_sentinental.Parser.{new_parser, parse_frame, telemetry}
use can_sentinental.Parser.Histories.{parse_all}
use can_sentinental.Signals.{float, decode_signals, decode_speed}
use can_sentinental.Detector.{DetectionResult}
use can_sentinental.Alerts.{
  AlertEngine, low, high, critical, dos_bus_flood, statistical_timing_anomaly,
  payload_fuzzing_attack, ecu_subsystem_map, classify, is_flood, alert_for,
}
use can_sentinental.Alerts.Severity.{first_frame_flood, classify_severity}
use can_sentinental.Alerts.History.{evaluate_all, evaluate_all-history}

abbrev iso : ℤ → Text
iso t = []

abbrev speed : ℕ → CanFrame ℤ
speed time = record {
  can_id = 0x120;
  payload = 0x17 ∷ 0x70 ∷ [];
  dlc = 2;
  is_extended = false;
  is_error = false;
  is_rtr = false;
  timestamp = pos time;
}

-- The first speed frame, found anomalous, and a normal one.
abbrev anomalous : DetectionResult ℤ
anomalous = record {
  frame = speed 5000000;
  parsed = telemetry (speed 5000000) new_parser (("speed_kmh", float (pos 60000000)) ∷ []);
  is_anomaly = true;
  anomaly_score = pos 7;
  threat_density = pos 100000000;
  inference_time_us = pos 1;
  timestamp = pos 5000000;
}

abbrev unremarkable : DetectionResult ℤ
unremarkable = record anomalous { is_anomaly = false }

-- High entropy on an unknown identifier at 50 ms.
classify_fuzzing :
    (classify 0x7FF (pos 50000000) (pos 2900000) (pos 0)).attack_type ≡ payload_fuzzing_attack
unfolding classify
classify_fuzzing = refl

classify_severity_example :
    (contains 0x270 ecu_subsystem_map ≡ false
      → ((classify 0x270 (pos 50000000) (pos 0) (pos 0)).severity ≡ critical)
        ⊎ ((classify 0x270 (pos 50000000) (pos 0) (pos 0)).severity ≡ high))
    × ((classify 0x270 (pos 50000000) (pos 0) (pos 0)).severity ≡ low
        → ((classify 0x270 (pos 50000000) (pos 0) (pos 0)).attack_type ≡ statistical_timing_anomaly)
          × ((0x270 ≡ can_id_body_climate) ⊎ (0x270 ≡ can_id_lighting)))
    × ((classify 0x270 (pos 50000000) (pos 0) (pos 0)).attack_type ≡ dos_bus_flood
        → (is_flood 0x270 (pos 50000000) ≡ true)
          × ((classify 0x270 (pos 50000000) (pos 0) (pos 0)).severity ≡ critical))
classify_severity_example = classify_severity 0x270 (pos 50000000) (pos 0) (pos 0)

parse_first : (parse_frame (speed 5000000) (parse_all [] new_parser)).0 ≡ ok anomalous.parsed
unfolding parse_frame decode_signals decode_speed parse_all
parse_first = refl

first_frame_flood_example :
    ((alert_for iso anomalous 1).attack_type ≡ dos_bus_flood)
    × ((alert_for iso anomalous 1).severity ≡ critical)
first_frame_flood_example =
    first_frame_flood iso [] (speed 5000000) anomalous 1 refl refl parse_first

-- An engine that remembers one alert.
abbrev engine : AlertEngine (Unit {0}) ℤ
engine = record {
  max_history = 1;
  recent_alerts = [];
  callbacks = [];
  alert_counter = 4;
  log_file = [];
  world = tt;
  printed = [];
  failed_writes = 0;
}

evaluate_all-history_example :
    let dets = anomalous ∷ unremarkable ∷ anomalous ∷ [] in
    let alerts = alert_for iso anomalous 5 ∷ alert_for iso anomalous 6 ∷ [] in
    let after = evaluate_all iso dets engine in
    (after.recent_alerts ≡ alert_for iso anomalous 6 ∷ [])
    × (after.log_file ≡ alerts)
    × (after.alert_counter ≡ 6)
    × (length alerts ≡ 2)
evaluate_all-history_example =
    evaluate_all-history iso (anomalous ∷ unremarkable ∷ anomalous ∷ []) [] engine refl
