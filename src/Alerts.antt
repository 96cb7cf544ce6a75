-- ===== src/Alerts.antt =====
-- src/detection/alert_engine.py: `AlertEngine`. The time stamp's text and whether the log file can
-- be written are arguments; a line of the log is the alert that it holds.
pub mod History
pub mod Severity
mod Tests
use can_sentinental.Prelude.{
  ℕ, ◌+◌, ◌==◌, Bool, true, false, List, [], ◌∷◌, ◌++◌, Option, none, some, ◌||◌, not,
  if◌then◌else◌, Error,
}
use can_sentinental.Prelude.Dict.{Dict, lookup, get_or, contains}
use can_sentinental.Prelude.Deque.{append}
use can_sentinental.Prelude.Text.{Text, codes, hex, zero_padded}
use can_sentinental.Floats.{FloatOps}
use can_sentinental.Callbacks.{Callback, dispatch}
use can_sentinental.Ids.{
  can_id_brake_override, can_id_engine_rpm, can_id_vehicle_speed, can_id_engine_temp,
  can_id_transmission, can_id_body_doors, can_id_body_climate, can_id_lighting,
}
use can_sentinental.Detector.{DetectionResult}

-- The texts "LOW" to "CRITICAL", and those of the attack types.
pub data Level : Type 0 where
  low medium high critical : Level

pub data AttackType : Type 0 where
  dos_bus_flood payload_fuzzing_attack critical_brake_spoofing : AttackType
  engine_powertrain_spoofing unauthorized_arbitration_id statistical_timing_anomaly : AttackType

pub record Subsystem : Type 0 where
  pub subsystem : Text
  pub node : Text
  pub criticality : Level

abbrev entry : Text → Text → Level → Subsystem
entry s n c = record { subsystem = s; node = n; criticality = c }

abbrev pub ecu_subsystem_map : Dict Subsystem
ecu_subsystem_map =
    (
      can_id_brake_override,
      entry (codes "Braking & Stability Control") (codes "Brake ECU (0x0A0)") critical,
    )
    ∷ (can_id_engine_rpm, entry (codes "Powertrain Engine") (codes "Engine ECU (0x110)") high)
    ∷ (can_id_vehicle_speed, entry (codes "Chassis & Speedometer") (codes "Speed ECU (0x120)") high)
    ∷ (
      can_id_engine_temp,
      entry (codes "Engine Thermal Management") (codes "Temp ECU (0x130)") medium,
    )
    ∷ (can_id_transmission, entry (codes "Drivetrain & Gearbox") (codes "Trans ECU (0x180)") high)
    ∷ (can_id_body_doors, entry (codes "Body & Security") (codes "Body ECU (0x230)") medium)
    ∷ (can_id_body_climate, entry (codes "Interior Climate") (codes "HVAC ECU (0x240)") low)
    ∷ (can_id_lighting, entry (codes "External Lighting") (codes "Lighting (0x270)") low)
    ∷ []

pub record SecurityAlert (F : Type 0) : Type 0 where
  pub alert_id : Text
  pub timestamp : F
  pub timestamp_iso : Text
  pub can_id : ℕ
  pub can_id_hex : Text
  pub target_node : Text
  pub target_subsystem : Text
  pub attack_type : AttackType
  pub severity : Level
  pub anomaly_score : F
  pub threat_density_pct : F
  pub payload_hex : Text
  pub entropy : F
  pub delta_t_ms : F
  pub evidence : Text
  pub recommended_mitigation : Text

-- The four variables that the heuristic classification sets.
pub record Verdict : Type 0 where
  pub attack_type : AttackType
  pub severity : Level
  pub evidence : Text
  pub mitigation : Text

pub record AlertEngine (W F : Type 0) : Type 0 where
  pub max_history : ℕ
  pub recent_alerts : List (SecurityAlert F)
  pub callbacks : List (Callback W (SecurityAlert F))
  pub alert_counter : ℕ
  pub log_file : List (SecurityAlert F)
  -- What the callbacks act on, what they raised and was printed, and the failed writes.
  pub world : W
  pub printed : List Error
  pub failed_writes : ℕ

abbrev hex_id : ℕ → Text
hex_id can_id = codes "0x" ++ hex 3 can_id

unfoldable pub subsystem_info : ℕ → Subsystem
unfolding get_or hex
subsystem_info can_id =
    get_or can_id ecu_subsystem_map
      (entry (codes "Unauthorized / External Bus Node") (codes "Rogue ID " ++ hex_id can_id) high)

module _ {F : Type 0} ⦃fl : FloatOps F⦄ where
  -- can_id == 0x000 or delta_t_ms < 0.8
  abbrev pub is_flood : ℕ → F → Bool
  is_flood can_id delta_t_ms = can_id == 0 || fl.lt delta_t_ms (fl.lit 8 1)

  unfoldable pub classify : ℕ → F → F → F → Verdict
  unfolding contains
  classify can_id delta_t_ms entropy score =
      if is_flood can_id delta_t_ms
      then record {
        attack_type = dos_bus_flood;
        severity = critical;
        evidence =
            codes "Ultra-high transmission rate detected (Δt = "
            ++ fl.fixed 2 delta_t_ms
            ++ codes " ms). Bus arbitration monopolized.";
        mitigation = codes "Activate CAN Bus-Off error frame barrier; isolate rogue gateway node.";
      }
      else if fl.lt (fl.lit 275 2) entropy
      then record {
        attack_type = payload_fuzzing_attack;
        severity = high;
        evidence =
            codes "Abnormal payload byte Shannon entropy (H = "
            ++ fl.fixed 2 entropy
            ++ codes " bits). Random diagnostic fuzzing detected.";
        mitigation =
            codes "Filter unauthorized diagnostic packets; rate-limit non-essential frames.";
      }
      else if can_id == can_id_brake_override
      then record {
        attack_type = critical_brake_spoofing;
        severity = critical;
        evidence =
            codes
              "Spoofed Brake ECU frame detected with irregular timing or unexpected brake override state.";
        mitigation = codes "Trigger ABS failsafe lock; suppress rogue 0x0A0 arbitration slot.";
      }
      else if can_id == can_id_engine_rpm
      then record {
        attack_type = engine_powertrain_spoofing;
        severity = high;
        evidence = codes "Inconsistent engine RPM/throttle telemetry sequence detected.";
        mitigation = codes "Cross-validate RPM signal against wheel speeds.";
      }
      else if not (contains can_id ecu_subsystem_map)
      then record {
        attack_type = unauthorized_arbitration_id;
        severity = high;
        evidence =
            codes "Unregistered CAN arbitration identifier "
            ++ hex_id can_id
            ++ codes " transmitting onto vehicle bus.";
        mitigation = codes "Enforce hardware CAN acceptance ID whitelist.";
      }
      else record {
        attack_type = statistical_timing_anomaly;
        severity = (subsystem_info can_id).criticality;
        evidence =
            codes "Isolation Forest anomaly score ("
            ++ fl.fixed 4 score
            ++ codes ") breached baseline confidence threshold.";
        mitigation = codes "Log forensic frame and verify ECU clock synchronization.";
      }

module _ {W F : Type 0} where
  -- __init__, with the log file as it stands
  abbrev pub new_alert_engine : List (SecurityAlert F) → ℕ → W → AlertEngine W F
  new_alert_engine log_file max_history w = record {
    max_history = max_history;
    recent_alerts = [];
    callbacks = [];
    alert_counter = 0;
    log_file = log_file;
    world = w;
    printed = [];
    failed_writes = 0;
  }

  unfoldable pub add_alert_callback :
      Callback W (SecurityAlert F) → AlertEngine W F → AlertEngine W F
  add_alert_callback cb engine = record engine { callbacks = engine.callbacks ++ cb ∷ [] }

  -- `_record_alert`: the file is written if it can be, and a warning is printed otherwise.
  unfoldable pub record_alert : Bool → SecurityAlert F → AlertEngine W F → AlertEngine W F
  record_alert writable alert engine = record engine {
    recent_alerts = append engine.max_history alert engine.recent_alerts;
    log_file = if writable then engine.log_file ++ alert ∷ [] else engine.log_file;
    failed_writes = if writable then engine.failed_writes else engine.failed_writes + 1;
  }

-- `iso` is time.strftime over time.gmtime.
abbrev pub delta_ms : {F : Type 0} ⦃fl : FloatOps F⦄ → DetectionResult F → F
delta_ms ⦃fl⦄ det = fl.mul det.parsed.delta_t (fl.lit 1000 0)

module _ {F : Type 0} ⦃fl : FloatOps F⦄ (iso : F → Text) where
  -- The alert, with the counter as it stands after its increment.
  unfoldable pub alert_for : DetectionResult F → ℕ → SecurityAlert F
  unfolding classify subsystem_info zero_padded hex
  alert_for det counter =
      let can_id = det.frame.can_id in
      let info = subsystem_info can_id in
      let verdict = classify can_id (delta_ms det) det.parsed.entropy det.anomaly_score in
      record {
        alert_id = codes "ALERT-" ++ zero_padded 6 counter;
        timestamp = det.timestamp;
        timestamp_iso = iso det.timestamp;
        can_id = can_id;
        can_id_hex = hex_id can_id;
        target_node = info.node;
        target_subsystem = info.subsystem;
        attack_type = verdict.attack_type;
        severity = verdict.severity;
        anomaly_score = fl.round 6 det.anomaly_score;
        threat_density_pct = fl.round 2 det.threat_density;
        payload_hex = det.parsed.payload_hex;
        entropy = fl.round 4 det.parsed.entropy;
        delta_t_ms = fl.round 3 (delta_ms det);
        evidence = verdict.evidence;
        recommended_mitigation = verdict.mitigation;
      }

module _ {W F : Type 0} ⦃fl : FloatOps F⦄ (iso : F → Text) where
  unfoldable pub evaluate_detection :
      Bool → DetectionResult F → AlertEngine W F → Option (SecurityAlert F) × AlertEngine W F
  unfolding alert_for record_alert dispatch
  evaluate_detection writable det engine =
      if not det.is_anomaly
      then (none, engine)
      else (let counter = engine.alert_counter + 1 in
          let alert = alert_for iso det counter in
          let recorded = record_alert writable alert (record engine { alert_counter = counter }) in
          let out = dispatch recorded.callbacks alert recorded.world in
          (
            some alert,
            record recorded { world = out.world; printed = recorded.printed ++ out.printed },
          ))
