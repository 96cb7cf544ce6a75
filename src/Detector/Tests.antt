-- ===== src/Detector/Tests.antt =====
-- The theorems on the detector at concrete inputs.
use can_sentinental.Prelude.{
  ◌≡◌, refl, true, false, [], ◌∷◌, length, ℕ, ok, raise, struct_error, arith,
}
use can_sentinental.Prelude.Deque.{append}
use can_sentinental.Prelude.Int.{ℤ, pos}
use can_sentinental.Struct.{Bytes}
use can_sentinental.Floats.Fixed.{micro}
use can_sentinental.Frame.{CanFrame}
use can_sentinental.Parser.{observe, telemetry, new_parser, parse_frame}
use can_sentinental.Signals.{float, decode_signals, decode_speed}
use can_sentinental.Features.Window.{extract_frame}
use can_sentinental.Model.{Sklearn, CanIsolationForestModel, predict_single}
use can_sentinental.Callbacks.{dispatch}
use can_sentinental.Detector.{
  StreamAnomalyDetector, DetectionResult, new_detector, process_frame, score, conclude,
}
use can_sentinental.Detector.Sync.{IsSynced, process_frame-IsSynced, process_frame_transmission}
use can_sentinental.Detector.Bounds.{IsValid, process_all, process_all-IsValid}
use can_sentinental.Model.Samples.{np, forest_of, below}

abbrev sk : Sklearn ℤ (Unit {0}) (Unit {0})
sk = forest_of (λ row. pos 7)

-- Every frame is an anomaly to this model.
abbrev model : CanIsolationForestModel ℤ (Unit {0}) (Unit {0})
model = below (pos 8)

abbrev detector : StreamAnomalyDetector (Unit {0}) ℤ (Unit {0}) (Unit {0})
detector = new_detector model 100 200 tt

abbrev frame_at : ℕ → ℕ → Bytes → CanFrame ℤ
frame_at time can_id bytes = record {
  can_id = can_id;
  payload = bytes;
  dlc = length bytes;
  is_extended = false;
  is_error = false;
  is_rtr = false;
  timestamp = pos time;
}

abbrev speed : CanFrame ℤ
speed = frame_at 5000000 0x120 (0x17 ∷ 0x70 ∷ [])

abbrev gearbox : CanFrame ℤ
gearbox = frame_at 7000000 0x180 (2 ∷ 0 ∷ 150 ∷ 1 ∷ [])

process_frame_transmission_example :
    process_frame np sk gearbox (pos 1) detector
    ≡ (raise struct_error, record detector { parser = observe gearbox new_parser })
process_frame_transmission_example =
    process_frame_transmission np sk gearbox (pos 1) detector refl (omega arith)

new-IsSynced : IsSynced detector
new-IsSynced = record { per_id = refl; global = refl }

abbrev speed_detection : DetectionResult ℤ
speed_detection = record {
  frame = speed;
  parsed = telemetry speed new_parser (("speed_kmh", float (pos 60000000)) ∷ []);
  is_anomaly = true;
  anomaly_score = pos 7;
  threat_density = pos 100000000;
  inference_time_us = pos 1;
  timestamp = pos 5000000;
}

process_speed : (process_frame np sk speed (pos 1) detector).0 ≡ ok speed_detection
unfolding process_frame score conclude parse_frame decode_signals decode_speed predict_single
    dispatch append
process_speed = refl

process_frame-IsSynced_example :
    IsSynced (process_frame np sk speed (pos 1) detector).1
    × ((extract_frame np speed detector.feature_extractor).0.delta_t
        ≡ speed_detection.parsed.delta_t)
    × ((extract_frame np speed detector.feature_extractor).0.global_delta_t
        ≡ speed_detection.parsed.global_delta_t)
    × ((extract_frame np speed detector.feature_extractor).0.entropy
        ≡ speed_detection.parsed.entropy)
process_frame-IsSynced_example =
    process_frame-IsSynced np sk speed (pos 1) detector new-IsSynced process_speed

process_all-IsValid_example :
    IsValid (process_all np sk ((speed, pos 1) ∷ (gearbox, pos 1) ∷ (speed, pos 2) ∷ []) detector)
process_all-IsValid_example =
    process_all-IsValid np sk ((speed, pos 1) ∷ (gearbox, pos 1) ∷ (speed, pos 2) ∷ []) detector
      (record { window_bounded = omega arith; window_flags = tt; flagged_processed = omega arith })
