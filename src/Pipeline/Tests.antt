-- ===== src/Pipeline/Tests.antt =====
-- A run of the pipeline: a speed frame, then a transmission frame that the parser cannot decode.
use can_sentinental.Prelude.{
  ℕ, ◌+◌, ◌≡◌, refl, true, false, List, [], ◌∷◌, ◌++◌, length, map, arith, take, drop, struct_error,
  Result,
}
use mathlib.Core.List.{flatten}
use can_sentinental.Prelude.Int.{ℤ, pos}
use can_sentinental.Prelude.Text.{Text}
use can_sentinental.Prelude.Deque.{append}
use can_sentinental.Floats.Fixed.{micro}
use can_sentinental.Struct.{Bytes, little}
use can_sentinental.Callbacks.{dispatch}
use can_sentinental.Parser.{parse_frame}
use can_sentinental.Signals.{decode_signals, decode_speed, decode_transmission}
use can_sentinental.Model.{Sklearn, CanIsolationForestModel, predict_single}
use can_sentinental.Ipc.{frame_of_fields, CanIpcServer, chunk, handle_client}
use can_sentinental.Ipc.Packet.{packet_bytes}
use can_sentinental.Ipc.Framing.{packets}
use can_sentinental.Detector.{
  StreamAnomalyDetector, DetectionResult, new_detector, process_frame, score, conclude,
}
use can_sentinental.Alerts.{AlertEngine}
use can_sentinental.Alerts.History.{evaluate_all}
use can_sentinental.Pipeline.{on_detection, on_frame, process_each, returned, raised, frames_of}
use can_sentinental.Pipeline.Listening.{alone}
use can_sentinental.Pipeline.Monitor.{handle_client-alerts}
use can_sentinental.Model.Samples.{np, forest_of, below}

abbrev sk : Sklearn ℤ (Unit {0}) (Unit {0})
sk = forest_of (λ row. pos 7)

-- Every frame is an anomaly to this model.
abbrev strict : CanIsolationForestModel ℤ (Unit {0}) (Unit {0})
strict = below (pos 8)

abbrev iso : ℤ → Text
iso t = []

abbrev elapsed : ℕ → ℤ
elapsed n = pos (n + 100)

abbrev clock : ℕ → ℤ
clock n = pos 0

abbrev engine : AlertEngine (Unit {0}) ℤ
engine = record {
  max_history = 10;
  recent_alerts = [];
  callbacks = [];
  alert_counter = 0;
  log_file = [];
  world = tt;
  printed = [];
  failed_writes = 0;
}

abbrev detector : StreamAnomalyDetector (AlertEngine (Unit {0}) ℤ) ℤ (Unit {0}) (Unit {0})
detector = record (new_detector strict 100 200 engine) { callbacks = on_detection iso ∷ [] }

abbrev server :
    CanIpcServer (StreamAnomalyDetector (AlertEngine (Unit {0}) ℤ) ℤ (Unit {0}) (Unit {0})) ℤ
server = record {
  callbacks = on_frame np sk elapsed ∷ [];
  total_frames_received = 0;
  world = detector;
  printed = [];
}

abbrev packet : ℕ → Bytes → Bytes
packet can_id payload = packet_bytes little (record {
  timestamp_us = 5000000;
  can_id = can_id;
  dlc = 4;
  payload = payload ++ 0 ∷ 0 ∷ 0 ∷ 0 ∷ [];
  is_extended = 0;
  is_error = 0;
  is_rtr = 0;
})

abbrev stream : Bytes
stream = packet 0x120 (0x17 ∷ 0x70 ∷ 0 ∷ 0 ∷ []) ++ packet 0x180 (2 ∷ 0 ∷ 150 ∷ 1 ∷ [])

abbrev chunks : List Bytes
chunks = take 30 stream ∷ drop 30 stream ∷ []

abbrev results : List (Result (DetectionResult ℤ))
results = process_each np sk elapsed (frames_of little clock 0 (packets 2 stream)) (alone detector)

results_errors : raised results ≡ struct_error ∷ []
unfolding process_each process_frame score conclude parse_frame decode_signals decode_speed
    predict_single dispatch append frame_of_fields decode_transmission
results_errors = refl

results_detections : length (returned results) ≡ 1
unfolding process_each process_frame score conclude parse_frame decode_signals decode_speed
    predict_single dispatch append frame_of_fields decode_transmission
results_detections = refl

handle_client-alerts_example :
    let after =
      handle_client little clock
        (map (λ bytes. (true, chunk bytes)) chunks)
        (record { server = server; buffer = []; closed = false }) in
    (after.server.world.world ≡ evaluate_all iso (returned results) engine)
    × (after.server.printed ≡ raised results)
    × (after.server.total_frames_received ≡ length results)
    × (after.closed ≡ false)
unfolding process_each evaluate_all flatten
handle_client-alerts_example =
    handle_client-alerts np sk iso elapsed little clock chunks [] server (omega arith)
      (refl, (refl, tt)) (record { to_detector = refl; to_engine = refl })
