-- ===== src/Detector.antt =====
-- src/detection/stream_detector.py: `StreamAnomalyDetector`. `process_frame` is written by its
-- stages, each of which may raise with what the earlier ones have written left in place.
pub mod Sync
pub mod Bounds
mod Tests
use can_sentinental.Prelude.{
  ℕ, ◌+◌, ◌==◌, Bool, true, false, List, [], ◌∷◌, ◌++◌, length, if◌then◌else◌, Error, Result, ok,
  raise, zero_division_error,
}
use can_sentinental.Prelude.Int.{ℤ}
use can_sentinental.Prelude.Counter.{sum}
use can_sentinental.Prelude.Deque.{append}
use can_sentinental.Floats.{FloatOps, of_nat}
use can_sentinental.Frame.{CanFrame}
use can_sentinental.Callbacks.{Callback, dispatch}
use can_sentinental.Parser.{CanTelemetryParser, ParsedTelemetry, new_parser, parse_frame}
use can_sentinental.Features.{
  NumpyStats, StreamingFeatureExtractor, new_extractor, extract_features, as_array,
}
use can_sentinental.Model.{Sklearn, CanIsolationForestModel, predict_single, is_minus_one}

pub record DetectionResult (F : Type 0) : Type 0 where
  pub frame : CanFrame F
  pub parsed : ParsedTelemetry F
  pub is_anomaly : Bool
  pub anomaly_score : F
  pub threat_density : F
  pub inference_time_us : F
  pub timestamp : F

pub record StreamAnomalyDetector (W F S M : Type 0) : Type 0 where
  pub parser : CanTelemetryParser F
  pub feature_extractor : StreamingFeatureExtractor F
  pub model : CanIsolationForestModel F S M
  pub threat_window : List ℕ
  pub threat_window_size : ℕ
  pub callbacks : List (Callback W (DetectionResult F))
  pub total_processed : ℕ
  pub total_anomalies_flagged : ℕ
  -- What the callbacks act on, and what has been printed.
  pub world : W
  pub printed : List Error

module _ {W F S M : Type 0} where
  -- __init__, with a model given
  abbrev pub new_detector :
      CanIsolationForestModel F S M → ℕ → ℕ → W → StreamAnomalyDetector W F S M
  new_detector model sliding_window_size threat_window_size w = record {
    parser = new_parser;
    feature_extractor = new_extractor sliding_window_size;
    model = model;
    threat_window = [];
    threat_window_size = threat_window_size;
    callbacks = [];
    total_processed = 0;
    total_anomalies_flagged = 0;
    world = w;
    printed = [];
  }

  unfoldable pub add_detection_callback :
      Callback W (DetectionResult F) → StreamAnomalyDetector W F S M → StreamAnomalyDetector W F S M
  add_detection_callback cb d = record d { callbacks = d.callbacks ++ cb ∷ [] }

abbrev pub density : {F : Type 0} ⦃fl : FloatOps F⦄ → List ℕ → F
density ⦃fl⦄ window = fl.mul (fl.div (of_nat (sum window)) (of_nat (length window))) (fl.lit 100 0)

-- `time_us` is the measured inference time.
module _ {W F S M : Type 0} ⦃fl : FloatOps F⦄ (np : NumpyStats F) (sk : Sklearn F S M) where
  -- From the prediction to the return.
  unfoldable pub conclude :
      CanFrame F
      → F
      → ParsedTelemetry F
      → Result (ℤ × F)
      → StreamAnomalyDetector W F S M
      → Result (DetectionResult F) × StreamAnomalyDetector W F S M
  unfolding dispatch
  conclude f time_us parsed (raise e) d = (raise e, d)
  conclude f time_us parsed (ok (pred, score)) d =
      let is_anomaly = is_minus_one pred in
      let window = append d.threat_window_size (if is_anomaly then 1 else 0) d.threat_window in
      if length window == 0
      then (raise zero_division_error, record d { threat_window = window })
      else (let result : DetectionResult F = record {
        frame = f;
        parsed = parsed;
        is_anomaly = is_anomaly;
        anomaly_score = score;
        threat_density = density window;
        inference_time_us = time_us;
        timestamp = f.timestamp;
      } in
          let out = dispatch d.callbacks result d.world in
          (
            ok result,
            record d {
              threat_window = window;
              total_processed = d.total_processed + 1;
              total_anomalies_flagged = d.total_anomalies_flagged + (if is_anomaly then 1 else 0);
              world = out.world;
              printed = d.printed ++ out.printed;
            },
          ))

  -- From the parser's result on.
  unfoldable pub score :
      CanFrame F
      → F
      → Result (ParsedTelemetry F)
      → StreamAnomalyDetector W F S M
      → Result (DetectionResult F) × StreamAnomalyDetector W F S M
  unfolding conclude
  score f time_us (raise e) d = (raise e, d)
  score f time_us (ok parsed) d =
      let (features, extractor) =
        extract_features np f.can_id f.dlc f.payload f.timestamp d.feature_extractor in
      conclude f time_us parsed (predict_single sk d.model (as_array features))
        (record d { feature_extractor = extractor })

  unfoldable pub process_frame :
      CanFrame F
      → F
      → StreamAnomalyDetector W F S M
      → Result (DetectionResult F) × StreamAnomalyDetector W F S M
  unfolding score
  process_frame f time_us d =
      let (parsed, parser) = parse_frame f d.parser in
      score f time_us parsed (record d { parser = parser })
