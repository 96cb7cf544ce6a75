-- ===== src/Pipeline/Listening.antt =====
-- src/detection/stream_detector.py: what `process_frame` does, and what its callbacks add to that.
use can_sentinental.Prelude.{
  ℕ, ◌==◌, ◌≡◌, refl, [], length, if◌then◌else◌, Result, ok, raise, Bool-cases, inl, inr,
}
use can_sentinental.Prelude.Int.{ℤ}
use can_sentinental.Prelude.Deque.{append}
use can_sentinental.Floats.{FloatOps}
use can_sentinental.Frame.{CanFrame}
use can_sentinental.Callbacks.{dispatch}
use can_sentinental.Parser.{ParsedTelemetry, parse_frame}
use can_sentinental.Features.{NumpyStats, extract_features, as_array}
use can_sentinental.Model.{Sklearn, predict_single, is_minus_one}
use can_sentinental.Detector.{
  StreamAnomalyDetector, DetectionResult, conclude, score, process_frame,
}

-- A detector that nobody listens to.
abbrev pub alone :
    {W F S M : Type 0} → StreamAnomalyDetector W F S M → StreamAnomalyDetector (Unit {0}) F S M
alone d = record {
  parser = d.parser;
  feature_extractor = d.feature_extractor;
  model = d.model;
  threat_window = d.threat_window;
  threat_window_size = d.threat_window_size;
  callbacks = [];
  total_processed = d.total_processed;
  total_anomalies_flagged = d.total_anomalies_flagged;
  world = tt;
  printed = [];
}

module _ {W F S M : Type 0} where
  -- What the callbacks leave behind when a call ends with a result.
  abbrev pub heard : StreamAnomalyDetector W F S M → Result (DetectionResult F) → W
  heard d (ok det) = (dispatch d.callbacks det d.world).world
  heard d (raise e) = d.world

  -- A call with its end, and the same call on the detector alone with its own.
  pub record Overheard (d : StreamAnomalyDetector W F S M)
      (q : Result (DetectionResult F) × StreamAnomalyDetector W F S M)
      (bare : Result (DetectionResult F) × StreamAnomalyDetector (Unit {0}) F S M) : Type 0 where
    pub same : bare ≡ (q.0, alone q.1)
    pub told : q.1.world ≡ heard d q.0
    pub listening : q.1.callbacks ≡ d.callbacks

module _ {W F S M : Type 0} ⦃fl : FloatOps F⦄ (np : NumpyStats F) (sk : Sklearn F S M) where
  conclude-Overheard :
      (f : CanFrame F) (time_us : F) (parsed : ParsedTelemetry F) (r : Result (ℤ × F))
      (d : StreamAnomalyDetector W F S M)
      → Overheard d
          (conclude np sk f time_us parsed r d)
          (conclude np sk f time_us parsed r (alone d))
  unfolding conclude dispatch
  conclude-Overheard f time_us parsed (raise e) d = record {
    same = refl;
    told = refl;
    listening = refl;
  }
  conclude-Overheard f time_us parsed (ok (pred, s)) d =
      let flag : ℕ = if is_minus_one pred then 1 else 0 in
      elim (Bool-cases (length (append d.threat_window_size flag d.threat_window) == 0)) [
        | inl e ↦ rw (e, conclude) record { same = refl; told = refl; listening = refl }
        | inr e ↦ rw (e, conclude) record { same = refl; told = refl; listening = refl }
      ]

  score-Overheard :
      (f : CanFrame F) (time_us : F) (r : Result (ParsedTelemetry F))
      (d : StreamAnomalyDetector W F S M)
      → Overheard d (score np sk f time_us r d) (score np sk f time_us r (alone d))
  unfolding score
  score-Overheard f time_us (raise e) d = record { same = refl; told = refl; listening = refl }
  score-Overheard f time_us (ok parsed) d =
      let (features, extractor) =
        extract_features np f.can_id f.dlc f.payload f.timestamp d.feature_extractor in
      let over =
        conclude-Overheard f time_us parsed (predict_single sk d.model (as_array features))
          (record d { feature_extractor = extractor }) in
      record { same = over.same; told = over.told; listening = over.listening }

  pub process_frame-Overheard :
      (f : CanFrame F) (time_us : F) (d : StreamAnomalyDetector W F S M)
      → Overheard d (process_frame np sk f time_us d) (process_frame np sk f time_us (alone d))
  unfolding process_frame
  process_frame-Overheard f time_us d =
      let (parsed, parser) = parse_frame f d.parser in
      let over = score-Overheard f time_us parsed (record d { parser = parser }) in
      record { same = over.same; told = over.told; listening = over.listening }
