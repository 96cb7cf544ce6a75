-- ===== src/Detector/Sync.antt =====
-- src/detection/stream_detector.py: the parser and the feature extractor keep the same histories,
-- until a frame makes the parser raise.
use can_sentinental.Prelude.{
  ℕ, ◌≤◌, ◌≡◌, refl, sym, ap, ◌∙◌, [], ◌∷◌, length, Option, none, some, Error, Result, ok, raise,
  struct_error, arith, inl, inr,
}
use can_sentinental.Prelude.Dict.{Dict, lookup, insert}
use can_sentinental.Prelude.Counter.{counter}
use can_sentinental.Prelude.Int.{ℤ}
use mathlib.Core.Path.{subst}
use can_sentinental.Struct.{Bytes}
use can_sentinental.Signals.{Signals}
use can_sentinental.Floats.{FloatOps, zero_float}
use can_sentinental.Frame.{CanFrame, valid_bytes}
use can_sentinental.Ids.{can_id_transmission}
use can_sentinental.Parser
use can_sentinental.Parser.{CanTelemetryParser, ParsedTelemetry, observe, telemetry, parse_frame}
use can_sentinental.Parser.Histories.{parse_frame_raises, parse_frame-cases}
use can_sentinental.Features
use can_sentinental.Features.{NumpyStats, extract_features, as_array}
use can_sentinental.Features.Window.{extract_frame}
use can_sentinental.Model.{Sklearn, predict_single}
use can_sentinental.Detector.{
  DetectionResult, StreamAnomalyDetector, conclude, score, process_frame,
}

module _ {F : Type 0} ⦃fl : FloatOps F⦄ where
  entropy_loop-eq :
      (total : ℕ) (counts : Dict ℕ) (e : F)
      → Parser.entropy_loop total counts e ≡ Features.entropy_loop total counts e
  unfolding Parser.entropy_loop Features.entropy_loop
  entropy_loop-eq total [] e = refl
  entropy_loop-eq total ((_, c) ∷ counts) e = entropy_loop-eq total counts _

  -- The two entropy functions of the program agree.
  pub entropy-eq :
      (bytes : Bytes)
      → Parser.calculate_shannon_entropy {F = F} bytes ≡ Features.calculate_shannon_entropy bytes
  unfolding Parser.calculate_shannon_entropy Features.calculate_shannon_entropy
  entropy-eq [] = refl
  entropy-eq (b ∷ bytes) = entropy_loop-eq (length (b ∷ bytes)) (counter (b ∷ bytes)) zero_float

delta_since-eq :
    {F : Type 0} ⦃fl : FloatOps F⦄ (np : NumpyStats F) (ts : F) (last : Option F)
    → Features.delta_since np ts last ≡ Parser.delta_since ts last
delta_since-eq np ts none = refl
delta_since-eq np ts (some last) = refl

module _ {W F S M : Type 0} where
  pub record IsSynced (d : StreamAnomalyDetector W F S M) : Type 0 where
    pub per_id : d.parser.last_seen_per_id ≡ d.feature_extractor.last_timestamp_per_id
    pub global : d.parser.last_global_timestamp ≡ d.feature_extractor.last_global_timestamp

module _ {W F S M : Type 0} ⦃fl : FloatOps F⦄ (np : NumpyStats F) (sk : Sklearn F S M) where
  -- `conclude` leaves the histories, and reports the telemetry that it is given.
  conclude-ok :
      (f : CanFrame F) (time_us : F) (parsed : ParsedTelemetry F) (r : Result (ℤ × F))
      (d : StreamAnomalyDetector W F S M) {det : DetectionResult F}
      → (conclude np sk f time_us parsed r d).0 ≡ ok det
      → (det.parsed ≡ parsed)
        × ((conclude np sk f time_us parsed r d).1.parser ≡ d.parser)
        × ((conclude np sk f time_us parsed r d).1.feature_extractor ≡ d.feature_extractor)
  unfolding conclude
  conclude-ok f time_us parsed (raise e) d h = absurd (ground arith)
  conclude-ok f time_us parsed (ok (pred, s)) d h = (ground arith, ground arith, ground arith)

  score-ok :
      (f : CanFrame F) (time_us : F) (parsed : ParsedTelemetry F)
      (d : StreamAnomalyDetector W F S M) {det : DetectionResult F}
      → (score np sk f time_us (ok parsed) d).0 ≡ ok det
      → (det.parsed ≡ parsed)
        × ((score np sk f time_us (ok parsed) d).1.parser ≡ d.parser)
        × ((score np sk f time_us (ok parsed) d).1.feature_extractor
            ≡ (extract_frame np f d.feature_extractor).1)
  unfolding score
  score-ok f time_us parsed d h =
      let (features, extractor) = extract_frame np f d.feature_extractor in
      conclude-ok f time_us parsed (predict_single sk d.model (as_array features))
        (record d { feature_extractor = extractor }) h

  process_frame-parsed :
      (f : CanFrame F) (time_us : F) (d : StreamAnomalyDetector W F S M)
      (r : Result (ParsedTelemetry F))
      → parse_frame f d.parser ≡ (r, observe f d.parser)
      → process_frame np sk f time_us d
        ≡ score np sk f time_us r (record d { parser = observe f d.parser })
  process_frame-parsed f time_us d r e =
      unfold process_frame in
      ap
        (λ (q : Result (ParsedTelemetry F) × CanTelemetryParser F).
          score np sk f time_us q.0 (record d { parser = q.1 }))
        e

  raised :
      (f : CanFrame F) (time_us : F) (d : StreamAnomalyDetector W F S M) (err : Error)
      {det : DetectionResult F}
      → (score np sk f time_us (raise err) (record d { parser = observe f d.parser })).0 ≡ ok det
      → ⊥
  unfolding score
  raised f time_us d err h = cc

  -- On the same time stamps, the extractor writes and returns what the parser does.
  extract-telemetry :
      (f : CanFrame F) (d : StreamAnomalyDetector W F S M) (signals : Signals F)
      → IsSynced d
      → ((observe f d.parser).last_seen_per_id
          ≡ (extract_frame np f d.feature_extractor).1.last_timestamp_per_id)
        × ((observe f d.parser).last_global_timestamp
            ≡ (extract_frame np f d.feature_extractor).1.last_global_timestamp)
        × ((extract_frame np f d.feature_extractor).0.delta_t
            ≡ (telemetry f d.parser signals).delta_t)
        × ((extract_frame np f d.feature_extractor).0.global_delta_t
            ≡ (telemetry f d.parser signals).global_delta_t)
        × ((extract_frame np f d.feature_extractor).0.entropy
            ≡ (telemetry f d.parser signals).entropy)
  unfolding observe extract_features telemetry
  extract-telemetry f d signals s = (
    ap (insert f.can_id f.timestamp) s.per_id,
    refl,
    delta_since-eq np f.timestamp _
        ∙ ap (λ m. Parser.delta_since f.timestamp (lookup f.can_id m)) (sym s.per_id),
    delta_since-eq np f.timestamp _ ∙ ap (Parser.delta_since f.timestamp) (sym s.global),
    sym (entropy-eq (valid_bytes f)),
  )

  module _ (f : CanFrame F) (time_us : F) (d : StreamAnomalyDetector W F S M) where
    -- Where the parser and the feature extractor hold the same time stamps and a frame is scored,
    -- the features that the model sees have the reported telemetry's time differences and entropy,
    -- and the two hold the same time stamps again.
    pub process_frame-IsSynced :
        {det : DetectionResult F}
        → IsSynced d
        → (process_frame np sk f time_us d).0 ≡ ok det
        → IsSynced (process_frame np sk f time_us d).1
          × ((extract_frame np f d.feature_extractor).0.delta_t ≡ det.parsed.delta_t)
          × ((extract_frame np f d.feature_extractor).0.global_delta_t ≡ det.parsed.global_delta_t)
          × ((extract_frame np f d.feature_extractor).0.entropy ≡ det.parsed.entropy)
    unfolding telemetry
    process_frame-IsSynced {det} s h = elim (parse_frame-cases f d.parser) [
      | inl (signals, e) ↦
          let step = process_frame-parsed f time_us d (ok (telemetry f d.parser signals)) e in
          let scored : (score np sk f time_us (ok (telemetry f d.parser signals))
                (record d { parser = observe f d.parser })).0
              ≡ ok det =
            sym (ap (λ r. r.0) step) ∙ h in
          let (told, parser, extractor) =
            score-ok f time_us (telemetry f d.parser signals)
              (record d { parser = observe f d.parser }) scored in
          let fields = extract-telemetry f d signals s in
          (
            subst IsSynced (sym (ap (λ r. r.1) step)) (record {
              per_id =
                  ap (λ p. p.last_seen_per_id) parser
                  ∙ (fields.0 ∙ sym (ap (λ x. x.last_timestamp_per_id) extractor));
              global =
                  ap (λ p. p.last_global_timestamp) parser
                  ∙ (fields.1 ∙ sym (ap (λ x. x.last_global_timestamp) extractor));
            }),
            fields.2 ∙ sym (ap (λ t. t.delta_t) told),
            fields.3 ∙ sym (ap (λ t. t.global_delta_t) told),
            fields.4 ∙ sym (ap (λ t. t.entropy) told),
          )
      | inr (err, e) ↦ absurd (
          raised f time_us d err
            (sym (ap (λ r. r.0) (process_frame-parsed f time_us d (raise err) e)) ∙ h))
    ]

    -- A transmission frame with four valid bytes or more is never scored: the parser raises, having
    -- taken its time stamps, and the feature extractor, the model, the threat window, the counters
    -- and the subscribers see nothing of it.
    pub process_frame_transmission :
        f.can_id ≡ can_id_transmission
        → 4 ≤ length (valid_bytes f)
        → process_frame np sk f time_us d
          ≡ (raise struct_error, record d { parser = observe f d.parser })
    unfolding process_frame
    process_frame_transmission e h = rw ((parse_frame_raises f d.parser).0 e h)
