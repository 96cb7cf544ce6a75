-- ===== src/Alerts/History.antt =====
-- src/detection/alert_engine.py: what the engine keeps and logs over a stream of detections.
use mathlib.Core.List.{append_assoc, append-nil}
use can_sentinental.Prelude.{
  ℕ, ◌+◌, ◌≡◌, refl, sym, ap, ◌∙◌, true, false, List, [], ◌∷◌, ◌++◌, length, if◌then◌else◌, arith,
  count_if, Bool-cases, inl, inr, Option, none, some,
}
use can_sentinental.Prelude.Deque.{append, last_n, append-last_n}
use can_sentinental.Prelude.Text.{Text}
use can_sentinental.Floats.{FloatOps}
use can_sentinental.Callbacks.{dispatch}
use can_sentinental.Detector.{DetectionResult}
use can_sentinental.Alerts.{AlertEngine, SecurityAlert, alert_for, evaluate_detection}

module _ {F : Type 0} ⦃fl : FloatOps F⦄ (iso : F → Text) where
  -- The alerts of a stream of detections, numbered on from a counter.
  abbrev pub alerts_of : ℕ → List (DetectionResult F) → List (SecurityAlert F)
  alerts_of n [] = []
  alerts_of n (det ∷ dets) =
      if det.is_anomaly
      then alert_for iso det (n + 1) ∷ alerts_of (n + 1) dets
      else alerts_of n dets

module _ {W F : Type 0} ⦃fl : FloatOps F⦄ (iso : F → Text) where
  -- The engine after an anomaly.
  abbrev alerted : DetectionResult F → AlertEngine W F → AlertEngine W F
  alerted det engine =
      let alert = alert_for iso det (engine.alert_counter + 1) in
      let out = dispatch engine.callbacks alert engine.world in
      record engine {
        recent_alerts = append engine.max_history alert engine.recent_alerts;
        alert_counter = engine.alert_counter + 1;
        log_file = engine.log_file ++ alert ∷ [];
        world = out.world;
        printed = engine.printed ++ out.printed;
      }

  evaluate-anomaly :
      (det : DetectionResult F) (engine : AlertEngine W F)
      → det.is_anomaly ≡ true
      → evaluate_detection iso true det engine
        ≡ (some (alert_for iso det (engine.alert_counter + 1)), alerted det engine)
  unfolding evaluate_detection
  evaluate-anomaly det engine e = rw (e, evaluate_detection)

  evaluate-normal :
      (det : DetectionResult F) (engine : AlertEngine W F)
      → det.is_anomaly ≡ false
      → evaluate_detection iso true det engine ≡ (none, engine)
  unfolding evaluate_detection
  evaluate-normal det engine e = rw (e, evaluate_detection)

  -- The engine after a stream, where every write to the log succeeds.
  unfoldable pub evaluate_all : List (DetectionResult F) → AlertEngine W F → AlertEngine W F
  evaluate_all [] engine = engine
  evaluate_all (det ∷ dets) engine = evaluate_all dets (evaluate_detection iso true det engine).1

  evaluate_all-nil : (engine : AlertEngine W F) → evaluate_all [] engine ≡ engine
  unfolding evaluate_all
  evaluate_all-nil engine = refl

  evaluate_all-cons :
      (det : DetectionResult F) (dets : List (DetectionResult F)) (engine : AlertEngine W F)
      {alert : Option (SecurityAlert F)} {engine' : AlertEngine W F}
      → evaluate_detection iso true det engine ≡ (alert, engine')
      → evaluate_all (det ∷ dets) engine ≡ evaluate_all dets engine'
  unfolding evaluate_all
  evaluate_all-cons det dets engine step =
      ap (λ (q : Option (SecurityAlert F) × AlertEngine W F). evaluate_all dets q.1) step

  -- Over any stream of detections with a writable log, exactly the anomalies become alerts, with
  -- consecutive numbers; all of them are appended to the log in order, the last `max_history` of
  -- them are kept in memory, and the counter counts them, whatever the callbacks do.
  pub evaluate_all-history :
      (dets : List (DetectionResult F)) (h : List (SecurityAlert F)) (engine : AlertEngine W F)
      → engine.recent_alerts ≡ last_n engine.max_history h
      → let alerts = alerts_of iso engine.alert_counter dets in
        let after = evaluate_all dets engine in
        (after.recent_alerts ≡ last_n engine.max_history (h ++ alerts))
        × (after.log_file ≡ engine.log_file ++ alerts)
        × (after.alert_counter ≡ engine.alert_counter + count_if (λ det. det.is_anomaly) dets)
        × (length alerts ≡ count_if (λ det. det.is_anomaly) dets)
  unfolding alert_for
  evaluate_all-history [] h engine r =
      rw (evaluate_all-nil, append-nil) (r, sym (append-nil engine.log_file), omega arith, refl)
  evaluate_all-history (det ∷ dets) h engine r = elim (Bool-cases det.is_anomaly) [
    | inl e ↦
        let alert = alert_for iso det (engine.alert_counter + 1) in
        let remembered =
          ap (append engine.max_history alert) r ∙ append-last_n engine.max_history alert h in
        let (recent, log, counted, many) =
          evaluate_all-history dets (h ++ alert ∷ []) (alerted det engine) remembered in
        let alerts = alerts_of iso (engine.alert_counter + 1) dets in
        rw (evaluate_all-cons det dets engine (evaluate-anomaly det engine e), e)
          (
            recent ∙ ap (last_n engine.max_history) (append_assoc h (alert ∷ []) alerts),
            log ∙ append_assoc engine.log_file (alert ∷ []) alerts,
            omega (arith, counted),
            omega (arith, many),
          )
    | inr e ↦
        let (recent, log, counted, many) = evaluate_all-history dets h engine r in
        rw (evaluate_all-cons det dets engine (evaluate-normal det engine e), e)
          (recent, log, omega (arith, counted), omega (arith, many))
  ]
