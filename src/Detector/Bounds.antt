-- ===== src/Detector/Bounds.antt =====
-- src/detection/stream_detector.py: the bounds that the detector's counters and window keep.
use can_sentinental.Prelude.{
  ℕ, ◌≤◌, List, [], ◌∷◌, ◌++◌, length, Result, ok, raise, arith, All, All-append, All-drop,
}
use can_sentinental.Prelude.Int.{ℤ}
use can_sentinental.Prelude.Counter.{sum}
use can_sentinental.Prelude.Deque.{append, length-append-le}
use can_sentinental.Floats.{FloatOps}
use can_sentinental.Frame.{CanFrame}
use can_sentinental.Parser.{ParsedTelemetry, parse_frame}
use can_sentinental.Features.{NumpyStats, extract_features, as_array}
use can_sentinental.Model.{Sklearn, predict_single}
use can_sentinental.Detector.{StreamAnomalyDetector, conclude, score, process_frame}

pub record IsValid {W F S M : Type 0} (d : StreamAnomalyDetector W F S M) : Type 0 where
  pub window_bounded : length d.threat_window ≤ d.threat_window_size
  pub window_flags : All (λ n. n ≤ 1) d.threat_window
  pub flagged_processed : d.total_anomalies_flagged ≤ d.total_processed

append-flags :
    (size n : ℕ) (window : List ℕ)
    → n ≤ 1
    → All (λ m. m ≤ 1) window
    → All (λ m. m ≤ 1) (append size n window)
unfolding append
append-flags size n window p h =
    All-drop (λ m. m ≤ 1) _ (window ++ n ∷ []) (All-append (λ m. m ≤ 1) window (n ∷ []) h (p, tt))

pub sum-le-length : (window : List ℕ) → All (λ n. n ≤ 1) window → sum window ≤ length window
sum-le-length [] h = omega arith
sum-le-length (n ∷ window) h = omega (arith, sum-le-length window h.1, h.0)

module _ {W F S M : Type 0} ⦃fl : FloatOps F⦄ (np : NumpyStats F) (sk : Sklearn F S M) where
  conclude-IsValid :
      (f : CanFrame F) (time_us : F) (parsed : ParsedTelemetry F) (r : Result (ℤ × F))
      (d : StreamAnomalyDetector W F S M)
      → IsValid d
      → IsValid (conclude np sk f time_us parsed r d).1
  unfolding conclude
  conclude-IsValid f time_us parsed (raise e) d v = v
  conclude-IsValid f time_us parsed (ok (pred, s)) d v = ground (
    arith,
    length-append-le d.threat_window_size 0 d.threat_window,
    length-append-le d.threat_window_size 1 d.threat_window,
    append-flags d.threat_window_size 0 d.threat_window (omega arith) v.window_flags,
    append-flags d.threat_window_size 1 d.threat_window (omega arith) v.window_flags,
  )

  score-IsValid :
      (f : CanFrame F) (time_us : F) (r : Result (ParsedTelemetry F))
      (d : StreamAnomalyDetector W F S M)
      → IsValid d
      → IsValid (score np sk f time_us r d).1
  unfolding score
  score-IsValid f time_us (raise e) d v = v
  score-IsValid f time_us (ok parsed) d v =
      let (features, extractor) =
        extract_features np f.can_id f.dlc f.payload f.timestamp d.feature_extractor in
      conclude-IsValid f time_us parsed (predict_single sk d.model (as_array features))
        (record d { feature_extractor = extractor })
        (record {
          window_bounded = v.window_bounded;
          window_flags = v.window_flags;
          flagged_processed = v.flagged_processed;
        })

  process_frame-IsValid :
      (f : CanFrame F) (time_us : F) (d : StreamAnomalyDetector W F S M)
      → IsValid d
      → IsValid (process_frame np sk f time_us d).1
  unfolding process_frame
  process_frame-IsValid f time_us d v =
      let (parsed, parser) = parse_frame f d.parser in
      score-IsValid f time_us parsed (record d { parser = parser })
        (record {
          window_bounded = v.window_bounded;
          window_flags = v.window_flags;
          flagged_processed = v.flagged_processed;
        })

  -- The state after frames with their inference times, whether or not each is scored.
  unfoldable pub process_all :
      List (CanFrame F × F) → StreamAnomalyDetector W F S M → StreamAnomalyDetector W F S M
  process_all [] d = d
  process_all ((f, time_us) ∷ fs) d = process_all fs (process_frame np sk f time_us d).1

  -- Whatever frames are processed, and whatever they raise, the threat window never exceeds its
  -- size and holds only zeros and ones, and no more anomalies are flagged than frames processed.
  pub process_all-IsValid :
      (fs : List (CanFrame F × F)) (d : StreamAnomalyDetector W F S M)
      → IsValid d
      → IsValid (process_all fs d)
  unfolding process_all
  process_all-IsValid [] d v = v
  process_all-IsValid ((f, time_us) ∷ fs) d v =
      process_all-IsValid fs (process_frame np sk f time_us d).1
        (process_frame-IsValid f time_us d v)
