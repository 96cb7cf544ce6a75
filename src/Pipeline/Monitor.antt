-- ===== src/Pipeline/Monitor.antt =====
-- src/detection/stream_detector.py between src/ipc/ipc_server.py and src/detection/alert_engine.py:
-- the alerts that a stream of bytes leads to.
use can_sentinental.Prelude.{
  ℕ, ◌+◌, ◌/◌, ◌<◌, ◌≡◌, refl, sym, ap, ◌∙◌, true, false, List, [], ◌∷◌, ◌++◌, length, map,
  is_empty, arith, Error, Result, ok, raise, All,
}
use mathlib.Core.List.{append_assoc, append-nil, flatten}
use can_sentinental.Prelude.Text.{Text}
use can_sentinental.Floats.{FloatOps}
use can_sentinental.Struct.{Bytes, ByteOrder, unpack_fields}
use can_sentinental.Frame.{CanFrame}
use can_sentinental.Callbacks.{dispatch, note}
use can_sentinental.Features.{NumpyStats}
use can_sentinental.Model.{Sklearn}
use can_sentinental.Ipc.{
  ipc_frame_struct_format, frame_of_fields, CanIpcServer, chunk, dispatch_frame, handle_client,
}
use can_sentinental.Ipc.Framing.{packets, dispatch_packets, handle_client-stream}
use can_sentinental.Detector.{StreamAnomalyDetector, DetectionResult, process_frame}
use can_sentinental.Alerts.{AlertEngine}
use can_sentinental.Alerts.History.{evaluate_all}
use can_sentinental.Pipeline.{
  discard, on_detection, on_frame, process_each, returned, raised, frames_of,
}
use can_sentinental.Pipeline.Listening.{alone, heard, process_frame-Overheard}

raised-cons :
    {F : Type 0} (r : Result (DetectionResult F)) (rs : List (Result (DetectionResult F)))
    (es : List Error)
    → (es ++ note (discard r) []) ++ raised rs ≡ es ++ raised (r ∷ rs)
raised-cons (ok det) rs es = append_assoc es [] (raised rs)
raised-cons (raise e) rs es = append_assoc es (e ∷ []) (raised rs)

module _ {V F S M : Type 0} ⦃fl : FloatOps F⦄ (np : NumpyStats F) (sk : Sklearn F S M)
    (iso : F → Text) (elapsed : ℕ → F) where
  -- The server hands its frames to the detector, and the detector its detections to the engine.
  pub record IsConnected (s : CanIpcServer (StreamAnomalyDetector (AlertEngine V F) F S M) F)
      : Type 0 where
    pub to_detector : s.callbacks ≡ on_frame np sk elapsed ∷ []
    pub to_engine : s.world.callbacks ≡ on_detection iso ∷ []

  -- The state that the engine is left in by what a frame came to.
  heard-on_detection :
      (r : Result (DetectionResult F)) (rs : List (Result (DetectionResult F)))
      (d : StreamAnomalyDetector (AlertEngine V F) F S M)
      → d.callbacks ≡ on_detection iso ∷ []
      → evaluate_all iso (returned rs) (heard d r) ≡ evaluate_all iso (returned (r ∷ rs)) d.world
  unfolding dispatch on_detection evaluate_all
  heard-on_detection (raise e) rs d connected = refl
  heard-on_detection (ok det) rs d connected = rw connected refl

  -- The server after the packets, and what each frame has come to.
  record Monitored (s after : CanIpcServer (StreamAnomalyDetector (AlertEngine V F) F S M) F)
      (results : List (Result (DetectionResult F))) : Type 0 where
    alerted : after.world.world ≡ evaluate_all iso (returned results) s.world.world
    shown : after.printed ≡ s.printed ++ raised results
    counted : after.total_frames_received ≡ s.total_frames_received + length results

  -- The server after a frame.
  abbrev handed :
      CanFrame F
      → CanIpcServer (StreamAnomalyDetector (AlertEngine V F) F S M) F
      → CanIpcServer (StreamAnomalyDetector (AlertEngine V F) F S M) F
  handed f s =
      let (r, d) = process_frame np sk f (elapsed s.world.parser.total_messages) s.world in
      record s {
        total_frames_received = s.total_frames_received + 1;
        world = d;
        printed = s.printed ++ note (discard r) [];
      }

  dispatch_frame-handed :
      (f : CanFrame F) (s : CanIpcServer (StreamAnomalyDetector (AlertEngine V F) F S M) F)
      → s.callbacks ≡ on_frame np sk elapsed ∷ []
      → dispatch_frame f s ≡ handed f s
  unfolding dispatch_frame dispatch on_frame
  dispatch_frame-handed f s connected = rw connected refl

  process_each-alone :
      (f : CanFrame F) (fs : List (CanFrame F)) (time_us : F)
      (d : StreamAnomalyDetector (AlertEngine V F) F S M)
      → time_us ≡ elapsed d.parser.total_messages
      → let (r, after) = process_frame np sk f time_us d in
        process_each np sk elapsed (f ∷ fs) (alone d)
        ≡ r ∷ process_each np sk elapsed fs (alone after)
  unfolding process_each
  process_each-alone f fs time_us d timed =
      let over = process_frame-Overheard np sk f time_us d in
      rw (sym timed) (
        ap
          (λ (q : Result (DetectionResult F) × StreamAnomalyDetector (Unit {0}) F S M).
            q.0 ∷ process_each np sk elapsed fs q.1)
          over.same)

  dispatch_packets-Monitored :
      (o : ByteOrder) (clock : ℕ → F) (ps : List Bytes)
      (s : CanIpcServer (StreamAnomalyDetector (AlertEngine V F) F S M) F)
      → IsConnected s
      → Monitored s (dispatch_packets o clock ps s) (
          process_each np sk elapsed (frames_of o clock s.total_frames_received ps) (alone s.world))
  unfolding process_each evaluate_all
  dispatch_packets-Monitored o clock [] s c = record {
    alerted = refl;
    shown = sym (append-nil s.printed);
    counted = omega arith;
  }
  dispatch_packets-Monitored o clock (p ∷ ps) s c =
      let n = s.total_frames_received in
      let f = frame_of_fields (clock n) (unpack_fields o ipc_frame_struct_format p) in
      let fs = frames_of o clock (n + 1) ps in
      let time_us = elapsed s.world.parser.total_messages in
      let (r, d) = process_frame np sk f time_us s.world in
      let over = process_frame-Overheard np sk f time_us s.world in
      let rs = process_each np sk elapsed fs (alone d) in
      let rest =
        dispatch_packets-Monitored o clock ps (handed f s)
          (record { to_detector = c.to_detector; to_engine = over.listening ∙ c.to_engine }) in
      rw (process_each-alone f fs time_us s.world refl, dispatch_frame-handed f s c.to_detector)
        (record {
          alerted =
              rest.alerted
              ∙ (ap (evaluate_all iso (returned rs)) over.told
                  ∙ heard-on_detection r rs s.world c.to_engine);
          shown = rest.shown ∙ raised-cons r rs s.printed;
          counted = omega (arith, rest.counted);
        })

  -- A connected server that receives a stream of bytes, however it is cut into non-empty chunks,
  -- leaves the alert engine in the state that evaluates, in order, the detections that a detector
  -- on its own gives for the frames of the stream's whole packets. The server prints exactly
  -- the errors that the detector raises for these frames, and none of them ends the connection.
  pub handle_client-alerts :
      (o : ByteOrder) (clock : ℕ → F) (chunks : List Bytes) (b : Bytes)
      (s : CanIpcServer (StreamAnomalyDetector (AlertEngine V F) F S M) F)
      → length b < 24
      → All (λ bytes. is_empty bytes ≡ false) chunks
      → IsConnected s
      → let stream = b ++ flatten chunks in
        let frames =
          frames_of o clock s.total_frames_received (packets (length stream / 24) stream) in
        let results = process_each np sk elapsed frames (alone s.world) in
        let after =
          handle_client o clock
            (map (λ bytes. (true, chunk bytes)) chunks)
            (record { server = s; buffer = b; closed = false }) in
        (after.server.world.world ≡ evaluate_all iso (returned results) s.world.world)
        × (after.server.printed ≡ s.printed ++ raised results)
        × (after.server.total_frames_received ≡ s.total_frames_received + length results)
        × (after.closed ≡ false)
  handle_client-alerts o clock chunks b s short full c =
      let stream = b ++ flatten chunks in
      let end = dispatch_packets-Monitored o clock (packets (length stream / 24) stream) s c in
      rw (handle_client-stream o clock chunks b s short full)
        (end.alerted, end.shown, end.counted, refl)
