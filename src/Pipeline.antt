-- ===== src/Pipeline.antt =====
-- The whole pipeline, put together as the README describes it: src/ipc/ipc_server.py hands each
-- frame to src/detection/stream_detector.py, whose detections go to src/detection/alert_engine.py
-- as they do in tests/stress_test.py.
pub mod Listening
pub mod Monitor
mod Tests
use can_sentinental.Prelude.{ℕ, ◌+◌, true, List, [], ◌∷◌, Error, Result, ok, raise}
use can_sentinental.Prelude.Text.{Text}
use can_sentinental.Floats.{FloatOps}
use can_sentinental.Struct.{Bytes, ByteOrder, unpack_fields}
use can_sentinental.Frame.{CanFrame}
use can_sentinental.Callbacks.{Callback}
use can_sentinental.Features.{NumpyStats}
use can_sentinental.Model.{Sklearn}
use can_sentinental.Ipc.{ipc_frame_struct_format, frame_of_fields}
use can_sentinental.Detector.{StreamAnomalyDetector, DetectionResult, process_frame}
use can_sentinental.Alerts.{AlertEngine, evaluate_detection}

-- What is returned where the value is not used.
abbrev pub discard : {A : Type 0} → Result A → Result (Unit {0})
discard (ok _) = ok tt
discard (raise e) = raise e

module _ {V F : Type 0} ⦃fl : FloatOps F⦄ (iso : F → Text) where
  -- The detector's callback, with a log that can be written.
  unfoldable pub on_detection : Callback (AlertEngine V F) (DetectionResult F)
  on_detection det engine = (ok tt, (evaluate_detection iso true det engine).1)

-- `elapsed n` is the inference time measured for the n-th frame.
module _ {W F S M : Type 0} ⦃fl : FloatOps F⦄ (np : NumpyStats F) (sk : Sklearn F S M)
    (elapsed : ℕ → F) where
  -- The server's callback.
  unfoldable pub on_frame : Callback (StreamAnomalyDetector W F S M) (CanFrame F)
  on_frame f d =
      let (r, d') = process_frame np sk f (elapsed d.parser.total_messages) d in (discard r, d')

  -- What `process_frame` gives for each of some frames, one after the other.
  unfoldable pub process_each :
      List (CanFrame F) → StreamAnomalyDetector W F S M → List (Result (DetectionResult F))
  process_each [] d = []
  process_each (f ∷ fs) d =
      let (r, d') = process_frame np sk f (elapsed d.parser.total_messages) d in
      r ∷ process_each fs d'

-- The values, and the errors, among results.
abbrev pub returned : {A : Type 0} → List (Result A) → List A
returned [] = []
returned (ok a ∷ rs) = a ∷ returned rs
returned (raise e ∷ rs) = returned rs

abbrev pub raised : {A : Type 0} → List (Result A) → List Error
raised [] = []
raised (ok a ∷ rs) = raised rs
raised (raise e ∷ rs) = e ∷ raised rs

-- The frames of packets, the first of them unpacked at the n-th reading of the clock.
abbrev pub frames_of :
    {F : Type 0} ⦃fl : FloatOps F⦄ → ByteOrder → (ℕ → F) → ℕ → List Bytes → List (CanFrame F)
frames_of o clock n [] = []
frames_of o clock n (p ∷ ps) =
    frame_of_fields (clock n) (unpack_fields o ipc_frame_struct_format p)
    ∷ frames_of o clock (n + 1) ps
