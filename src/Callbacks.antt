-- ===== src/Callbacks.antt =====
-- The loop `for cb in self._callbacks: try: cb(x) except Exception as e: print(...)`, which
-- src/ipc/ipc_server.py, src/detection/stream_detector.py and src/detection/alert_engine.py share,
-- as does src/sim/ecu_generator.py with nothing printed. What callbacks touch is a world `W`.
use can_sentinental.Prelude.{List, [], ◌∷◌, Error, Result, ok, raise}

abbrev pub Callback : Type 0 → Type 0 → Type 0
Callback W A = A → W → Result (Unit {0}) × W

-- The world that the callbacks leave, and the errors that are printed.
pub record Outcome (W : Type 0) : Type 0 where
  pub world : W
  pub printed : List Error

abbrev pub note : Result (Unit {0}) → List Error → List Error
note (ok _) es = es
note (raise e) es = e ∷ es

module _ {W A : Type 0} where
  unfoldable pub dispatch : List (Callback W A) → A → W → Outcome W
  dispatch [] a w = record { world = w; printed = [] }
  dispatch (cb ∷ cbs) a w =
      let (r, w') = cb a w in
      let rest = dispatch cbs a w' in record { world = rest.world; printed = note r rest.printed }
