-- ===== src/Model/Samples.antt =====
-- Stand-ins for NumPy's statistics and for scikit-learn, on which the tests run.
use can_sentinental.Prelude.{List, [], ◌∷◌, map, true}
use can_sentinental.Prelude.Int.{ℤ, pos}
use can_sentinental.Floats.Fixed.{micro}
use can_sentinental.Features.{NumpyStats}
use can_sentinental.Model.{Sklearn, CanIsolationForestModel}

abbrev pub np : NumpyStats ℤ
np = record { mean = λ bytes. pos 0; var = λ bytes. pos 0 }

-- A scaler that keeps what it is given, and a forest that scores each row by itself.
abbrev pub forest_of : (List ℤ → ℤ) → Sklearn ℤ (Unit {0}) (Unit {0})
forest_of row_score = record {
  fit_transform = λ s x. (s, x);
  transform = λ s x. x;
  fit_forest = λ m x. m;
  decision_function = λ m x. map row_score x;
  percentile = λ scores q. pos 0;
}

-- The first feature of a row, which is the identifier of the frame.
abbrev pub first_feature : List ℤ → ℤ
first_feature [] = pos 0
first_feature (x ∷ row) = x

-- A trained model that flags the scores below a threshold.
abbrev pub below : ℤ → CanIsolationForestModel ℤ (Unit {0}) (Unit {0})
below threshold = record {
  contamination = pos 20000;
  scaler = tt;
  forest = tt;
  is_trained = true;
  threshold = threshold;
}
