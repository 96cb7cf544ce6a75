-- ===== src/Model.antt =====
-- src/ml/train_isolation_forest.py: `CANIsolationForestModel`. scikit-learn's scaler and forest
-- and NumPy's percentile are parameters; a matrix is a list of rows.
pub mod Batch
pub mod Confusion
pub mod Samples
mod Tests
use can_sentinental.Prelude.{
  ℕ, zero, suc, ◌+◌, ◌*◌, some, ◌==◌, Bool, true, false, List, [], ◌∷◌, map, length, is_empty, ltb,
  ◌&&◌, if◌then◌else◌, Result, ok, raise, ◌>>=◌, value_error, runtime_error, index_error,
}
use can_sentinental.Prelude.Text.{codes}
use can_sentinental.Prelude.Label.{Label, label_eq}
use can_sentinental.Prelude.Int.{ℤ, pos, negsuc}
use can_sentinental.Floats.{FloatOps, zero_float, of_nat}

abbrev pub Matrix : Type 0 → Type 0
Matrix F = List (List F)

-- StandardScaler `S` and IsolationForest `M`, as far as they are called.
pub record Sklearn (F S M : Type 0) : Type 0 where
  pub fit_transform : S → Matrix F → S × Matrix F
  pub transform : S → Matrix F → Matrix F
  pub fit_forest : M → Matrix F → M
  pub decision_function : M → Matrix F → List F
  -- np.percentile(scores, q)
  pub percentile : List F → F → F

pub record CanIsolationForestModel (F S M : Type 0) : Type 0 where
  pub contamination : F
  pub scaler : S
  pub forest : M
  pub is_trained : Bool
  pub threshold : F

-- 1 for a normal frame and -1 for an anomaly.
abbrev pub normal : ℤ
normal = pos 1

abbrev pub anomaly : ℤ
anomaly = negsuc 0

-- n == 1 and n == -1
abbrev pub is_one : ℤ → Bool
is_one (pos n) = n == 1
is_one (negsuc n) = false

abbrev pub is_minus_one : ℤ → Bool
is_minus_one (pos n) = false
is_minus_one (negsuc n) = n == 0

module _ {F S M : Type 0} ⦃fl : FloatOps F⦄ (sk : Sklearn F S M) where
  unfoldable pub fit :
      Matrix F → CanIsolationForestModel F S M → Result (CanIsolationForestModel F S M)
  fit x model =
      if is_empty x
      then raise value_error
      else (let (scaler, x_scaled) = sk.fit_transform model.scaler x in
          let forest = sk.fit_forest model.forest x_scaled in
          let scores = sk.decision_function forest x_scaled in
          ok (record model {
            scaler = scaler;
            forest = forest;
            is_trained = true;
            threshold = sk.percentile scores (fl.mul model.contamination (fl.lit 100 0));
          }))

  -- The label of a score.
  abbrev pub label_of : F → F → ℤ
  label_of threshold score = if fl.le threshold score then normal else anomaly

  -- scores[0]
  abbrev pub first : List F → Result F
  first [] = raise index_error
  first (s ∷ ss) = ok s

  unfoldable pub predict_single : CanIsolationForestModel F S M → List F → Result (ℤ × F)
  predict_single model feature_vector =
      if model.is_trained
      then (do
        let x_scaled = sk.transform model.scaler (feature_vector ∷ [])
        score ← first (sk.decision_function model.forest x_scaled)
        ok (label_of model.threshold score, score))
      else raise runtime_error

  unfoldable pub predict : CanIsolationForestModel F S M → Matrix F → Result (List ℤ × List F)
  predict model x =
      if model.is_trained
      then (let scores = sk.decision_function model.forest (sk.transform model.scaler x) in
          ok (map (label_of model.threshold) scores, scores))
      else raise runtime_error

-- np.where(y_labels == "NORMAL", 1, -1)
abbrev pub truth : Label → ℤ
truth label = if label_eq label (some (codes "NORMAL")) then normal else anomaly

-- np.sum((y_true == a) & (preds == b))
abbrev pub count_both : (ℤ → Bool) → (ℤ → Bool) → List ℤ → List ℤ → ℕ
count_both p q [] bs = 0
count_both p q (a ∷ as') [] = 0
count_both p q (a ∷ as') (b ∷ bs) = (if p a && q b then 1 else 0) + count_both p q as' bs

pub record ConfusionMatrix : Type 0 where
  pub tp : ℕ
  pub fp : ℕ
  pub tn : ℕ
  pub fn : ℕ

unfoldable pub confusion : List ℤ → List ℤ → ConfusionMatrix
confusion y_true preds = record {
  tp = count_both is_minus_one is_minus_one y_true preds;
  fp = count_both is_one is_minus_one y_true preds;
  tn = count_both is_one is_one y_true preds;
  fn = count_both is_minus_one is_one y_true preds;
}

pub record Metrics (F : Type 0) : Type 0 where
  pub total_samples : ℕ
  pub matrix : ConfusionMatrix
  pub precision : F
  pub recall : F
  pub f1_score : F
  pub accuracy : F
  pub threshold : F

module _ {F : Type 0} ⦃fl : FloatOps F⦄ where
  -- a / b if b > 0 else 0.0
  abbrev pub ratio : ℕ → ℕ → F
  ratio a b = if ltb 0 b then fl.div (of_nat a) (of_nat b) else zero_float

  -- 2 * precision * recall / (precision + recall), if that is positive
  abbrev pub harmonic : F → F → F
  harmonic precision recall =
      if fl.lt zero_float (fl.add precision recall)
      then fl.div (fl.mul (fl.mul (of_nat 2) precision) recall) (fl.add precision recall)
      else zero_float

  unfoldable pub metrics : F → List ℤ → List ℤ → Metrics F
  unfolding confusion
  metrics threshold y_true preds =
      let m = confusion y_true preds in
      let precision = ratio m.tp (m.tp + m.fp) in
      let recall = ratio m.tp (m.tp + m.fn) in
      record {
        total_samples = length y_true;
        matrix = m;
        precision = fl.round 4 precision;
        recall = fl.round 4 recall;
        f1_score = fl.round 4 (harmonic precision recall);
        accuracy = fl.round 4 (ratio (m.tp + m.tn) (length y_true));
        threshold = fl.round 6 threshold;
      }

module _ {F S M : Type 0} ⦃fl : FloatOps F⦄ (sk : Sklearn F S M) where
  unfoldable pub evaluate :
      CanIsolationForestModel F S M → Matrix F → List Label → Result (Metrics F)
  unfolding metrics predict
  evaluate model x y_labels = do
    (preds, scores) ← predict sk model x
    ok (metrics model.threshold (map truth y_labels) preds)
