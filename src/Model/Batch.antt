-- ===== src/Model/Batch.antt =====
-- src/ml/train_isolation_forest.py: `predict` on a matrix against `predict_single` on its rows.
use mathlib.Core.List.{flat_map}
use can_sentinental.Prelude.{◌≡◌, refl, sym, ap, ◌∙◌, true, List, [], ◌∷◌, map, Result, ok, ◌>>=◌}
use can_sentinental.Prelude.Int.{ℤ}
use can_sentinental.Floats.{FloatOps}
use can_sentinental.Model.{
  Sklearn, CanIsolationForestModel, Matrix, label_of, predict_single, predict,
}

module _ {F S M : Type 0} ⦃fl : FloatOps F⦄ (sk : Sklearn F S M)
    (model : CanIsolationForestModel F S M) where
  -- The scores of a matrix.
  abbrev pub scores_of : Matrix F → List F
  scores_of x = sk.decision_function model.forest (sk.transform model.scaler x)

  -- scikit-learn scores each row by itself: one score for one row, in the rows' order.
  pub record IsRowwise : Type 0 where
    pub rows : (x : Matrix F) → scores_of x ≡ flat_map (λ row. scores_of (row ∷ [])) x
    pub single : (row : List F) → (s : F) × (scores_of (row ∷ []) ≡ s ∷ [])

  -- `predict_single` on one row after the other.
  unfoldable pub predict_each : Matrix F → Result (List (ℤ × F))
  predict_each [] = ok []
  predict_each (row ∷ x) = do p ← predict_single sk model row; ps ← predict_each x; ok (p ∷ ps)

  predict_each-flat_map :
      (x : Matrix F)
      → model.is_trained ≡ true
      → IsRowwise
      → predict_each x
        ≡ ok (
            map
              (λ s. (label_of sk model.threshold s, s))
              (flat_map (λ row. scores_of (row ∷ [])) x))
  unfolding predict_each predict_single flat_map
  predict_each-flat_map [] t r = refl
  predict_each-flat_map (row ∷ x) t r =
      let (s, one) = r.single row in rw (t, one, predict_each-flat_map x t r)

  -- If scikit-learn scores row by row, a trained model's batch prediction gives every row the
  -- label and the score that `predict_single` gives it.
  pub predict-predict_single :
      (x : Matrix F)
      → model.is_trained ≡ true
      → IsRowwise
      → (predict sk model x ≡ ok (map (label_of sk model.threshold) (scores_of x), scores_of x))
        × (predict_each x ≡ ok (map (λ s. (label_of sk model.threshold s, s)) (scores_of x)))
  unfolding predict
  predict-predict_single x t r = (
    rw t,
    predict_each-flat_map x t r
        ∙ ap (λ ss. ok (map (λ s. (label_of sk model.threshold s, s)) ss)) (sym (r.rows x)),
  )
