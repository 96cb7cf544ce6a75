-- ===== src/Model/Confusion.antt =====
-- src/ml/train_isolation_forest.py: the confusion matrix of `evaluate` adds up.
use can_sentinental.Prelude.Text.{codes}
use can_sentinental.Prelude.Label.{Label, label_eq}
use can_sentinental.Prelude.{
  ◌+◌, ◌≡◌, some, refl, Bool, true, false, not, List, [], ◌∷◌, map, length, ok, arith, count_if,
  length-map, raise, runtime_error,
}
use can_sentinental.Floats.{FloatOps}
use can_sentinental.Model.{
  Sklearn, CanIsolationForestModel, Matrix, ConfusionMatrix, Metrics, truth, label_of, confusion,
  evaluate, metrics,
}
use can_sentinental.Model.Batch.{scores_of}

abbrev pub is_attack : Label → Bool
is_attack label = not (label_eq label (some (codes "NORMAL")))

module _ {F S M : Type 0} ⦃fl : FloatOps F⦄ (sk : Sklearn F S M) (threshold : F) where
  abbrev pub is_flagged : F → Bool
  is_flagged score = not (fl.le threshold score)

  -- The sums of the counts, for as many labels as scores.
  pub record AddsUp (labels : List Label) (scores : List F) (m : ConfusionMatrix) : Type 0 where
    pub attacks : m.tp + m.fn ≡ count_if is_attack labels
    pub flagged : m.tp + m.fp ≡ count_if is_flagged scores
    pub total : m.tp + m.fp + m.tn + m.fn ≡ length labels

  pub confusion-AddsUp :
      (labels : List Label) (scores : List F)
      → length labels ≡ length scores
      → AddsUp labels scores (confusion (map truth labels) (map (label_of sk threshold) scores))
  unfolding confusion
  confusion-AddsUp [] [] h = record { attacks = refl; flagged = refl; total = refl }
  confusion-AddsUp [] (s ∷ ss) h = absurd (omega arith)
  confusion-AddsUp (l ∷ ls) [] h = absurd (omega arith)
  confusion-AddsUp (l ∷ ls) (s ∷ ss) h =
      let rest = confusion-AddsUp ls ss (omega arith) in
      record {
        attacks = ground (arith, rest.attacks);
        flagged = ground (arith, rest.flagged);
        total = ground (arith, rest.total);
      }

module _ {F S M : Type 0} ⦃fl : FloatOps F⦄ (sk : Sklearn F S M) where
  -- A trained model evaluates every dataset with as many labels as scores, and the confusion matrix
  -- adds up: true positives and false negatives are the attacks by label, true and false positives
  -- are the frames scored below the threshold, and the four counts are all samples. An untrained
  -- model raises.
  pub evaluate-AddsUp :
      (model : CanIsolationForestModel F S M) (x : Matrix F) (labels : List Label)
      → length labels ≡ length (scores_of sk model x)
      → (model.is_trained ≡ true
          → (m : Metrics F) × (evaluate sk model x labels ≡ ok m)
            × AddsUp sk model.threshold labels (scores_of sk model x) m.matrix
            × (m.total_samples ≡ length labels))
        × (model.is_trained ≡ false → evaluate sk model x labels ≡ raise runtime_error)
  unfolding evaluate
  evaluate-AddsUp model x labels h = (
    λ t. (
      metrics model.threshold (map truth labels)
          (map (label_of sk model.threshold) (scores_of sk model x)),
      rw t,
      confusion-AddsUp sk model.threshold labels (scores_of sk model x) h,
      length-map labels truth,
    ),
    λ t. rw t,
  )
