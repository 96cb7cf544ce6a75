-- ===== src/Model/Tests.antt =====
-- The theorems on the model at a concrete scaler and forest.
use can_sentinental.Prelude.{◌≡◌, refl, List, [], ◌∷◌, map, ok, some}
use can_sentinental.Prelude.Text.{codes}
use can_sentinental.Prelude.Label.{Label}
use mathlib.Core.List.{flat_map}
use can_sentinental.Prelude.Int.{ℤ, pos, negsuc}
use can_sentinental.Floats.Fixed.{micro}
use can_sentinental.Model.{Sklearn, CanIsolationForestModel, Matrix, Metrics, predict, evaluate}
use can_sentinental.Model.Batch.{IsRowwise, predict_each, predict-predict_single}
use can_sentinental.Model.Confusion.{AddsUp, evaluate-AddsUp}
use can_sentinental.Model.Samples.{forest_of, first_feature, below}

abbrev sk : Sklearn ℤ (Unit {0}) (Unit {0})
sk = forest_of first_feature

abbrev model : CanIsolationForestModel ℤ (Unit {0}) (Unit {0})
model = below (pos 0)

abbrev dataset : Matrix ℤ
dataset = (pos 3 ∷ []) ∷ (negsuc 4 ∷ []) ∷ (pos 0 ∷ []) ∷ []

rows_alone : (x : Matrix ℤ) → map first_feature x ≡ flat_map (λ row. map first_feature (row ∷ [])) x
unfolding flat_map
rows_alone [] = refl
rows_alone (row ∷ x) = rw (rows_alone x)

model-IsRowwise : IsRowwise sk model
model-IsRowwise = record { rows = rows_alone; single = λ row. (first_feature row, refl) }

predict-predict_single_example :
    (predict sk model dataset ≡ ok (pos 1 ∷ negsuc 0 ∷ pos 1 ∷ [], pos 3 ∷ negsuc 4 ∷ pos 0 ∷ []))
    × (predict_each sk model dataset
        ≡ ok ((pos 1, pos 3) ∷ (negsuc 0, negsuc 4) ∷ (pos 1, pos 0) ∷ []))
predict-predict_single_example = predict-predict_single sk model dataset refl model-IsRowwise

abbrev labels : List Label
labels = some (codes "NORMAL") ∷ some (codes "DOS") ∷ some (codes "DOS") ∷ []

evaluate-AddsUp_example :
    (m : Metrics ℤ) × (evaluate sk model dataset labels ≡ ok m)
    × AddsUp sk (pos 0) labels (pos 3 ∷ negsuc 4 ∷ pos 0 ∷ []) m.matrix
    × (m.total_samples ≡ 3)
evaluate-AddsUp_example = (evaluate-AddsUp sk model dataset labels refl).0 refl
