-- ===== src/Evaluate.antt =====
-- src/ml/evaluate.py: `ModelEvaluator.evaluate_dataset`. NumPy's mean, the time stamp's text and the
-- dataset's file are arguments; a file that is missing is `none`.
pub mod Labels
pub mod Breakdown
pub mod Dataset
pub mod Printing
mod Tests
use can_sentinental.Prelude.{
  ℕ, zero, suc, ◌+◌, Bool, true, false, List, [], ◌∷◌, ◌&&◌, Option, none, some, map, length,
  is_empty, ltb, ◌==◌, count_if, if◌then◌else◌, Result, ok, raise, ◌>>=◌, file_not_found_error,
  type_error, ◌||◌,
}
use can_sentinental.Prelude.Int.{ℤ}
use can_sentinental.Prelude.Text.{Text, codes}
use can_sentinental.Prelude.Label.{Label, label_eq}
use can_sentinental.Floats.{FloatOps, zero_float}
use can_sentinental.Features.{NumpyStats}
use can_sentinental.Csv.{extract_features_from_csv}
use can_sentinental.Logger.{Line}
use can_sentinental.Model.{
  Sklearn, CanIsolationForestModel, ConfusionMatrix, predict, truth, confusion, ratio, harmonic,
  is_one, is_minus_one,
}

-- s < t on strings: the first code points that differ decide.
abbrev pub text_lt : Text → Text → Bool
text_lt [] [] = false
text_lt [] (y ∷ ys) = true
text_lt (x ∷ xs) [] = false
text_lt (x ∷ xs) (y ∷ ys) = if x == y then text_lt xs ys else ltb x y

-- a < b, where None is not compared.
abbrev pub label_lt : Label → Label → Bool
label_lt none b = false
label_lt (some s) none = false
label_lt (some s) (some t) = text_lt s t

abbrev pub is_member : Label → List Label → Bool
is_member label [] = false
is_member label (l ∷ ls) = if label_eq label l then true else is_member label ls

-- set(y_labels), in some order.
unfoldable pub label_set : List Label → List Label
label_set [] = []
label_set (y ∷ ys) = let rest = label_set ys in if is_member y rest then rest else y ∷ rest

unfoldable pub insert_label : Label → List Label → List Label
insert_label l [] = l ∷ []
insert_label l (m ∷ ms) = if label_lt m l then m ∷ insert_label l ms else l ∷ m ∷ ms

unfoldable pub in_order : List Label → List Label
unfolding insert_label
in_order [] = []
in_order (l ∷ ls) = insert_label l (in_order ls)

abbrev pub is_text : Label → Bool
is_text none = false
is_text (some t) = true

abbrev pub has_text : List Label → Bool
has_text [] = false
has_text (l ∷ ls) = is_text l || has_text ls

-- sorted(labels), of a set: a None beside a text is compared with one, which raises.
unfoldable pub sort_labels : List Label → Result (List Label)
unfolding in_order
sort_labels ls = if is_member none ls && has_text ls then raise type_error else ok (in_order ls)

-- scores[y_true_binary == v] and scores[mask], for a test of the other array's items.
abbrev pub select : {A F : Type 0} → (A → Bool) → List A → List F → List F
select p [] scores = []
select p (y ∷ ys) [] = []
select p (y ∷ ys) (s ∷ scores) = if p y then s ∷ select p ys scores else select p ys scores

-- np.sum(mask)
abbrev pub class_size : Label → List Label → ℕ
class_size label ys = count_if (λ y. label_eq y label) ys

-- np.sum(mask & (predictions == -1))
abbrev pub caught : Label → List Label → List ℤ → ℕ
caught label [] ps = 0
caught label (y ∷ ys) [] = 0
caught label (y ∷ ys) (p ∷ ps) =
    (if label_eq y label && is_minus_one p then 1 else 0) + caught label ys ps

pub record ClassMetrics (F : Type 0) : Type 0 where
  pub total_frames : ℕ
  pub detected_anomalies : ℕ
  pub detection_rate_pct : F
  pub mean_anomaly_score : F

pub record Report (F : Type 0) : Type 0 where
  pub evaluation_timestamp : Text
  pub dataset_path : Text
  pub total_frames_evaluated : ℕ
  pub decision_threshold : F
  pub confusion_matrix : ConfusionMatrix
  pub precision_pct : F
  pub recall_pct : F
  pub f1_score_pct : F
  pub accuracy_pct : F
  pub false_positive_rate_pct : F
  pub mean_normal_score : F
  pub mean_attack_score : F
  pub score_separation_gap : F
  pub per_attack_vector_breakdown : List (Label × ClassMetrics F)

module _ {F : Type 0} ⦃fl : FloatOps F⦄ (np_mean : List F → F) where
  -- float(np.mean(xs)) if len(xs) > 0 else 0.0
  abbrev pub mean_or_zero : List F → F
  mean_or_zero xs = if is_empty xs then zero_float else np_mean xs

  -- round(r * 100.0, 2)
  abbrev pub percent : F → F
  percent r = fl.round 2 (fl.mul r (fl.lit 100 0))

  unfoldable pub class_metrics : Label → List Label → List ℤ → List F → ClassMetrics F
  class_metrics label ys predictions scores =
      let class_count = class_size label ys in
      let detected = caught label ys predictions in
      record {
        total_frames = class_count;
        detected_anomalies = detected;
        detection_rate_pct = percent (ratio detected class_count);
        mean_anomaly_score = fl.round 6 (
            if ltb 0 class_count
            then np_mean (select (λ y. label_eq y label) ys scores)
            else zero_float);
      }

  -- for label in unique_labels
  unfoldable pub breakdown :
      List Label → List Label → List ℤ → List F → List (Label × ClassMetrics F)
  breakdown [] ys predictions scores = []
  breakdown (label ∷ unique_labels) ys predictions scores =
      let rest = breakdown unique_labels ys predictions scores in
      if label_eq label (some (codes "NORMAL"))
      then rest
      else (label, class_metrics label ys predictions scores) ∷ rest

  -- The report, from the predictions and the labels in order on.
  unfoldable pub report_of : Text → Text → F → List Label → List Label → List ℤ → List F → Report F
  unfolding breakdown
  report_of now path threshold unique_labels y_labels predictions scores =
      let y_true = map truth y_labels in
      let m = confusion y_true predictions in
      let precision = ratio m.tp (m.tp + m.fp) in
      let recall = ratio m.tp (m.tp + m.fn) in
      let normal_mean = mean_or_zero (select is_one y_true scores) in
      let attack_mean = mean_or_zero (select is_minus_one y_true scores) in
      record {
        evaluation_timestamp = now;
        dataset_path = path;
        total_frames_evaluated = length y_true;
        decision_threshold = fl.round 6 threshold;
        confusion_matrix = m;
        precision_pct = percent precision;
        recall_pct = percent recall;
        f1_score_pct = percent (harmonic precision recall);
        accuracy_pct = percent (ratio (m.tp + m.tn) (length y_true));
        false_positive_rate_pct = percent (ratio m.fp (m.fp + m.tn));
        mean_normal_score = fl.round 6 normal_mean;
        mean_attack_score = fl.round 6 attack_mean;
        score_separation_gap = fl.round 6 (fl.sub normal_mean attack_mean);
        per_attack_vector_breakdown = breakdown unique_labels y_labels predictions scores;
      }

module _ {F S M : Type 0} ⦃fl : FloatOps F⦄ (np : NumpyStats F) (np_mean : List F → F)
    (sk : Sklearn F S M) where
  unfoldable pub evaluate_dataset :
      Text → Text → Option (List Line) → CanIsolationForestModel F S M → Result (Report F)
  unfolding report_of sort_labels label_set
  evaluate_dataset now path none model = raise file_not_found_error
  evaluate_dataset now path (some file) model = do
    (x, y_labels) ← extract_features_from_csv np (some file)
    (predictions, scores) ← predict sk model x
    unique_labels ← sort_labels (label_set y_labels)
    ok (report_of np_mean now path model.threshold unique_labels y_labels predictions scores)
