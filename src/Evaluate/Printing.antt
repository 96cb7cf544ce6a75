-- ===== src/Evaluate/Printing.antt =====
-- src/ml/evaluate.py: `print_evaluation_report`, as the texts that it hands to `print`, one for each
-- call.
use can_sentinental.Prelude.{
  ℕ, ◌-◌, replicate, none, some, Result, ok, raise, type_error, List, [], ◌∷◌, ◌++◌, length,
}
use can_sentinental.Prelude.Text.{Text, codes, decimal}
use can_sentinental.Prelude.Label.{Label}
use can_sentinental.Floats.{FloatOps}
use can_sentinental.Evaluate.{Report, ClassMetrics}

abbrev newline : Text
newline = 10 ∷ []

-- "=" * 65 and "-" * 65
abbrev pub thick_rule : Text
thick_rule = replicate 65 61

abbrev pub thin_rule : Text
thin_rule = replicate 65 45

-- f"{t:<w}"
abbrev pub left_aligned : ℕ → Text → Text
left_aligned w t = t ++ replicate (w - length t) 32

-- The last call of print, where the loop has not raised.
unfoldable pub closing_line : Result (Unit {0}) × List Text → Result (Unit {0}) × List Text
closing_line (raise e, lines) = (raise e, lines)
closing_line (ok _, lines) = (ok tt, lines ++ (thick_rule ++ newline) ∷ [])

module _ {F : Type 0} ⦃fl : FloatOps F⦄ where
  -- A line of the global metrics: its label, then the value as a percentage.
  abbrev percentage : Text → F → Text
  percentage label x = label ++ fl.str x ++ codes "%"

  unfoldable pub vector_line : Text → ClassMetrics F → Text
  unfolding decimal
  vector_line attack_name metrics =
      codes "  - "
      ++ left_aligned 20 attack_name
      ++ codes " : "
      ++ fl.str metrics.detection_rate_pct
      ++ codes "% ("
      ++ decimal metrics.detected_anomalies
      ++ codes "/"
      ++ decimal metrics.total_frames
      ++ codes ") [Mean Score: "
      ++ fl.str metrics.mean_anomaly_score
      ++ codes "]"

  -- for attack_name, data in report["per_attack_vector_breakdown"].items(): a None cannot be aligned,
  -- which raises with the lines before it printed.
  unfoldable pub vector_lines : List (Label × ClassMetrics F) → Result (Unit {0}) × List Text
  unfolding vector_line
  vector_lines [] = (ok tt, [])
  vector_lines ((none, metrics) ∷ items) = (raise type_error, [])
  vector_lines ((some attack_name, metrics) ∷ items) =
      let (r, lines) = vector_lines items in (r, vector_line attack_name metrics ∷ lines)

  unfoldable pub print_evaluation_report : Report F → Result (Unit {0}) × List Text
  unfolding vector_lines closing_line decimal
  print_evaluation_report report =
      let cm = report.confusion_matrix in
      let (r, lines) = closing_line (vector_lines report.per_attack_vector_breakdown) in
      (
        r,
        (newline ++ thick_rule)
            ∷ codes "       CAN-Sentinel: Intrusion Detection Evaluation Audit"
            ∷ thick_rule
            ∷ (codes "[*] Total Frames Evaluated : " ++ decimal report.total_frames_evaluated)
            ∷ (codes "[*] Decision Threshold     : " ++ fl.str report.decision_threshold)
            ∷ thin_rule
            ∷ codes " GLOBAL CLASSIFICATION METRICS:"
            ∷ percentage (codes "  - Precision (PPV)        : ") report.precision_pct
            ∷ percentage (codes "  - Recall (Sensitivity)   : ") report.recall_pct
            ∷ percentage (codes "  - F1-Score               : ") report.f1_score_pct
            ∷ percentage (codes "  - Accuracy               : ") report.accuracy_pct
            ∷ percentage (codes "  - False Positive Rate    : ") report.false_positive_rate_pct
            ∷ thin_rule
            ∷ codes " CONFUSION MATRIX:"
            ∷ (codes "  - True Positives (TP)    : " ++ decimal cm.tp ++ codes " (Attacks Caught)")
            ∷ (codes "  - False Positives (FP)   : "
                ++ decimal cm.fp
                ++ codes " (Normal False Alarms)")
            ∷ (codes "  - True Negatives (TN)    : "
                ++ decimal cm.tn
                ++ codes " (Normal Clean Passes)")
            ∷ (codes "  - False Negatives (FN)   : " ++ decimal cm.fn ++ codes " (Missed Attacks)")
            ∷ thin_rule
            ∷ codes " SCORE SEPARATION DYNAMICS:"
            ∷ (codes "  - Mean Normal Score      : " ++ fl.str report.mean_normal_score)
            ∷ (codes "  - Mean Attack Score      : " ++ fl.str report.mean_attack_score)
            ∷ (codes "  - Anomaly Separation Gap : " ++ fl.str report.score_separation_gap)
            ∷ thin_rule
            ∷ codes " PER-ATTACK VECTOR DETECTION RATES:"
            ∷ lines,
      )
