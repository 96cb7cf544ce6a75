-- ===== src/Evaluate/Breakdown.antt =====
-- src/ml/evaluate.py: the breakdown per attack class against the confusion matrix.
use can_sentinental.Prelude.{
  ℕ, some, ◌+◌, ◌≤◌, ◌≡◌, refl, ap, ◌∙◌, true, false, List, [], ◌∷◌, length, count_if,
  if◌then◌else◌, arith, Bool-cases, inl, inr, length-map, All,
}
use can_sentinental.Prelude.Int.{ℤ}
use can_sentinental.Prelude.Text.{Text, codes}
use can_sentinental.Prelude.Label.{Label, label_eq}
use can_sentinental.Floats.{FloatOps}
use can_sentinental.Model.{truth, confusion}
use can_sentinental.Evaluate.{
  ClassMetrics, Report, label_set, in_order, class_metrics, breakdown, report_of,
}
use can_sentinental.Evaluate.Labels.{
  is_normal, sum_attacks, sum_attacks-class_size, sum_attacks-caught, AreMembers-HasOnce,
  AreMembers-refl, caught-class_size,
}

module _ {F : Type 0} where
  -- The sum of a count over the classes of a breakdown.
  unfoldable pub sum_of : (ClassMetrics F → ℕ) → List (Label × ClassMetrics F) → ℕ
  sum_of f [] = 0
  sum_of f ((label, m) ∷ rest) = f m + sum_of f rest

module _ {F : Type 0} ⦃fl : FloatOps F⦄ (np_mean : List F → F) where
  sum_of-breakdown :
      (f : ClassMetrics F → ℕ) (ls ys : List Label) (ps : List ℤ) (scores : List F)
      → sum_of f (breakdown np_mean ls ys ps scores)
        ≡ sum_attacks (λ l. f (class_metrics np_mean l ys ps scores)) ls
  unfolding sum_of breakdown sum_attacks
  sum_of-breakdown f [] ys ps scores = refl
  sum_of-breakdown f (l ∷ ls) ys ps scores =
      let rest = sum_of-breakdown f ls ys ps scores in
      elim (Bool-cases (is_normal l)) [
        | inl e ↦ rw e (omega (arith, rest))
        | inr e ↦ rw e (ap (λ n. f (class_metrics np_mean l ys ps scores) + n) rest)
      ]

  -- A class has a label of an attack, and no more of its frames are detected than it has.
  abbrev pub IsClass : Label × ClassMetrics F → Type 0
  IsClass (label, m) =
      (label_eq label (some (codes "NORMAL")) ≡ false) × (m.detected_anomalies ≤ m.total_frames)

  breakdown-IsClass :
      (ls ys : List Label) (ps : List ℤ) (scores : List F)
      → All IsClass (breakdown np_mean ls ys ps scores)
  unfolding breakdown class_metrics
  breakdown-IsClass [] ys ps scores = tt
  breakdown-IsClass (l ∷ ls) ys ps scores =
      let rest = breakdown-IsClass ls ys ps scores in
      elim (Bool-cases (is_normal l)) [
        | inl e ↦ rw e rest
        | inr e ↦ rw e ((e, caught-class_size l ys ps), rest)
      ]

  -- What a report promises of its breakdown.
  pub record AgreesWith (labels : List Label) (r : Report F) : Type 0 where
    pub detected :
        sum_of (λ m. m.detected_anomalies) r.per_attack_vector_breakdown ≡ r.confusion_matrix.tp
    pub frames :
        sum_of (λ m. m.total_frames) r.per_attack_vector_breakdown
        ≡ count_if (λ y. if label_eq y (some (codes "NORMAL")) then false else true) labels
    pub classes : All IsClass r.per_attack_vector_breakdown
    pub total : r.total_frames_evaluated ≡ length labels

  pub report_of-AgreesWith :
      (now path : Text) (threshold : F) (ys : List Label) (ps : List ℤ) (scores : List F)
      → AgreesWith ys (report_of np_mean now path threshold (in_order (label_set ys)) ys ps scores)
  unfolding report_of confusion class_metrics
  report_of-AgreesWith now path threshold ys ps scores =
      let ls = in_order (label_set ys) in
      let once = AreMembers-HasOnce ys ys (AreMembers-refl ys) in
      record {
        detected =
            sum_of-breakdown (λ m. m.detected_anomalies) ls ys ps scores
            ∙ sum_attacks-caught ls ys ps once;
        frames =
            sum_of-breakdown (λ m. m.total_frames) ls ys ps scores
            ∙ sum_attacks-class_size ls ys once;
        classes = breakdown-IsClass ls ys ps scores;
        total = length-map ys truth;
      }
